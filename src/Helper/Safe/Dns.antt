-- ===== src/Helper/Safe/Dns.antt =====
-- The DNS transactions keep the order of the log.
use network_manager_sidebar.Base.{◌≡◌, Bool, true, false, not, ◌&&◌, ◌||◌, Option, Bytes, ℤ, arith}
use network_manager_sidebar.Journal.{JournalDnsState, RuntimeMarker, JournalState}
use network_manager_sidebar.Dns.{DnsConfig}
use network_manager_sidebar.Helper.Environment.{Environment, DnsChangeOutcome}
use network_manager_sidebar.Helper.State.{Session, Event, pure, gets, perform, modify}
use network_manager_sidebar.Helper.Keeps.{
  Leaves, Keeps, starting, Leaves-weaken, Leaves-gets, Leaves-perform, Leaves-modify, Leaves-if,
  Leaves-pure, keeps_rules,
}
use network_manager_sidebar.Helper.Reads.{owned_link_state-Keeps}
use network_manager_sidebar.Helper.Tunnel.{DnsTransaction, set_state, set_dns_state}
use network_manager_sidebar.Helper.Tunnel.Dns.{
  is_uncertain, settle_dns_change, mark_dns_unknown, complete_dns_change, change_durably,
  apply_dns_durably, revert_is_unsafe, revert_dns_durably,
}
use network_manager_sidebar.Helper.Safe.{
  IsSafe, is_safe_log, has_lost, may_follow, has_written, dns_is_unknown,
  write_runtime_marker-IsSafe,
}

-- Safe, but for a resolver that the outcome lost.
IsSafeUpTo : DnsChangeOutcome → Session → Type 0
IsSafeUpTo outcome s =
    (is_safe_log s.log ≡ true)
    × (has_lost s.log && not (is_uncertain outcome.result) && not s.dns_recovery_blocked ≡ false)

-- Safe, and no resolver was lost.
NothingLost : Session → Type 0
NothingLost s = (is_safe_log s.log ≡ true) × (has_lost s.log ≡ false)

-- The journal may have been written with an unknown DNS state.
IsReady : Bool → Session → Type 0
IsReady written s = NothingLost s × (not written || has_written dns_is_unknown s.log ≡ true)

-- Safe, and no resolver was lost where the flag was not set.
IsSafeUnless : Bool → Session → Type 0
IsSafeUnless blocked s = IsSafe s × (blocked || not (has_lost s.log) ≡ true)

module _ {World : Type 0} (env : Environment World) (name : Bytes) where
  pub set_state-IsSafe :
      (state : JournalState) → Keeps {World = World} IsSafe (modify (set_state state))
  unfolding IsSafe set_state
  set_state-IsSafe state = Leaves-modify (set_state state) (λ s h. h)

  pub set_dns_state-IsSafe :
      (dns_state : JournalDnsState)
      → Keeps {World = World} IsSafe (modify (set_dns_state dns_state))
  unfolding IsSafe set_dns_state
  set_dns_state-IsSafe dns_state = Leaves-modify (set_dns_state dns_state) (λ s h. h)

  settle_dns_change-IsSafe :
      (previous confirmed : JournalDnsState) (outcome : DnsChangeOutcome)
      → Leaves {World = World}
          (IsSafeUpTo outcome)
          (modify (settle_dns_change previous confirmed outcome))
          (λ _. IsSafe)
  unfolding IsSafe IsSafeUpTo settle_dns_change
  settle_dns_change-IsSafe previous confirmed outcome =
      Leaves-modify (settle_dns_change previous confirmed outcome) (λ s h. ground arith)

  complete_dns_change-IsSafe :
      (previous confirmed : JournalDnsState) (outcome : DnsChangeOutcome)
      → Leaves
          (IsSafeUpTo outcome)
          (complete_dns_change env name previous confirmed outcome)
          (λ _. IsSafe)
  unfolding complete_dns_change
  complete_dns_change-IsSafe previous confirmed outcome =
      let settled = starting (settle_dns_change-IsSafe previous confirmed outcome) in
      search (keeps_rules, settled, write_runtime_marker-IsSafe)

  change-IsSafe :
      (change : World → DnsChangeOutcome × World) (written : Bool)
      → not written ≡ false
      → Leaves (IsReady written) (perform Event.dns_changed change) IsSafeUpTo
  unfolding IsReady NothingLost IsSafeUpTo is_safe_log may_follow has_lost has_written
  change-IsSafe change written w = Leaves-perform Event.dns_changed change (λ a s h. ground arith)

  reset-IsSafe :
      (written : Bool) (previous : JournalDnsState)
      → Leaves {World = World} (IsReady written) (modify (set_dns_state previous)) (λ _. IsSafe)
  unfolding IsReady NothingLost IsSafe set_dns_state
  reset-IsSafe written previous = Leaves-modify (set_dns_state previous) (λ s h. ground arith)

  mark_dns_unknown-IsReady : Leaves NothingLost (mark_dns_unknown env name) IsReady
  unfolding mark_dns_unknown IsReady NothingLost is_safe_log has_lost has_written may_follow
  mark_dns_unknown-IsReady = record { at = λ s h. ground arith }

  change_durably-IsSafe :
      (change : World → DnsChangeOutcome × World) (previous confirmed : JournalDnsState)
      → Leaves NothingLost (change_durably env name change previous confirmed) (λ _. IsSafe)
  unfolding change_durably
  change_durably-IsSafe change previous confirmed =
      let marked = starting mark_dns_unknown-IsReady in
      let reset = λ (written : Bool). starting (reset-IsSafe written previous) in
      let changed =
        λ (written : Bool) (w : not written ≡ false). starting (change-IsSafe change written w) in
      search (marked, reset, changed, Leaves-if, keeps_rules, complete_dns_change-IsSafe)

  -- The flag of the tunnel, read before anything is done.
  read_blocked : Leaves {World = World} IsSafe (gets (λ s. s.dns_recovery_blocked)) IsSafeUnless
  unfolding IsSafe IsSafeUnless
  read_blocked = Leaves-gets (λ s. s.dns_recovery_blocked) (λ s h. ground arith)

  unchanged :
      (blocked : Bool) (result : DnsTransaction)
      → Leaves {World = World} (IsSafeUnless blocked) (pure result) (λ _. IsSafe)
  unfolding IsSafeUnless
  unchanged blocked result = Leaves-pure result (λ s h. h.0)

  changed :
      (blocked : Bool)
      → blocked ≡ false
      → (change : World → DnsChangeOutcome × World) (previous confirmed : JournalDnsState)
      → Leaves
          (IsSafeUnless blocked)
          (change_durably env name change previous confirmed)
          (λ _. IsSafe)
  unfolding IsSafeUnless NothingLost IsSafe
  changed blocked b change previous confirmed =
      Leaves-weaken (λ s h. ground arith) (change_durably-IsSafe change previous confirmed)

  given_up :
      (blocked : Bool) (previous confirmed : JournalDnsState) (outcome : DnsChangeOutcome)
      → Leaves
          (IsSafeUnless blocked)
          (complete_dns_change env name previous confirmed outcome)
          (λ _. IsSafe)
  unfolding IsSafeUnless IsSafeUpTo IsSafe
  given_up blocked previous confirmed outcome =
      Leaves-weaken (λ s h. ground arith) (complete_dns_change-IsSafe previous confirmed outcome)

  pub apply_dns_durably-IsSafe :
      (dns : Option DnsConfig) (deadline : ℤ)
      → Keeps IsSafe (apply_dns_durably env name dns deadline)
  unfolding apply_dns_durably
  apply_dns_durably-IsSafe dns deadline =
      let read = starting read_blocked in
      search (read, Leaves-if, unchanged, changed, keeps_rules) depth 12

  revert_is_unsafe-Keeps :
      {P : Session → Type 0} (journal : RuntimeMarker) → Keeps P (revert_is_unsafe env name journal)
  unfolding revert_is_unsafe
  revert_is_unsafe-Keeps journal = search (keeps_rules, owned_link_state-Keeps)

  pub revert_dns_durably-IsSafe :
      (deadline : ℤ) → Keeps IsSafe (revert_dns_durably env name deadline)
  unfolding revert_dns_durably
  revert_dns_durably-IsSafe deadline =
      let read = starting read_blocked in
      search (read, Leaves-if, unchanged, changed, given_up, revert_is_unsafe-Keeps, keeps_rules)
        depth 12
