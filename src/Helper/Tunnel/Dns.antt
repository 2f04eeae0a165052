-- ===== src/Helper/Tunnel/Dns.antt =====
-- The DNS transactions of amneziawg_helper_tunnel.c: a change of the resolver between two writes of
-- the journal.
use network_manager_sidebar.Base.{Bool, true, false, not, ◌||◌, Option, if◌then◌else◌, Bytes, ℤ}
use network_manager_sidebar.Journal.{RuntimeMarker, JournalState, DnsBackend, JournalDnsState}
use network_manager_sidebar.Journal.Classify.{is_absent}
use network_manager_sidebar.Journal.Marker.{is_backend_none, is_applied}
use network_manager_sidebar.Dns.{DnsConfig}
use network_manager_sidebar.Helper.Environment.{
  Environment, DnsChangeResult, DnsChangeOutcome, LinkIdentity,
}
use network_manager_sidebar.Helper.State.{
  Session, Action, Event, pure, gets, perform, modify, ◌>>=◌, ◌>>◌,
}
use network_manager_sidebar.Helper.Session.{
  write_runtime_marker, owned_link_state, is_unknown_link, is_conflict_link,
}
use network_manager_sidebar.Helper.Tunnel.{
  DnsTransaction, set_state, set_dns_state, block_dns_recovery,
}

unfoldable pub is_change_ok : DnsChangeResult → Bool
is_change_ok DnsChangeResult.ok = true
is_change_ok _ = false

unfoldable pub is_uncertain : DnsChangeResult → Bool
is_uncertain DnsChangeResult.uncertain = true
is_uncertain _ = false

unfoldable pub is_resolvconf : DnsBackend → Bool
is_resolvconf DnsBackend.resolvconf = true
is_resolvconf _ = false

-- The DNS state of the journal behind a change.
unfoldable pub settled_dns_state :
    JournalDnsState → JournalDnsState → DnsChangeOutcome → JournalDnsState
unfolding is_change_ok
settled_dns_state previous_state confirmed_state outcome =
    if is_change_ok outcome.result
    then confirmed_state
    else if not outcome.may_have_changed
    then previous_state
    else JournalDnsState.unknown

abbrev pub identity_of : Bytes → RuntimeMarker → LinkIdentity
identity_of name journal = record {
  name = name;
  link_token = journal.link_token;
  ifindex = journal.ifindex;
}

-- An uncertain change blocks the resolver for this tunnel, and leaves the cleanup unconfirmed.
unfoldable pub note_uncertain : DnsChangeOutcome → Session → Session
unfolding is_uncertain set_state block_dns_recovery
note_uncertain outcome s =
    if is_uncertain outcome.result
    then set_state JournalState.cleanup_unconfirmed (block_dns_recovery s)
    else s

unfoldable pub settle_dns_change :
    JournalDnsState → JournalDnsState → DnsChangeOutcome → Session → Session
unfolding note_uncertain settled_dns_state set_dns_state
settle_dns_change previous_state confirmed_state outcome s =
    note_uncertain outcome
      (set_dns_state (settled_dns_state previous_state confirmed_state outcome) s)

module _ {World : Type 0} (env : Environment World) (name : Bytes) where
  unfoldable pub complete_dns_change :
      JournalDnsState → JournalDnsState → DnsChangeOutcome → Action World DnsTransaction
  unfolding ◌>>=◌ write_runtime_marker is_change_ok is_uncertain settle_dns_change
  complete_dns_change previous_state confirmed_state outcome = do
    modify (settle_dns_change previous_state confirmed_state outcome)
    written ← write_runtime_marker env name
    pure (
        if not written
        then DnsTransaction.journal_failed
        else if is_uncertain outcome.result
        then DnsTransaction.uncertain
        else if is_change_ok outcome.result
        then DnsTransaction.ok
        else DnsTransaction.change_failed)

  unfoldable pub mark_dns_unknown : Action World Bool
  unfolding ◌>>=◌ write_runtime_marker set_dns_state
  mark_dns_unknown = do
    modify (set_dns_state JournalDnsState.unknown)
    write_runtime_marker env name

  -- The journal says that the state is unknown before the resolver is touched.
  unfoldable pub change_durably :
      (World → DnsChangeOutcome × World)
      → JournalDnsState
      → JournalDnsState
      → Action World DnsTransaction
  unfolding complete_dns_change mark_dns_unknown
  change_durably change previous_state confirmed_state = do
    written ← mark_dns_unknown
    if not written
        then (do modify (set_dns_state previous_state); pure DnsTransaction.journal_failed)
        else (do
          outcome ← perform Event.dns_changed change
          complete_dns_change previous_state confirmed_state outcome)

  unfoldable pub apply_dns_durably : Option DnsConfig → ℤ → Action World DnsTransaction
  unfolding change_durably
  apply_dns_durably dns deadline = do
    blocked ← gets (λ s. s.dns_recovery_blocked)
    journal ← gets (λ s. s.journal)
    if blocked
        then pure DnsTransaction.uncertain
        else if is_backend_none journal.dns_backend
        then pure (
            if is_absent journal.dns_state
            then DnsTransaction.ok
            else DnsTransaction.journal_failed)
        else if is_applied journal.dns_state
        then pure DnsTransaction.ok
        else change_durably
            (env.apply_selected (identity_of name journal) dns journal.dns_backend deadline)
            journal.dns_state JournalDnsState.applied

  -- The link of a resolvconf entry, where it decides.
  unfoldable pub revert_is_unsafe : RuntimeMarker → Action World Bool
  unfolding ◌>>=◌ owned_link_state is_unknown_link is_conflict_link is_resolvconf
  revert_is_unsafe journal =
      if is_resolvconf journal.dns_backend
      then (do
        state ← owned_link_state env name journal
        pure (is_unknown_link state || is_conflict_link state))
      else pure false

  unfoldable pub revert_dns_durably : ℤ → Action World DnsTransaction
  unfolding change_durably revert_is_unsafe
  revert_dns_durably deadline = do
    blocked ← gets (λ s. s.dns_recovery_blocked)
    journal ← gets (λ s. s.journal)
    if blocked
        then pure DnsTransaction.uncertain
        else if is_absent journal.dns_state
        then pure DnsTransaction.ok
        else (do
          unsafe ← revert_is_unsafe journal
          if unsafe
              then complete_dns_change journal.dns_state journal.dns_state
                  (record { result = DnsChangeResult.uncertain; may_have_changed = false })
              else change_durably
                  (env.revert_selected (identity_of name journal) journal.dns_backend deadline)
                  journal.dns_state JournalDnsState.absent)
