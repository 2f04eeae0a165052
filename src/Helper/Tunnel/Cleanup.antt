-- ===== src/Helper/Tunnel/Cleanup.antt =====
-- amneziawg_helper_tunnel.c: the runtime entries of a session are verified and removed.
use network_manager_sidebar.Base.{
  zero, suc, ℕ, ◌+◌, ◌*◌, ◌/◌, ◌%◌, Bool, true, false, not, ◌&&◌, ◌||◌, Option, none, some, ◌==◌,
  if◌then◌else◌, Bytes, ℤ,
}
use network_manager_sidebar.Names.Exit.{HelperExit, is_success}
use network_manager_sidebar.Journal.{JournalState, JournalDnsState}
use network_manager_sidebar.Journal.Classify.{is_absent, is_complete, is_firewall_pending}
use network_manager_sidebar.Dns.{DnsConfig}
use network_manager_sidebar.Dns.Payload.{parse}
use network_manager_sidebar.Helper.Environment.{
  Environment, StorageArea, FirewallState, QuickResult,
}
use network_manager_sidebar.Helper.State.{
  Session, Action, Event, pure, gets, observe, perform, modify, ◌>>=◌, ◌>>◌,
}
use network_manager_sidebar.Helper.Session.{
  write_runtime_marker, owned_link_state, phase_stop_status, is_absent_link, is_unknown_link,
}
use network_manager_sidebar.Helper.Tunnel.{
  is_activating, is_cleanup_required, set_state, set_dns_state, set_was_active, set_firewall_scope,
  make_dns_filename, text_in, is_made, on_success,
}

unfoldable pub is_firewall_absent : FirewallState → Bool
is_firewall_absent FirewallState.absent = true
is_firewall_absent _ = false

abbrev bit_or : ℕ → ℕ → ℕ
bit_or a b = if a % 2 == 0 && b % 2 == 0 then 0 else 1

-- `a | b` on the low `bits` bits.
unfoldable low_bits_or : ℕ → ℕ → ℕ → ℕ
low_bits_or zero a b = 0
low_bits_or (suc bits) a b = bit_or a b + 2 * low_bits_or bits (a / 2) (b / 2)

-- `a | b` on two guints.
unfoldable pub scope_or : ℕ → ℕ → ℕ
unfolding low_bits_or
scope_or a b = low_bits_or 32 a b

-- The guard of finalize_runtime_entries.
unfoldable pub may_finalize : Session → Bool
may_finalize s = not (
    s.dns_recovery_blocked
    || not (is_complete s.journal.state)
    || not (is_absent s.journal.dns_state)
    || s.journal.was_active)

-- The guard of verify_runtime_cleanup.
unfoldable pub may_verify : Session → Bool
unfolding is_cleanup_required
may_verify s = not (
    s.dns_recovery_blocked
    || not (is_absent s.journal.dns_state)
    || (not (is_cleanup_required s.journal.state) && not (is_firewall_pending s.journal.state)))

-- The journal of a session whose up could not run.
unfoldable pub settle_unstarted : Session → Session
unfolding set_state set_dns_state set_was_active set_firewall_scope
settle_unstarted s = set_firewall_scope 0 (
    set_was_active false
      (set_dns_state JournalDnsState.absent (set_state JournalState.cleanup_complete s)))

unfoldable pub settle_link : Session → Session
unfolding set_state set_was_active
settle_link s = set_was_active false (set_state JournalState.firewall_pending s)

-- The part of the guard of try_finalize_early_up_failure before the link is observed.
unfoldable pub is_early_failure : QuickResult → Session → Bool
unfolding is_success is_activating
is_early_failure quick s =
    quick.failed_before_routes
    && not (is_success quick.status)
    && not s.dns_recovery_blocked
    && is_activating s.journal.state
    && not s.journal.was_active
    && s.journal.ifindex == 0
    && is_absent s.journal.dns_state

module _ {World : Type 0} (env : Environment World) where
  unfoldable pub set_cleanup_mode : Bool → Action World (Unit {0})
  set_cleanup_mode active = observe (λ w. (tt, env.set_cleanup_mode active w))

  unfoldable pub remove_and_sync : StorageArea → Bytes → Action World Bool
  remove_and_sync area name = perform (Event.removed area name) (env.remove_and_sync area name)

  unfoldable pub load_runtime_dns : Bytes → Action World (Option DnsConfig)
  unfolding ◌>>=◌ make_dns_filename
  load_runtime_dns name = if not (is_made (make_dns_filename name)) then pure none else (do
    contents ←
        observe
          (env.read_secure_file StorageArea.runtime_configs (text_in (make_dns_filename name)))
    if is_made contents then pure (parse (text_in contents)) else pure none)

  unfoldable pub include_current_firewall_scope : ℤ → Action World (Unit {0})
  unfolding ◌>>=◌ set_firewall_scope
  include_current_firewall_scope deadline = do
    (_, scope) ← observe (env.capture_scope deadline)
    modify (λ s. set_firewall_scope (scope_or s.journal.firewall_scope scope) s)

  module _ (name config_name : Bytes) where
    -- Both runtime configurations go before the journal.
    unfoldable pub remove_entries : Bytes → Action World HelperExit
    unfolding ◌>>=◌ remove_and_sync
    remove_entries dns_name = do
      config_removed ← remove_and_sync StorageArea.runtime_configs config_name
      if not config_removed then pure HelperExit.runtime_failed else (do
        dns_removed ← remove_and_sync StorageArea.runtime_configs dns_name
        if not dns_removed then pure HelperExit.runtime_failed else (do
          removed ← remove_and_sync StorageArea.runtime name
          pure (if removed then HelperExit.success else HelperExit.runtime_failed)))

    unfoldable pub finalize_runtime_entries : Action World HelperExit
    unfolding may_finalize write_runtime_marker make_dns_filename remove_entries
    finalize_runtime_entries = do
      allowed ← gets may_finalize
      if not allowed then pure HelperExit.runtime_failed else (do
        written ← write_runtime_marker env name
        if not written || not (is_made (make_dns_filename name))
            then pure HelperExit.runtime_failed
            else remove_entries (text_in (make_dns_filename name)))

    unfoldable pub discard_unstarted_runtime : ℤ → Action World HelperExit
    unfolding phase_stop_status settle_unstarted finalize_runtime_entries on_success
        set_cleanup_mode
    discard_unstarted_runtime cleanup_deadline = do
      set_cleanup_mode true
      result ←
          on_success (phase_stop_status env cleanup_deadline)
            (do modify settle_unstarted; finalize_runtime_entries)
      set_cleanup_mode false
      pure result

    -- The session has no link any more; otherwise the failure of that.
    unfoldable pub check_link_absent : Action World HelperExit
    unfolding ◌>>=◌ owned_link_state is_absent_link is_unknown_link
    check_link_absent = do
      journal ← gets (λ s. s.journal)
      link ← owned_link_state env name journal
      pure (
          if is_absent_link link
          then HelperExit.success
          else if is_unknown_link link
          then HelperExit.runtime_failed
          else HelperExit.interface_conflict)

    -- The rest of verify_runtime_cleanup, behind the write of the pending state.
    unfoldable pub verify_firewall : ℤ → Action World HelperExit
    unfolding phase_stop_status set_state finalize_runtime_entries on_success check_link_absent
        is_firewall_absent
    verify_firewall deadline = do
      scope ← gets (λ s. s.journal.firewall_scope)
      firewall ← observe (env.probe name scope deadline)
      if not (is_firewall_absent firewall)
          then pure HelperExit.firewall_cleanup_failed
          else on_success check_link_absent (do
            stop ← phase_stop_status env deadline
            if not (is_success stop) then pure HelperExit.firewall_cleanup_failed else (do
              modify (set_state JournalState.cleanup_complete)
              finalize_runtime_entries))

    unfoldable pub verify_runtime_cleanup : ℤ → Action World HelperExit
    unfolding may_verify settle_link write_runtime_marker verify_firewall
    verify_runtime_cleanup deadline = do
      allowed ← gets may_verify
      if not allowed
          then pure HelperExit.runtime_failed
          else on_success check_link_absent (do
            modify settle_link
            written ← write_runtime_marker env name
            if not written then pure HelperExit.runtime_failed else verify_firewall deadline)

    -- `none` where there is no evidence (FALSE), and the final result where there is.
    unfoldable pub try_finalize_early_up_failure :
        QuickResult → ℤ → HelperExit → Action World (Option HelperExit)
    unfolding is_early_failure verify_runtime_cleanup set_cleanup_mode
    try_finalize_early_up_failure quick cleanup_deadline result = do
      early ← gets (is_early_failure quick)
      if not early then pure none else (do
        journal ← gets (λ s. s.journal)
        link ← owned_link_state env name journal
        if not (is_absent_link link) then pure none else (do
          set_cleanup_mode true
          modify (set_state JournalState.cleanup_required)
          cleanup ← verify_runtime_cleanup cleanup_deadline
          set_cleanup_mode false
          pure (some (if is_success cleanup then result else cleanup))))
