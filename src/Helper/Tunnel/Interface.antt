-- ===== src/Helper/Tunnel/Interface.antt =====
-- teardown_owned_interface and abort_before_interface_teardown of amneziawg_helper_tunnel.c.
use network_manager_sidebar.Base.{
  Bool, true, false, not, ◌&&◌, Option, if◌then◌else◌, Bytes, codes, ℤ,
}
use network_manager_sidebar.Names.Exit.{HelperExit, is_success}
use network_manager_sidebar.Journal.{JournalState}
use network_manager_sidebar.Dns.{DnsConfig}
use network_manager_sidebar.Helper.Environment.{Environment, QuickExecution, QuickResult}
use network_manager_sidebar.Helper.State.{Action, Event, pure, gets, perform, modify, ◌>>=◌, ◌>>◌}
use network_manager_sidebar.Helper.Session.{
  write_runtime_marker, owned_link_state, refresh_owned_interface, phase_stop_status,
  is_absent_link, is_present_link, is_conflict_link, is_unknown_link,
}
use network_manager_sidebar.Helper.Tunnel.{Teardown, TeardownState, is_ok, set_state}
use network_manager_sidebar.Helper.Tunnel.Dns.{apply_dns_durably}

unfoldable pub is_conflict_exit : HelperExit → Bool
is_conflict_exit HelperExit.interface_conflict = true
is_conflict_exit _ = false

-- A teardown in which awg-quick was not started.
unfoldable pub teardown_in : TeardownState → Teardown
teardown_in state = record {
  state = state;
  command_result = HelperExit.success;
  execution = QuickExecution.not_started;
}

unfoldable pub after_down : TeardownState → QuickResult → Teardown
after_down state quick = record {
  state = state;
  command_result = quick.status;
  execution = quick.execution;
}

-- The answer where a restored session fails; `began_active` tells which rollback it was.
unfoldable pub rollback_failure : Bool → HelperExit
rollback_failure began_active =
    if began_active then HelperExit.dns_rollback_failed else HelperExit.rollback_failed

module _ {World : Type 0} (env : Environment World) (name : Bytes) where
  module _ (snapshot_path : Bytes) where
    -- Behind the write of the unconfirmed state: awg-quick down, and what it left.
    unfoldable pub run_down : JournalState → ℤ → Action World Teardown
    unfolding ◌>>=◌ owned_link_state is_absent_link is_present_link is_conflict_link is_success
        set_state write_runtime_marker after_down
    run_down absent_state deadline = do
      quick ← perform Event.ran_down (env.quick_run (codes "down") snapshot_path deadline)
      journal ← gets (λ s. s.journal)
      interface_state ← owned_link_state env name journal
      if is_absent_link interface_state && is_success quick.status
          then (do
            modify (set_state absent_state)
            written ← write_runtime_marker env name
            pure (
                after_down (if written then TeardownState.absent else TeardownState.journal_failed)
                  quick))
          else if is_present_link interface_state
          then pure (after_down TeardownState.remains quick)
          else if is_conflict_link interface_state
          then pure (after_down TeardownState.conflict quick)
          else pure (after_down TeardownState.unknown quick)

    unfoldable pub teardown_owned_interface : JournalState → ℤ → Action World Teardown
    unfolding refresh_owned_interface is_conflict_exit teardown_in run_down
    teardown_owned_interface absent_state deadline = do
      (identity_result, interface_exists) ← refresh_owned_interface env name
      if is_conflict_exit identity_result
          then pure (teardown_in TeardownState.conflict)
          else if not (is_success identity_result)
          then pure (teardown_in TeardownState.unknown)
          else (do
            modify (set_state JournalState.cleanup_unconfirmed)
            written ← write_runtime_marker env name
            if not written
                then pure (teardown_in TeardownState.journal_failed)
                else if not interface_exists
                then pure (teardown_in TeardownState.unknown)
                else run_down absent_state deadline)

  -- An active session gets its resolver back, and only then its state.
  unfoldable pub restore_active : Option DnsConfig → HelperExit → ℤ → Action World HelperExit
  unfolding apply_dns_durably is_ok set_state write_runtime_marker
  restore_active dns failure deadline = do
    dns_result ← apply_dns_durably env name dns deadline
    if not (is_ok dns_result) then pure HelperExit.dns_rollback_failed else (do
      modify (set_state JournalState.active)
      written ← write_runtime_marker env name
      pure (if written then failure else HelperExit.dns_rollback_failed))

  unfoldable pub abort_before_interface_teardown :
      Option DnsConfig → Bool → HelperExit → ℤ → Action World HelperExit
  unfolding owned_link_state is_conflict_link is_unknown_link is_absent_link phase_stop_status
      is_success rollback_failure restore_active
  abort_before_interface_teardown dns began_active failure deadline = do
    blocked ← gets (λ s. s.dns_recovery_blocked)
    if blocked then pure failure else (do
      journal ← gets (λ s. s.journal)
      interface_state ← owned_link_state env name journal
      if is_conflict_link interface_state
          then (do
            modify (set_state JournalState.cleanup_unconfirmed)
            write_runtime_marker env name
            pure HelperExit.interface_conflict)
          else if is_unknown_link interface_state
          then pure HelperExit.runtime_failed
          else if is_absent_link interface_state
          then pure failure
          else (do
            stop ← phase_stop_status env deadline
            if not (is_success stop) then pure (rollback_failure began_active) else (do
              modify (set_state JournalState.cleanup_required)
              written ← write_runtime_marker env name
              if not written
                  then pure (rollback_failure began_active)
                  else if not began_active
                  then pure failure
                  else restore_active dns failure deadline)))
