-- ===== src/Helper/Tunnel/Rollback.antt =====
-- rollback_activation of amneziawg_helper_tunnel.c: a failed activation is taken back.
use network_manager_sidebar.Base.{true, false, not, ◌&&◌, none, if◌then◌else◌, Bytes, ℤ}
use network_manager_sidebar.Names.Exit.{HelperExit, is_success}
use network_manager_sidebar.Journal.{JournalState}
use network_manager_sidebar.Helper.Environment.{Environment}
use network_manager_sidebar.Helper.State.{Action, pure, gets, modify, ◌>>=◌, ◌>>◌}
use network_manager_sidebar.Helper.Session.{write_runtime_marker, refresh_owned_interface}
use network_manager_sidebar.Helper.Tunnel.{
  DnsTransaction, Teardown, is_ok, is_absent_teardown, is_remains, is_conflict_teardown,
  is_unknown_teardown, is_journal_failed, is_not_started, set_state,
}
use network_manager_sidebar.Helper.Tunnel.Dns.{revert_dns_durably}
use network_manager_sidebar.Helper.Tunnel.Cleanup.{set_cleanup_mode, verify_runtime_cleanup}
use network_manager_sidebar.Helper.Tunnel.Interface.{
  teardown_owned_interface, abort_before_interface_teardown,
}

-- The failure of a teardown that did not leave the interface absent.
unfoldable pub cleanup_failure : Teardown → DnsTransaction → HelperExit
unfolding is_journal_failed is_unknown_teardown is_success is_ok
cleanup_failure teardown dns_result =
    if is_journal_failed teardown.state
    then HelperExit.rollback_failed
    else if is_unknown_teardown teardown.state
    then HelperExit.runtime_failed
    else if not (is_success teardown.command_result)
    then teardown.command_result
    else if not (is_ok dns_result)
    then HelperExit.dns_rollback_failed
    else HelperExit.rollback_failed

module _ {World : Type 0} (env : Environment World) (name config_name snapshot_path : Bytes) where
  -- Behind the teardown.
  unfoldable pub rollback_torn_down :
      Teardown → DnsTransaction → HelperExit → ℤ → Action World HelperExit
  unfolding ◌>>=◌ is_absent_teardown is_ok verify_runtime_cleanup is_success is_conflict_teardown
      cleanup_failure is_remains is_not_started abort_before_interface_teardown
  rollback_torn_down teardown dns_result failure cleanup_deadline =
      if is_absent_teardown teardown.state
      then (if not (is_ok dns_result) then pure HelperExit.dns_rollback_failed else (do
        removed ← verify_runtime_cleanup env name config_name cleanup_deadline
        pure (if is_success removed then failure else removed)))
      else if is_conflict_teardown teardown.state
      then pure HelperExit.interface_conflict
      else if is_remains teardown.state && is_not_started teardown.execution
      then abort_before_interface_teardown env name none false (cleanup_failure teardown dns_result)
          cleanup_deadline
      else pure (cleanup_failure teardown dns_result)

  unfoldable pub rollback_activation_impl : HelperExit → ℤ → Action World HelperExit
  unfolding set_state write_runtime_marker refresh_owned_interface revert_dns_durably
      teardown_owned_interface rollback_torn_down
  rollback_activation_impl failure cleanup_deadline = do
    blocked ← gets (λ s. s.dns_recovery_blocked)
    if blocked then pure failure else (do
      modify (set_state JournalState.cleanup_required)
      written ← write_runtime_marker env name
      if not written then pure HelperExit.rollback_failed else (do
        (identity_result, _) ← refresh_owned_interface env name
        if not (is_success identity_result)
            then (do
              modify (set_state JournalState.cleanup_unconfirmed)
              write_runtime_marker env name
              pure identity_result)
            else (do
              dns_result ← revert_dns_durably env name cleanup_deadline
              still_blocked ← gets (λ s. s.dns_recovery_blocked)
              if still_blocked then pure HelperExit.runtime_failed else (do
                teardown ←
                    teardown_owned_interface env name snapshot_path JournalState.cleanup_required
                      cleanup_deadline
                rollback_torn_down teardown dns_result failure cleanup_deadline))))

  unfoldable pub rollback_activation : HelperExit → ℤ → Action World HelperExit
  unfolding rollback_activation_impl set_cleanup_mode
  rollback_activation failure cleanup_deadline = do
    set_cleanup_mode env true
    result ← rollback_activation_impl failure cleanup_deadline
    set_cleanup_mode env false
    pure result
