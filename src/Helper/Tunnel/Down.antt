-- ===== src/Helper/Tunnel/Down.antt =====
-- awg_helper_tunnel_down of amneziawg_helper_tunnel.c.
use network_manager_sidebar.Base.{Bool, true, false, not, ◌&&◌, Option, ◌==◌, if◌then◌else◌, Bytes}
use network_manager_sidebar.Names.Exit.{HelperExit, is_success}
use network_manager_sidebar.Journal.{RuntimeMarker, JournalState}
use network_manager_sidebar.Journal.Classify.{is_unconfirmed, is_complete, is_active}
use network_manager_sidebar.Deadline.{Deadlines}
use network_manager_sidebar.Dns.{DnsConfig}
use network_manager_sidebar.Helper.Environment.{Environment}
use network_manager_sidebar.Helper.State.{Action, pure, gets, modify, ◌>>=◌, ◌>>◌}
use network_manager_sidebar.Helper.Session.{
  set_journal, write_runtime_marker, runtime_state, refresh_owned_interface, phase_stop_status,
  phase_failure_or,
}
use network_manager_sidebar.Helper.Tunnel.{
  Teardown, is_ok, is_change_failed, is_absent_teardown, is_remains, is_conflict_teardown,
  is_unknown_teardown, is_journal_failed, is_not_started, set_state, block_dns_recovery, on_success,
}
use network_manager_sidebar.Helper.Tunnel.Dns.{revert_dns_durably}
use network_manager_sidebar.Helper.Tunnel.Cleanup.{
  set_cleanup_mode, include_current_firewall_scope, finalize_runtime_entries,
  verify_runtime_cleanup,
}
use network_manager_sidebar.Helper.Tunnel.Admit.{
  is_settled_journal, is_lost_resolver, runtime_files_agree,
}
use network_manager_sidebar.Helper.Tunnel.Interface.{
  teardown_owned_interface, abort_before_interface_teardown,
}

-- The failure of a teardown in tunnel_down.
unfoldable pub down_failure : Teardown → HelperExit
unfolding is_journal_failed is_unknown_teardown is_success
down_failure teardown =
    if is_journal_failed teardown.state
    then HelperExit.rollback_failed
    else if is_unknown_teardown teardown.state
    then HelperExit.runtime_failed
    else if not (is_success teardown.command_result)
    then teardown.command_result
    else HelperExit.runtime_failed

module _ {World : Type 0} (env : Environment World) where
  module _ (name config_name snapshot_path : Bytes) (deadlines : Deadlines) where
    unfoldable pub abort_down : Option DnsConfig → Bool → HelperExit → Action World HelperExit
    unfolding ◌>>=◌ abort_before_interface_teardown set_cleanup_mode
    abort_down dns began_active failure = do
      set_cleanup_mode env true
      result ←
          abort_before_interface_teardown env name dns began_active failure deadlines.cleanup_at
      set_cleanup_mode env false
      pure result

    -- Behind the revert of the resolver.
    unfoldable pub take_down : Option DnsConfig → Bool → Action World HelperExit
    unfolding abort_down teardown_owned_interface verify_runtime_cleanup is_absent_teardown
        is_conflict_teardown is_remains is_not_started down_failure
    take_down dns began_active = do
      teardown ←
          teardown_owned_interface env name snapshot_path JournalState.cleanup_required
            deadlines.forward_at
      if is_absent_teardown teardown.state
          then verify_runtime_cleanup env name config_name deadlines.forward_at
          else if is_conflict_teardown teardown.state
          then pure HelperExit.interface_conflict
          else if is_remains teardown.state && is_not_started teardown.execution
          then abort_down dns began_active (down_failure teardown)
          else pure (down_failure teardown)

    -- The resolver is given back first.
    unfoldable pub revert_and_take_down : Option DnsConfig → Bool → Action World HelperExit
    unfolding take_down set_state write_runtime_marker include_current_firewall_scope
        revert_dns_durably is_ok is_change_failed phase_failure_or
    revert_and_take_down dns began_active = do
      include_current_firewall_scope env deadlines.forward_at
      modify (set_state JournalState.cleanup_required)
      written ← write_runtime_marker env name
      if not written then pure HelperExit.runtime_failed else (do
        dns_result ← revert_dns_durably env name deadlines.forward_at
        blocked ← gets (λ s. s.dns_recovery_blocked)
        if blocked
            then pure HelperExit.runtime_failed
            else if is_ok dns_result
            then take_down dns began_active
            else (do
              failure ←
                  if is_change_failed dns_result
                  then phase_failure_or env deadlines.forward_at HelperExit.dns_revert_failed
                  else pure HelperExit.runtime_failed
              abort_down dns began_active failure))

    -- The files are tested before anything is changed.
    unfoldable pub down_checked : Action World HelperExit
    unfolding revert_and_take_down runtime_files_agree
    down_checked = do
      marker ← gets (λ s. s.journal)
      (dns, agree) ← runtime_files_agree env name config_name marker
      if not agree
          then pure HelperExit.runtime_failed
          else revert_and_take_down dns (is_active marker.state)

    -- A session without a recorded ifindex has its link looked up first.
    unfoldable pub down_identified : RuntimeMarker → Bool → Action World HelperExit
    unfolding down_checked refresh_owned_interface is_success
    down_identified marker interface =
        if interface && marker.ifindex == 0
        then (do
          (result, still_there) ← refresh_owned_interface env name
          if not (is_success result)
              then pure result
              else if not still_there
              then pure HelperExit.runtime_failed
              else down_checked)
        else down_checked

    -- A journal that is not settled.
    unfoldable pub down_marked : RuntimeMarker → Bool → Action World HelperExit
    unfolding down_identified is_lost_resolver block_dns_recovery set_state write_runtime_marker
    down_marked marker interface =
        if is_unconfirmed marker.state
        then pure HelperExit.runtime_failed
        else if is_lost_resolver marker
        then (do
          modify block_dns_recovery
          modify (set_state JournalState.cleanup_unconfirmed)
          write_runtime_marker env name
          pure HelperExit.runtime_failed)
        else down_identified marker interface

    -- A journal that is settled up to its files, or up to the firewall.
    unfoldable pub down_settled : RuntimeMarker → Bool → Action World HelperExit
    unfolding finalize_runtime_entries verify_runtime_cleanup
    down_settled marker interface =
        if interface
        then pure HelperExit.interface_conflict
        else if is_complete marker.state
        then finalize_runtime_entries env name config_name
        else verify_runtime_cleanup env name config_name deadlines.forward_at

    unfoldable pub tunnel_down : Action World HelperExit
    unfolding down_settled down_marked set_journal is_settled_journal on_success phase_stop_status
        runtime_state
    tunnel_down = on_success (phase_stop_status env deadlines.forward_at) (do
      runtime ← runtime_state env name
      if not (is_success runtime.status)
          then pure runtime.status
          else if not runtime.has_marker
          then pure
              (if runtime.has_interface then HelperExit.interface_conflict else HelperExit.success)
          else (do
            modify (set_journal runtime.marker)
            if is_settled_journal runtime.marker
                then down_settled runtime.marker runtime.has_interface
                else down_marked runtime.marker runtime.has_interface))
