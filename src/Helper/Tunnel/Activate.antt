-- ===== src/Helper/Tunnel/Activate.antt =====
-- awg_helper_tunnel_activate of amneziawg_helper_tunnel.c.
use network_manager_sidebar.Base.{
  Bool, true, false, not, ◌&&◌, ◌||◌, Option, none, some, if◌then◌else◌, Bytes, codes,
}
use network_manager_sidebar.Names.Exit.{HelperExit, is_success}
use network_manager_sidebar.Journal.{JournalState}
use network_manager_sidebar.Deadline.{Deadlines}
use network_manager_sidebar.Helper.Environment.{Environment, StorageArea, QuickResult}
use network_manager_sidebar.Helper.State.{
  Session, Action, Event, pure, observe, perform, modify, ◌>>=◌, ◌>>◌,
}
use network_manager_sidebar.Helper.Session.{
  set_journal, write_runtime_marker, runtime_state, refresh_owned_interface, phase_stop_status,
  phase_failure_or,
}
use network_manager_sidebar.Helper.Tunnel.{
  is_ok, is_change_failed, is_not_started, set_state, set_was_active, make_dns_filename, is_made,
  text_in,
}
use network_manager_sidebar.Helper.Tunnel.Dns.{apply_dns_durably}
use network_manager_sidebar.Helper.Tunnel.Cleanup.{
  discard_unstarted_runtime, include_current_firewall_scope, try_finalize_early_up_failure,
}
use network_manager_sidebar.Helper.Tunnel.Rollback.{rollback_activation}
use network_manager_sidebar.Helper.Tunnel.Prepare.{Activation, occupied}

-- The journal of a session that is up, and of one whose last write failed.
unfoldable pub set_active : Session → Session
unfolding set_state set_was_active
set_active s = set_was_active true (set_state JournalState.active s)

unfoldable pub unset_active : Session → Session
unfolding set_state set_was_active
unset_active s = set_was_active false (set_state JournalState.activating s)

-- What a failed check is called, where the call itself succeeded.
unfoldable pub or_runtime_failed : HelperExit → HelperExit
unfolding is_success
or_runtime_failed result = if is_success result then HelperExit.runtime_failed else result

abbrev pub final_result : Option HelperExit → HelperExit → HelperExit
final_result none result = result
final_result (some final) result = final

abbrev pub is_final : Option HelperExit → Bool
is_final none = false
is_final (some _) = true

module _ {World : Type 0} (env : Environment World) (activation : Activation)
    (deadlines : Deadlines) where
  unfoldable pub atomic_write : Bytes → Bytes → Action World Bool
  atomic_write file contents =
      perform (Event.wrote_file StorageArea.runtime_configs file)
        (env.atomic_write StorageArea.runtime_configs file contents)

  -- The tunnel is taken back with the failure.
  unfoldable pub roll_back : HelperExit → Action World HelperExit
  unfolding rollback_activation
  roll_back failure =
      rollback_activation env activation.name activation.config_name activation.snapshot_path
        failure deadlines.cleanup_at

  -- The next step, unless the operation has to stop.
  unfoldable pub unless_stopped : Action World HelperExit → Action World HelperExit
  unfolding ◌>>=◌ roll_back phase_stop_status is_success
  unless_stopped next = do
    result ← phase_stop_status env deadlines.forward_at
    if is_success result then next else roll_back result

  -- The last test of the session.
  unfoldable pub confirm_session : Action World HelperExit
  unfolding roll_back runtime_state is_success or_runtime_failed
  confirm_session = do
    runtime ← runtime_state env activation.name
    if not (is_success runtime.status) || not runtime.has_marker || not runtime.has_interface
        then roll_back (or_runtime_failed runtime.status)
        else pure runtime.status

  unfoldable pub commit_active : Action World HelperExit
  unfolding confirm_session unless_stopped set_active unset_active write_runtime_marker
  commit_active = do
    modify set_active
    written ← write_runtime_marker env activation.name
    if written
        then unless_stopped confirm_session
        else (do modify unset_active; roll_back HelperExit.runtime_failed)

  unfoldable pub apply_resolver : Action World HelperExit
  unfolding commit_active apply_dns_durably is_ok is_change_failed phase_failure_or
  apply_resolver = do
    dns_result ←
        apply_dns_durably env activation.name (some activation.profile.dns) deadlines.forward_at
    if is_ok dns_result then unless_stopped commit_active else (do
      dns_failure ←
          if is_change_failed dns_result
          then phase_failure_or env deadlines.forward_at HelperExit.dns_apply_failed
          else pure HelperExit.runtime_failed
      roll_back dns_failure)

  unfoldable pub adopt_interface : Action World HelperExit
  unfolding apply_resolver refresh_owned_interface
  adopt_interface = do
    (result, interface) ← refresh_owned_interface env activation.name
    if not (is_success result) || not interface
        then roll_back (or_runtime_failed result)
        else unless_stopped (unless_stopped apply_resolver)

  -- The tunnel was started: what follows, with the last stop test in front of the exit.
  unfoldable pub finish_started : Action World HelperExit
  unfolding adopt_interface
  finish_started = do
    result ← unless_stopped adopt_interface
    if is_success result
        then (do
          stop ← phase_stop_status env deadlines.forward_at
          if is_success stop then pure result else roll_back stop)
        else pure result

  -- A failed up, behind the write of its firewall scope.
  unfoldable pub finish_failed : QuickResult → HelperExit → Action World HelperExit
  unfolding ◌>>=◌ try_finalize_early_up_failure roll_back
  finish_failed quick result = do
    final ←
        try_finalize_early_up_failure env activation.name activation.config_name quick
          deadlines.cleanup_at result
    if is_final final then pure (final_result final result) else roll_back result

  unfoldable pub discard_unstarted : Action World HelperExit
  unfolding discard_unstarted_runtime
  discard_unstarted =
      discard_unstarted_runtime env activation.name activation.config_name deadlines.cleanup_at

  -- awg-quick up, and what its result calls for.
  unfoldable pub run_up : Action World HelperExit
  unfolding finish_started finish_failed discard_unstarted include_current_firewall_scope
      is_not_started
  run_up = do
    quick ←
        perform Event.ran_up
          (env.quick_run (codes "up") activation.snapshot_path deadlines.forward_at)
    if not (is_success quick.status) && is_not_started quick.execution
        then (do
          cleanup ← discard_unstarted
          pure (if is_success cleanup then quick.status else cleanup))
        else (do
          include_current_firewall_scope env deadlines.forward_at
          written ← write_runtime_marker env activation.name
          let result = if written then quick.status else HelperExit.runtime_failed
          if is_success result then finish_started else finish_failed quick result)

  -- The three writes; the next one only behind a successful one.
  unfoldable pub write_entries : Bytes → Action World Bool
  unfolding ◌>>=◌ atomic_write write_runtime_marker
  write_entries dns_name = do
    config_written ← atomic_write activation.config_name activation.profile.runtime_snapshot
    if not config_written then pure false else (do
      dns_written ← atomic_write dns_name activation.profile.dns_payload
      if not dns_written then pure false else write_runtime_marker env activation.name)

  unfoldable pub start_tunnel : Bytes → Action World HelperExit
  unfolding run_up write_entries
  start_tunnel dns_name = do
    written ← write_entries dns_name
    if written then run_up else (do
      cleanup ← discard_unstarted
      pure (if is_success cleanup then HelperExit.runtime_failed else HelperExit.rollback_failed))

  -- The processes that up left behind are released, or ended.
  unfoldable pub settle_processes : HelperExit → Action World HelperExit
  unfolding ◌>>=◌ roll_back phase_stop_status
  settle_processes result =
      if is_success result
      then (do
        released ← observe (env.release_retained_group deadlines.forward_at deadlines.cleanup_at)
        if released then pure result else (do
          stop ← phase_stop_status env deadlines.forward_at
          rolled_back ← roll_back (if is_success stop then HelperExit.child_signaled else stop)
          terminated ← observe (env.terminate_retained_group deadlines.cleanup_at)
          pure (if terminated then rolled_back else HelperExit.rollback_failed)))
      else (do
        terminated ← observe (env.terminate_retained_group deadlines.cleanup_at)
        pure (if terminated then result else HelperExit.rollback_failed))

  unfoldable pub activate_fresh : Action World HelperExit
  unfolding start_tunnel settle_processes occupied make_dns_filename set_journal
  activate_fresh = do
    modify (set_journal activation.journal)
    result ← phase_stop_status env deadlines.forward_at
    if not (is_success result) then pure result else (do
      runtime ← runtime_state env activation.name
      if not (is_success runtime.status)
          then pure runtime.status
          else if runtime.has_marker || runtime.has_interface
          then pure (occupied runtime)
          else if not (is_made (make_dns_filename activation.name))
          then pure HelperExit.runtime_failed
          else (do
            started ← start_tunnel (text_in (make_dns_filename activation.name))
            settle_processes started))

module _ {World : Type 0} (env : Environment World) where
  -- The result, and the activation with its mark; NULL is `none`.
  unfoldable pub tunnel_activate :
      Option Activation → Deadlines → Action World (HelperExit × Option Activation)
  unfolding activate_fresh
  tunnel_activate none deadlines = pure (HelperExit.usage, none)
  tunnel_activate (some activation) deadlines =
      if activation.consumed then pure (HelperExit.usage, some activation) else (do
        result ← activate_fresh env activation deadlines
        pure (result, some (record activation { consumed = true })))
