-- ===== src/Helper/Switch.antt =====
-- amneziawg_helper_switch.c: up, with every other session taken down first.
use network_manager_sidebar.Base.{
  Bool, false, not, ◌||◌, Option, some, List, [], ◌∷◌, if◌then◌else◌, Bytes,
}
use network_manager_sidebar.Names.{name_is_valid}
use network_manager_sidebar.Names.Exit.{HelperExit, is_success}
use network_manager_sidebar.Deadline.{Deadlines}
use network_manager_sidebar.Helper.Environment.{Environment}
use network_manager_sidebar.Helper.State.{Session, Action, pure, gets, observe, modify, ◌>>=◌, ◌>>◌}
use network_manager_sidebar.Helper.Session.{runtime_state, phase_stop_status}
use network_manager_sidebar.Helper.Tunnel.{
  make_config_filename, make_runtime_config_path, is_made, text_in, on_success,
}
use network_manager_sidebar.Helper.Tunnel.Prepare.{Activation, tunnel_prepare_up}
use network_manager_sidebar.Helper.Tunnel.Activate.{tunnel_activate}
use network_manager_sidebar.Helper.Tunnel.Admit.{tunnel_check_down}
use network_manager_sidebar.Helper.Tunnel.Down.{tunnel_down}

unfoldable pub previous_session_failure : HelperExit → HelperExit
previous_session_failure HelperExit.timed_out = HelperExit.timed_out
previous_session_failure HelperExit.child_signaled = HelperExit.child_signaled
previous_session_failure _ = HelperExit.switch_cleanup_failed

unfoldable pub set_blocked : Bool → Session → Session
set_blocked blocked s = record s { dns_recovery_blocked = blocked }

module _ {World : Type 0} (env : Environment World) where
  -- tunnel_new, an operation on the new tunnel, and tunnel_free: the flag of the tunnel around it
  -- is its own.
  unfoldable pub with_new_tunnel : Action World HelperExit → Action World HelperExit
  unfolding ◌>>=◌ set_blocked
  with_new_tunnel operation = do
    blocked ← gets (λ s. s.dns_recovery_blocked)
    modify (set_blocked false)
    result ← operation
    modify (set_blocked blocked)
    pure result

  -- Nothing is left of the session.
  unfoldable pub confirm_down : Bytes → Action World HelperExit
  unfolding ◌>>=◌ runtime_state
  confirm_down name = do
    runtime ← runtime_state env name
    pure (
        if not (is_success runtime.status)
        then runtime.status
        else if runtime.has_marker || runtime.has_interface
        then HelperExit.runtime_failed
        else HelperExit.success)

  module _ (deadlines : Deadlines) where
    unfoldable pub disconnect_previous : Bytes → Action World HelperExit
    unfolding on_success phase_stop_status with_new_tunnel tunnel_down confirm_down
        make_config_filename make_runtime_config_path
    disconnect_previous name = on_success (phase_stop_status env deadlines.forward_at) (
        if not (is_made (make_config_filename name))
          || not (is_made (make_runtime_config_path name))
        then pure HelperExit.invalid_name
        else on_success
            (with_new_tunnel (
              tunnel_down env name (text_in (make_config_filename name))
                (text_in (make_runtime_config_path name)) deadlines))
            (on_success (phase_stop_status env deadlines.forward_at) (confirm_down name)))

    -- The two loops over the previous sessions: they end at the first failure.
    unfoldable pub admit_previous : List Bytes → Action World HelperExit
    unfolding on_success tunnel_check_down
    admit_previous [] = pure HelperExit.success
    admit_previous (name ∷ rest) =
        on_success (tunnel_check_down env name deadlines.forward_at) (admit_previous rest)

    unfoldable pub disconnect_all : List Bytes → Action World HelperExit
    unfolding on_success disconnect_previous
    disconnect_all [] = pure HelperExit.success
    disconnect_all (name ∷ rest) = on_success (disconnect_previous name) (disconnect_all rest)

    -- No journal is left.
    unfoldable pub check_none_remaining : Action World HelperExit
    unfolding ◌>>=◌
    check_none_remaining = do
      (result, remaining) ← observe (env.list_runtime_names deadlines.forward_at)
      pure (
          if not (is_success result)
          then result
          else elim remaining [ [] ↦ HelperExit.success | _ ∷ _ ↦ HelperExit.runtime_failed ])

    unfoldable pub activate_target : Option Activation → Action World HelperExit
    unfolding ◌>>=◌ tunnel_activate
    activate_target activation = do
      (result, _) ← tunnel_activate env activation deadlines
      pure result

    -- Behind `previous_failed`, or on to the activation.
    unfoldable pub switch_prepared : List Bytes → Option Activation → Action World HelperExit
    unfolding on_success admit_previous disconnect_all check_none_remaining activate_target
        phase_stop_status previous_session_failure
    switch_prepared previous activation = do
      result ←
          on_success (admit_previous previous)
            (on_success (disconnect_all previous) check_none_remaining)
      if not (is_success result)
          then pure (previous_session_failure result)
          else on_success (phase_stop_status env deadlines.forward_at) (activate_target activation)

    unfoldable pub switch_up : Bytes → Action World HelperExit
    unfolding switch_prepared tunnel_prepare_up
    switch_up name = if not (name_is_valid (some name)) then pure HelperExit.invalid_name else (do
      (listed, previous) ← observe (env.list_runtime_names deadlines.forward_at)
      if not (is_success listed) then pure (previous_session_failure listed) else (do
        modify (set_blocked false)
        (result, activation) ← tunnel_prepare_up env name deadlines.forward_at
        if not (is_success result) then pure result else switch_prepared previous activation))
