-- ===== src/Helper/Outcomes/Commit.antt =====
-- The steps of an activation behind awg-quick up: what their success tells.
use network_manager_sidebar.Base.{◌≡◌, refl, Bool, true, false, not, ◌&&◌, ◌||◌, arith}
use network_manager_sidebar.Names.Exit.{HelperExit, is_success}
use network_manager_sidebar.Journal.{RuntimeMarker}
use network_manager_sidebar.Journal.Classify.{is_active}
use network_manager_sidebar.Deadline.{Deadlines}
use network_manager_sidebar.Helper.Environment.{Environment}
use network_manager_sidebar.Helper.State.{Session, Action, pure, modify}
use network_manager_sidebar.Helper.Keeps.{
  Leaves, Leaves-pure, Leaves-modify, Leaves-if, Leaves-weaken, starting, Keeps-bind,
}
use network_manager_sidebar.Helper.Reads.{phase_stop_status-Keeps, runtime_state-Keeps}
use network_manager_sidebar.Helper.Session.{write_runtime_marker}
use network_manager_sidebar.Helper.Tunnel.Prepare.{Activation}
use network_manager_sidebar.Helper.Tunnel.Activate.{
  or_runtime_failed, set_active, roll_back, unless_stopped, confirm_session, commit_active,
  apply_resolver, adopt_interface, finish_started,
}
use network_manager_sidebar.Helper.Safe.{has_written}
use network_manager_sidebar.Helper.Outcomes.{Any, Confirms, Ends, Ends-same, Ends-bind, ends_rules}
use network_manager_sidebar.Helper.Outcomes.Failures.{failing-Ends, rollback_activation-Ends}

-- A journal of a session that is up.
unfoldable pub is_active_marker : RuntimeMarker → Bool
is_active_marker marker = is_active marker.state && marker.was_active

unfoldable pub written_active : Session → Bool
unfolding has_written is_active_marker
written_active s = has_written is_active_marker s.log

or_runtime_failed-fails : (result : HelperExit) → is_success (or_runtime_failed result) ≡ false
unfolding or_runtime_failed
or_runtime_failed-fails result = ground arith

module _ {World : Type 0} (env : Environment World) (activation : Activation)
    (deadlines : Deadlines) where
  pub roll_back-Ends :
      {P : Session → Type 0} (failure : HelperExit)
      → is_success failure ≡ false
      → Leaves P (roll_back env activation deadlines failure) (Confirms written_active)
  unfolding roll_back
  roll_back-Ends failure f =
      Leaves-weaken (λ s h. tt) (rollback_activation-Ends env _ _ _ failure deadlines.cleanup_at f)

  unless_stopped-Ends :
      {P : Session → Type 0} (next : Action World HelperExit)
      → Leaves P next (Confirms written_active)
      → Leaves P (unless_stopped env activation deadlines next) (Confirms written_active)
  unfolding unless_stopped
  unless_stopped-Ends next kn =
      search (Keeps-bind, phase_stop_status-Keeps, Leaves-if, kn, roll_back-Ends)

  confirmed :
      (result : HelperExit)
      → Leaves {World = World}
          (λ s. written_active s ≡ true)
          (pure result)
          (Confirms written_active)
  confirmed result = Leaves-pure result (λ s h. record { holds = ground arith })

  confirm_session-Ends :
      Leaves
        (λ s. written_active s ≡ true)
        (confirm_session env activation deadlines)
        (Confirms written_active)
  unfolding confirm_session
  confirm_session-Ends = search (
    Keeps-bind, runtime_state-Keeps, Leaves-if, confirmed, roll_back-Ends, or_runtime_failed-fails,
  )

  -- The write of the active journal, and the test behind it.
  write_active :
      Leaves
        (λ s. is_active_marker s.journal ≡ true)
        (write_runtime_marker env activation.name)
        (λ written s. not written || written_active s ≡ true)
  unfolding write_runtime_marker written_active
  write_active = record { at = λ s h. ground arith }

  set_active-marks :
      Leaves {World = World} Any (modify set_active) (λ _ s. is_active_marker s.journal ≡ true)
  unfolding set_active is_active_marker
  set_active-marks = Leaves-modify set_active (λ s h. refl)

  confirm_written :
      (written : Bool)
      → written ≡ true
      → Leaves
          (λ s. not written || written_active s ≡ true)
          (unless_stopped env activation deadlines (confirm_session env activation deadlines))
          (Confirms written_active)
  confirm_written written w =
      Leaves-weaken (λ s h. ground arith)
        (unless_stopped-Ends (confirm_session env activation deadlines) confirm_session-Ends)

  unwritten :
      (written : Bool) (m : Action World HelperExit)
      → Ends written_active m
      → Leaves (λ s. not written || written_active s ≡ true) m (Confirms written_active)
  unwritten written m km = Leaves-weaken (λ s h. tt) km

  commit_active-Ends : Ends written_active (commit_active env activation deadlines)
  unfolding commit_active is_success
  commit_active-Ends =
      let marked = starting set_active-marks in
      let wrote = starting write_active in
      search (marked, wrote, Leaves-if, confirm_written, unwritten, Ends-bind, roll_back-Ends) depth
        10

  apply_resolver-Ends : Ends written_active (apply_resolver env activation deadlines)
  unfolding apply_resolver is_success
  apply_resolver-Ends =
      search (ends_rules, unless_stopped-Ends, commit_active-Ends, failing-Ends, roll_back-Ends)
        depth 10

  adopt_interface-Ends : Ends written_active (adopt_interface env activation deadlines)
  unfolding adopt_interface
  adopt_interface-Ends =
      search
        (
          ends_rules, unless_stopped-Ends, apply_resolver-Ends, roll_back-Ends,
          or_runtime_failed-fails,
        )
        depth 10

  pub finish_started-Ends : Ends written_active (finish_started env activation deadlines)
  unfolding finish_started
  finish_started-Ends =
      let went = starting (unless_stopped-Ends _ adopt_interface-Ends) in
      search (went, Leaves-if, Keeps-bind, phase_stop_status-Keeps, Ends-same, roll_back-Ends) depth
        10
