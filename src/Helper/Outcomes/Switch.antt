-- ===== src/Helper/Outcomes/Switch.antt =====
-- The admission pass of a switch.
use network_manager_sidebar.Base.{◌≡◌, refl, false, Option, List, [], ◌∷◌, Bytes, ℤ}
use network_manager_sidebar.Names.Exit.{is_success}
use network_manager_sidebar.Deadline.{Deadlines}
use network_manager_sidebar.Helper.Environment.{Environment}
use network_manager_sidebar.Helper.State.{Session, State}
use network_manager_sidebar.Helper.Keeps.{Keeps, Keeps-on_success, keeps_rules}
use network_manager_sidebar.Helper.Reads.{
  phase_stop_status-Keeps, phase_failure_or-Keeps, runtime_state-Keeps,
}
use network_manager_sidebar.Helper.Tunnel.{on_success}
use network_manager_sidebar.Helper.Tunnel.Prepare.{Activation}
use network_manager_sidebar.Helper.Tunnel.Admit.{tunnel_check_down}
use network_manager_sidebar.Helper.Safe.Down.{runtime_files_agree-Keeps}
use network_manager_sidebar.Helper.Switch.{
  previous_session_failure, admit_previous, switch_prepared,
}

module _ {World : Type 0} (env : Environment World) where
  tunnel_check_down-Keeps :
      {P : Session → Type 0} (name : Bytes) (deadline : ℤ)
      → Keeps P (tunnel_check_down env name deadline)
  unfolding tunnel_check_down
  tunnel_check_down-Keeps name deadline =
      search
        (
          keeps_rules, phase_stop_status-Keeps, phase_failure_or-Keeps, runtime_state-Keeps,
          runtime_files_agree-Keeps,
        )
        depth 14

  module _ (deadlines : Deadlines) where
    admit_previous-Keeps :
        {P : Session → Type 0} (previous : List Bytes)
        → Keeps P (admit_previous env deadlines previous)
    unfolding admit_previous
    admit_previous-Keeps [] = search keeps_rules
    admit_previous-Keeps (name ∷ rest) =
        Keeps-on_success _ _ (tunnel_check_down-Keeps name deadlines.forward_at)
          (admit_previous-Keeps rest)

    -- If the admission pass over the previous sessions fails, for whichever session, then the switch
    -- reports the failure of a previous session, takes none of them down, does not start the target,
    -- and leaves the session as it was: nothing was written, run or removed.
    pub switch_prepared-refused :
        (previous : List Bytes) (activation : Option Activation) (s : State World)
        → is_success (admit_previous env deadlines previous s).0 ≡ false
        → ((switch_prepared env deadlines previous activation s).0
            ≡ previous_session_failure (admit_previous env deadlines previous s).0)
          × ((switch_prepared env deadlines previous activation s).1.session ≡ s.session)
    unfolding switch_prepared on_success
    switch_prepared-refused previous activation s f =
        let kept = (admit_previous-Keeps {P = λ x. x ≡ s.session} previous).at s refl in
        (rw (f, f) refl, rw (f, f) kept)
