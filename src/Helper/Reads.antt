-- ===== src/Helper/Reads.antt =====
-- The functions of the helper that only read leave the session as it was.
use network_manager_sidebar.Base.{Bytes, ℤ}
use network_manager_sidebar.Names.Exit.{HelperExit}
use network_manager_sidebar.Journal.{RuntimeMarker}
use network_manager_sidebar.Helper.Environment.{Environment}
use network_manager_sidebar.Helper.State.{Session}
use network_manager_sidebar.Helper.Keeps.{Keeps, keeps_rules}
use network_manager_sidebar.Helper.Session.{
  owned_link_state, runtime_state, phase_stop_status, phase_failure_or,
}

module _ {World : Type 0} (env : Environment World) {P : Session → Type 0} where
  pub owned_link_state-Keeps :
      (name : Bytes) (marker : RuntimeMarker) → Keeps P (owned_link_state env name marker)
  unfolding owned_link_state
  owned_link_state-Keeps name marker = search keeps_rules

  pub runtime_state-Keeps : (name : Bytes) → Keeps P (runtime_state env name)
  unfolding runtime_state
  runtime_state-Keeps name = search (keeps_rules, owned_link_state-Keeps)

  pub phase_stop_status-Keeps : (deadline : ℤ) → Keeps P (phase_stop_status env deadline)
  unfolding phase_stop_status
  phase_stop_status-Keeps deadline = search keeps_rules

  pub phase_failure_or-Keeps :
      (deadline : ℤ) (fallback : HelperExit) → Keeps P (phase_failure_or env deadline fallback)
  unfolding phase_failure_or
  phase_failure_or-Keeps deadline fallback = search (keeps_rules, phase_stop_status-Keeps)
