-- ===== src/Admission/Primary.antt =====
-- The offer of an action and its permission, and the choice of the primary action.
use network_manager_sidebar.Base.{false, true, Option, none, some, ◌≡◌, ◌⊎◌, ◌≢◌, refl, arith}
use network_manager_sidebar.Admission.{
  Action, import_profile, replace, up, down, delete, AdmissionContext, AdmissionTarget,
  action_evaluate, primary_action, already_in_state,
}

-- Whatever is allowed is offered.
pub allowed-offered :
    (action : Action) (context : AdmissionContext) (target : Option AdmissionTarget)
    → (action_evaluate action context target).allowed ≡ true
    → (action_evaluate action context target).offered ≡ true
unfolding action_evaluate
allowed-offered import_profile context target h = refl
allowed-offered replace context target h = refl
allowed-offered up context none h = ground arith
allowed-offered up context (some target) h = ground arith
allowed-offered down context none h = ground arith
allowed-offered down context (some target) h = ground arith
allowed-offered delete context none h = ground arith
allowed-offered delete context (some target) h = ground arith

-- Of up and down only the primary action of the session's state can be allowed, and the primary
-- action is never refused for being done already.
pub primary_action-allowed :
    (context : AdmissionContext) (target : AdmissionTarget)
    → (((primary_action target.runtime_state ≡ up)
          × ((action_evaluate down context (some target)).allowed ≡ false))
        ⊎ ((primary_action target.runtime_state ≡ down)
            × ((action_evaluate up context (some target)).allowed ≡ false)))
      × ((action_evaluate
            (primary_action target.runtime_state)
            context
            (some target)).blocked_reason
          ≢ already_in_state)
unfolding action_evaluate primary_action
primary_action-allowed context target = (ground arith, ground arith)
