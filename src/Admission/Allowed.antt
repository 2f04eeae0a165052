-- ===== src/Admission/Allowed.antt =====
-- Exactly when admission.c allows each action on a profile.
use network_manager_sidebar.Base.{true, false, some, ◌≡◌, ◌↔◌, ◌⊎◌, arith}
use network_manager_sidebar.Names.{
  ProfileStatus, available, invalid_configuration, incompatible_configuration,
}
use network_manager_sidebar.Journal.{RuntimeState}
use network_manager_sidebar.Admission.{
  Dependencies, up, down, delete, AdmissionContext, AdmissionTarget, action_evaluate,
}

-- What every action needs.
abbrev pub IsIdle : AdmissionContext → Type 0
IsIdle context = (context.authorized ≡ true) × (context.busy ≡ false)

abbrev pub HasNoneMissing : Dependencies → Type 0
HasNoneMissing missing =
    (missing.helper ≡ false) × (missing.service ≡ false) × (missing.awg_quick ≡ false)

-- The dependencies that taking a session down needs: all but `awg-quick` where no link exists.
abbrev pub HasDownTools : Dependencies → AdmissionTarget → Type 0
HasDownTools missing target =
    (missing.helper ≡ false)
    × (missing.service ≡ false)
    × ((missing.awg_quick ≡ false) ⊎ (target.interface_exists ≡ false))

-- The session has something to take down.
abbrev pub CanDisconnect : RuntimeState → Type 0
CanDisconnect state =
    (state ≡ RuntimeState.active)
    ⊎ (state ≡ RuntimeState.recovery_required)
    ⊎ (state ≡ RuntimeState.firewall_pending)

abbrev pub IsRemovable : ProfileStatus → Type 0
IsRemovable status =
    (status ≡ available) ⊎ (status ≡ invalid_configuration) ⊎ (status ≡ incompatible_configuration)

-- Up is allowed exactly for an authorized, idle caller with no dependency missing, on a saved
-- profile that is available and whose session is inactive.
pub up-allowed_iff :
    (context : AdmissionContext) (target : AdmissionTarget)
    → ((action_evaluate up context (some target)).allowed ≡ true) ↔ (
        IsIdle context
        × (target.has_profile ≡ true)
        × (target.profile_status ≡ available)
        × (target.runtime_state ≡ RuntimeState.inactive)
        × HasNoneMissing context.missing_dependencies)
unfolding action_evaluate
up-allowed_iff context target = (λ h. ground arith, λ h. ground arith)

-- Down is allowed exactly for an authorized, idle caller, on a session that is active, needs
-- recovery or waits for its firewall check, when the service is there and, where the capabilities
-- are known, no tool that taking the session down needs is missing.
pub down-allowed_iff :
    (context : AdmissionContext) (target : AdmissionTarget)
    → ((action_evaluate down context (some target)).allowed ≡ true) ↔ (
        IsIdle context
        × CanDisconnect target.runtime_state
        × (context.missing_dependencies.service ≡ false)
        × ((context.capabilities_known ≡ false) ⊎ HasDownTools context.missing_dependencies target))
unfolding action_evaluate
down-allowed_iff context target = (λ h. ground arith, λ h. ground arith)

-- Delete is allowed exactly for an authorized, idle caller, on a saved profile with a status that
-- allows removal, whose session is inactive or can be taken down, when no tool that taking a
-- session down needs is missing.
pub delete-allowed_iff :
    (context : AdmissionContext) (target : AdmissionTarget)
    → ((action_evaluate delete context (some target)).allowed ≡ true) ↔ (
        IsIdle context
        × (target.has_profile ≡ true)
        × IsRemovable target.profile_status
        × ((target.runtime_state ≡ RuntimeState.inactive) ⊎ CanDisconnect target.runtime_state)
        × HasDownTools context.missing_dependencies target)
unfolding action_evaluate
delete-allowed_iff context target = (λ h. ground arith, λ h. ground arith)
