-- ===== src/Admission.antt =====
-- admission.c: which actions on a profile are offered and allowed.
pub mod Allowed
pub mod Primary
use network_manager_sidebar.Base.{
  ℕ, Bool, true, false, not, ◌&&◌, ◌||◌, Option, none, some, if◌then◌else◌,
}
use network_manager_sidebar.Names.{ProfileStatus, available, profile_status_allows_removal}
use network_manager_sidebar.Journal.{RuntimeState, runtime_state_is_recoverable}

-- NetworkSidebarAwgDependency, a set of flags: one field for each bit.
pub record Dependencies : Type 0 where
  pub helper : Bool
  pub service : Bool
  pub awg_quick : Bool

pub data Action : Type 0 where
  import_profile replace up down delete : Action

pub data BlockedReason : Type 0 where
  not_blocked authorization busy capabilities dependencies profile_missing : BlockedReason
  profile_activation profile_removal runtime_unknown conflict : BlockedReason
  manual_cleanup already_in_state : BlockedReason

pub record AdmissionContext : Type 0 where
  pub authorized : Bool
  pub busy : Bool
  pub capabilities_known : Bool
  pub missing_dependencies : Dependencies

pub record AdmissionTarget : Type 0 where
  pub has_profile : Bool
  pub profile_status : ProfileStatus
  pub runtime_state : RuntimeState
  pub interface_exists : Bool

pub record ActionAvailability : Type 0 where
  pub action : Action
  pub offered : Bool
  pub allowed : Bool
  pub blocked_reason : BlockedReason
  pub missing_dependencies : Dependencies

abbrev is_active : RuntimeState → Bool
is_active RuntimeState.active = true
is_active _ = false

abbrev is_unknown : RuntimeState → Bool
is_unknown RuntimeState.unknown = true
is_unknown _ = false

abbrev is_conflict : RuntimeState → Bool
is_conflict RuntimeState.conflict = true
is_conflict _ = false

abbrev is_manual : RuntimeState → Bool
is_manual RuntimeState.manual_intervention = true
is_manual _ = false

abbrev is_available : ProfileStatus → Bool
is_available available = true
is_available _ = false

abbrev is_up : Action → Bool
is_up up = true
is_up _ = false

-- `==` on gboolean.
abbrev same : Bool → Bool → Bool
same true b = b
same false b = not b

unfoldable pub runtime_can_disconnect : RuntimeState → Bool
unfolding runtime_state_is_recoverable
runtime_can_disconnect state = is_active state || runtime_state_is_recoverable state

unfoldable pub primary_action : RuntimeState → Action
unfolding runtime_can_disconnect
primary_action state = if runtime_can_disconnect state || is_manual state then down else up

-- `missing & ~AWG_QUICK`.
abbrev without_awg_quick : Dependencies → Dependencies
without_awg_quick missing = record missing { awg_quick = false }

-- `missing & SERVICE`.
abbrev only_service : Dependencies → Dependencies
only_service missing = record missing { helper = false; awg_quick = false }

-- `missing == NONE`.
abbrev pub is_none : Dependencies → Bool
is_none missing = not missing.helper && not missing.service && not missing.awg_quick

-- The runtime is known and has no interface.
abbrev link_is_absent : Option AdmissionTarget → Bool
link_is_absent Option.none = false
link_is_absent (some target) = not (is_unknown target.runtime_state) && not target.interface_exists

unfoldable pub action_missing_dependencies :
    Action → AdmissionContext → Option AdmissionTarget → Bool → Dependencies
action_missing_dependencies down context target runtime_cleanup_only =
    if not context.capabilities_known
    then only_service context.missing_dependencies
    else if runtime_cleanup_only || link_is_absent target
    then without_awg_quick context.missing_dependencies
    else context.missing_dependencies
action_missing_dependencies delete context target runtime_cleanup_only =
    if link_is_absent target
    then without_awg_quick context.missing_dependencies
    else context.missing_dependencies
action_missing_dependencies _ context target runtime_cleanup_only = context.missing_dependencies

unfoldable pub dependency_blocked_reason : AdmissionContext → Dependencies → BlockedReason
dependency_blocked_reason context missing =
    if is_none missing
    then not_blocked
    else if not context.capabilities_known && not missing.service
    then capabilities
    else dependencies

-- The tests on the target's runtime, which `up`, `down` and `delete` share.
runtime_blocked_reason : Action → AdmissionContext → RuntimeState → Dependencies → BlockedReason
unfolding runtime_can_disconnect dependency_blocked_reason
runtime_blocked_reason action context RuntimeState.unknown missing = runtime_unknown
runtime_blocked_reason action context RuntimeState.conflict missing = conflict
runtime_blocked_reason action context RuntimeState.manual_intervention missing = manual_cleanup
runtime_blocked_reason delete context state missing = dependency_blocked_reason context missing
runtime_blocked_reason action context state missing =
    if same (runtime_can_disconnect state) (is_up action)
    then already_in_state
    else dependency_blocked_reason context missing

-- After the tests of authorization and activity.
admitted_blocked_reason :
    Action → AdmissionContext → Option AdmissionTarget → Dependencies → BlockedReason
unfolding runtime_blocked_reason dependency_blocked_reason profile_status_allows_removal
admitted_blocked_reason import_profile context target missing =
    dependency_blocked_reason context missing
admitted_blocked_reason replace context target missing = dependency_blocked_reason context missing
admitted_blocked_reason up context Option.none missing = profile_missing
admitted_blocked_reason up context (some target) missing =
    if not target.has_profile
    then profile_missing
    else if not (is_available target.profile_status)
    then profile_activation
    else runtime_blocked_reason up context target.runtime_state missing
admitted_blocked_reason down context Option.none missing = runtime_unknown
admitted_blocked_reason down context (some target) missing =
    runtime_blocked_reason down context target.runtime_state missing
admitted_blocked_reason delete context Option.none missing = profile_removal
admitted_blocked_reason delete context (some target) missing =
    if not target.has_profile || not (profile_status_allows_removal target.profile_status)
    then profile_removal
    else runtime_blocked_reason delete context target.runtime_state missing

unfoldable pub action_blocked_reason :
    Action → AdmissionContext → Option AdmissionTarget → Dependencies → BlockedReason
unfolding admitted_blocked_reason
action_blocked_reason action context target missing =
    if not context.authorized
    then authorization
    else if context.busy
    then busy
    else admitted_blocked_reason action context target missing

-- The switch of action_evaluate.
action_offered : Action → Option AdmissionTarget → Bool
unfolding runtime_can_disconnect profile_status_allows_removal
action_offered import_profile target = true
action_offered replace target = true
action_offered up (some target) = target.has_profile && is_available target.profile_status
action_offered down (some target) = runtime_can_disconnect target.runtime_state
action_offered delete (some target) =
    target.has_profile && profile_status_allows_removal target.profile_status
action_offered _ Option.none = false

abbrev is_unblocked : BlockedReason → Bool
is_unblocked not_blocked = true
is_unblocked _ = false

unfoldable pub action_evaluate :
    Action → AdmissionContext → Option AdmissionTarget → ActionAvailability
unfolding action_offered action_missing_dependencies action_blocked_reason
action_evaluate action context target =
    let missing = action_missing_dependencies action context target false in
    let reason = action_blocked_reason action context target missing in
    record {
      action = action;
      offered = action_offered action target;
      allowed = is_unblocked reason;
      blocked_reason = reason;
      missing_dependencies = missing;
    }
