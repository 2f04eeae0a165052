-- ===== src/Examples/Sessions.antt =====
-- Names, markers, classification and admission at concrete values.
use network_manager_sidebar.Base.{
  ◌≡◌, ◌≢◌, ◌↔◌, ◌⊎◌, refl, true, false, none, some, Bytes, codes, length, ◌<◌, arith,
}
use network_manager_sidebar.Names.{name_is_valid, link_token_is_valid, available}
use network_manager_sidebar.Names.Normalize.{interface_from_filename}
use network_manager_sidebar.Names.Normalize.Valid.{interface_from_filename_valid}
use network_manager_sidebar.Names.Normalize.RoundTrip.{interface_from_filename-conf}
use network_manager_sidebar.Journal.{RuntimeState, JournalState}
use network_manager_sidebar.Journal.Classify.{runtime_state_classify}
use network_manager_sidebar.Journal.Classify.Sessions.{
  NamesLink, IsOwnedLink, classify-inactive, classify-active, classify-firewall_pending,
}
use network_manager_sidebar.Journal.Marker.{
  runtime_marker_fields_are_valid, runtime_marker_serialize, runtime_marker_parse,
  max_runtime_marker_size,
}
use network_manager_sidebar.Journal.Marker.RoundTrip.{runtime_marker_parse-serialize}
use network_manager_sidebar.Admission.{
  up, down, delete, action_evaluate, primary_action, already_in_state,
}
use network_manager_sidebar.Admission.Allowed.{
  up-allowed_iff, down-allowed_iff, delete-allowed_iff, IsIdle, HasNoneMissing, HasDownTools,
  CanDisconnect, IsRemovable,
}
use network_manager_sidebar.Admission.Primary.{allowed-offered, primary_action-allowed}
use network_manager_sidebar.Examples.Data.{
  is_blank, digit_visible, active_marker, pending_marker, owned_link, no_link, all_present,
  no_awg_quick, idle, saved,
}

-- A file name in no directory is its own base name.
abbrev same_name : Bytes → Bytes
same_name path = path

test_normalize :
    interface_from_filename same_name (some (codes "My Home VPN.CONF")) ≡ some (codes "My-Home-VPN")
unfolding interface_from_filename
test_normalize = refl

interface_from_filename_valid_example : name_is_valid (some (codes "a-b")) ≡ true
unfolding interface_from_filename
interface_from_filename_valid_example =
    interface_from_filename_valid same_name (some (codes "(a b).conf")) refl

wg0_valid : name_is_valid (some (codes "wg0")) ≡ true
unfolding name_is_valid
wg0_valid = refl

interface_from_filename-conf_example :
    interface_from_filename same_name (some (codes "wg0.conf")) ≡ some (codes "wg0")
interface_from_filename-conf_example =
    interface_from_filename-conf same_name (codes "wg0.conf") (codes "wg0") wg0_valid (λ e. cc) refl

active_marker_valid : runtime_marker_fields_are_valid active_marker ≡ true
unfolding runtime_marker_fields_are_valid link_token_is_valid
active_marker_valid = refl

pending_marker_valid : runtime_marker_fields_are_valid pending_marker ≡ true
unfolding runtime_marker_fields_are_valid link_token_is_valid
pending_marker_valid = refl

runtime_marker_parse-serialize_example :
    (contents : Bytes) × (runtime_marker_serialize active_marker ≡ some contents)
    × (length contents < max_runtime_marker_size)
    × (runtime_marker_parse is_blank contents ≡ some active_marker)
runtime_marker_parse-serialize_example =
    runtime_marker_parse-serialize is_blank digit_visible active_marker active_marker_valid
      (omega arith)

classify-inactive_example :
    ((runtime_state_classify false false none (some no_link) ≡ RuntimeState.inactive)
      ↔ ((false ≡ false) × (¬ NamesLink (some no_link))))
    × (runtime_state_classify false false none (some no_link) ≢ RuntimeState.unknown)
classify-inactive_example = classify-inactive false false none (some no_link)

classify-active_example :
    (runtime_state_classify true true (some active_marker) (some owned_link) ≡ RuntimeState.active)
    ↔ ((JournalState.active ≡ JournalState.active) × IsOwnedLink active_marker owned_link)
classify-active_example = classify-active active_marker owned_link active_marker_valid

classify-firewall_pending_example :
    (runtime_state_classify true true (some pending_marker) (some no_link)
      ≡ RuntimeState.firewall_pending)
    ↔ ((pending_marker.state ≡ JournalState.firewall_pending)
        × (no_link.token_matches ≡ 0)
        × (no_link.named_exists ≡ false))
classify-firewall_pending_example =
    classify-firewall_pending pending_marker no_link pending_marker_valid

test_up_allowed :
    (action_evaluate up (idle all_present) (some (saved RuntimeState.inactive false))).allowed
    ≡ true
unfolding action_evaluate
test_up_allowed = refl

up-allowed_iff_example :
    ((action_evaluate up (idle all_present) (some (saved RuntimeState.inactive false))).allowed
      ≡ true)
    ↔ (IsIdle (idle all_present)
        × (true ≡ true)
        × (available ≡ available)
        × (RuntimeState.inactive ≡ RuntimeState.inactive)
        × HasNoneMissing all_present)
up-allowed_iff_example = up-allowed_iff (idle all_present) (saved RuntimeState.inactive false)

down-allowed_iff_example :
    ((action_evaluate down (idle no_awg_quick) (some (saved RuntimeState.active true))).allowed
      ≡ true)
    ↔ (IsIdle (idle no_awg_quick)
        × CanDisconnect RuntimeState.active
        × (no_awg_quick.service ≡ false)
        × ((true ≡ false) ⊎ HasDownTools no_awg_quick (saved RuntimeState.active true)))
down-allowed_iff_example = down-allowed_iff (idle no_awg_quick) (saved RuntimeState.active true)

delete-allowed_iff_example :
    ((action_evaluate delete (idle no_awg_quick) (some (saved RuntimeState.inactive false))).allowed
      ≡ true)
    ↔ (IsIdle (idle no_awg_quick)
        × (true ≡ true)
        × IsRemovable available
        × ((RuntimeState.inactive ≡ RuntimeState.inactive) ⊎ CanDisconnect RuntimeState.inactive)
        × HasDownTools no_awg_quick (saved RuntimeState.inactive false))
delete-allowed_iff_example =
    delete-allowed_iff (idle no_awg_quick) (saved RuntimeState.inactive false)

allowed-offered_example :
    (action_evaluate up (idle all_present) (some (saved RuntimeState.inactive false))).offered
    ≡ true
allowed-offered_example =
    allowed-offered up (idle all_present) (some (saved RuntimeState.inactive false)) test_up_allowed

primary_action-allowed_example :
    (((primary_action RuntimeState.active ≡ up)
        × ((action_evaluate down (idle all_present) (some (saved RuntimeState.active true))).allowed
            ≡ false))
      ⊎ ((primary_action RuntimeState.active ≡ down)
          × ((action_evaluate up (idle all_present) (some (saved RuntimeState.active true))).allowed
              ≡ false)))
    × ((action_evaluate
          (primary_action RuntimeState.active)
          (idle all_present)
          (some (saved RuntimeState.active true))).blocked_reason
        ≢ already_in_state)
primary_action-allowed_example =
    primary_action-allowed (idle all_present) (saved RuntimeState.active true)
