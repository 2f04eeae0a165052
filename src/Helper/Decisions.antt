-- ===== src/Helper/Decisions.antt =====
-- The helper's own test of a session against the classification that the user interface works on.
use network_manager_sidebar.Base.{◌≡◌, ◌↔◌, Bool, true, Option, none, some, arith}
use network_manager_sidebar.Names.Exit.{HelperExit, is_success}
use network_manager_sidebar.Journal.{RuntimeMarker, LinkObservation}
use network_manager_sidebar.Journal.Classify.{runtime_state_classify}
use network_manager_sidebar.Journal.Marker.{runtime_marker_fields_are_valid}
use network_manager_sidebar.Admission.{runtime_can_disconnect}
use network_manager_sidebar.Helper.Session.{owned_link, marked_status}
use network_manager_sidebar.Helper.Tunnel.Admit.{down_decision}

-- The decision lets the session pass, to the test of its files or as settled.
abbrev pub admits : Option HelperExit → Bool
admits none = true
admits (some result) = is_success result

-- For a marker whose fields are valid, the admission pass of the helper lets a session with an
-- observed link pass on to its files, or passes it as settled, exactly if the classification of the
-- same marker and observation is one that the user interface offers to disconnect.
pub down_decision-classify :
    (marker : RuntimeMarker) (observation : LinkObservation)
    → runtime_marker_fields_are_valid marker ≡ true
    → (admits (down_decision (marked_status marker (owned_link marker (some observation)))) ≡ true)
      ↔ (runtime_can_disconnect (runtime_state_classify true true (some marker) (some observation))
          ≡ true)
unfolding runtime_state_classify runtime_marker_fields_are_valid down_decision marked_status
    owned_link runtime_can_disconnect
down_decision-classify marker observation valid = (λ h. ground arith, λ h. ground arith)
