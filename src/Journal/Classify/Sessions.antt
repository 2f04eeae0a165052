-- ===== src/Journal/Classify/Sessions.antt =====
-- When a session counts as inactive, active or waiting for the firewall check.
use network_manager_sidebar.Base.{
  ◌≡◌, ◌≢◌, ◌↔◌, ◌⊎◌, Bool, true, false, Option, none, some, arith, refl,
}
use network_manager_sidebar.Journal.{RuntimeState, JournalState, RuntimeMarker, LinkObservation}
use network_manager_sidebar.Journal.Classify.{runtime_state_classify}
use network_manager_sidebar.Journal.Marker.{runtime_marker_fields_are_valid}

-- An observation was made and it found a link of the session's name.
abbrev pub NamesLink : Option LinkObservation → Type 0
NamesLink none = ⊥
NamesLink (some observation) = observation.named_exists ≡ true

-- A session is inactive exactly if there is no marker and no link of its name; the answer `unknown`
-- is never given.
pub classify-inactive :
    (marker_exists marker_valid : Bool) (marker : Option RuntimeMarker)
    (observation : Option LinkObservation)
    → ((runtime_state_classify marker_exists marker_valid marker observation
          ≡ RuntimeState.inactive)
        ↔ ((marker_exists ≡ false) × (¬ NamesLink observation)))
      × (runtime_state_classify marker_exists marker_valid marker observation
          ≢ RuntimeState.unknown)
unfolding runtime_state_classify
classify-inactive false valid marker none = ((λ h. (refl, λ n. n), λ h. refl), ground arith)
classify-inactive false valid marker (some o) =
    ((λ h. (refl, λ n. ground arith), λ h. ground arith), ground arith)
classify-inactive true false marker o = ((λ h. ground arith, λ h. ground arith), ground arith)
classify-inactive true true none o = ((λ h. ground arith, λ h. ground arith), ground arith)
classify-inactive true true (some m) none = ((λ h. ground arith, λ h. ground arith), ground arith)
classify-inactive true true (some m) (some o) =
    ((λ h. ground arith, λ h. ground arith), ground arith)

-- The one link that carries the token is the one that the marker and the observation mean.
abbrev pub IsOwnedLink : RuntimeMarker → LinkObservation → Type 0
IsOwnedLink marker observation =
    (observation.token_matches ≡ 1)
    × (observation.token_has_expected_name ≡ true)
    × ((observation.named_exists ≡ false) ⊎ (observation.named_ifindex ≡ observation.token_ifindex))
    × (marker.ifindex ≡ observation.token_ifindex)

-- For a marker whose fields are valid, the session is active exactly if the journal says so and
-- exactly one link, of the recorded index and the expected name, carries the token.
pub classify-active :
    (marker : RuntimeMarker) (observation : LinkObservation)
    → runtime_marker_fields_are_valid marker ≡ true
    → (runtime_state_classify true true (some marker) (some observation) ≡ RuntimeState.active)
      ↔ ((marker.state ≡ JournalState.active) × IsOwnedLink marker observation)
unfolding runtime_state_classify runtime_marker_fields_are_valid
classify-active marker observation valid = (λ h. ground arith, λ h. ground arith)

-- For a marker whose fields are valid, the session waits for the firewall check exactly if the
-- journal says so and no link is left: neither one with the token nor one with the name.
pub classify-firewall_pending :
    (marker : RuntimeMarker) (observation : LinkObservation)
    → runtime_marker_fields_are_valid marker ≡ true
    → (runtime_state_classify true true (some marker) (some observation)
        ≡ RuntimeState.firewall_pending)
      ↔ ((marker.state ≡ JournalState.firewall_pending)
          × (observation.token_matches ≡ 0)
          × (observation.named_exists ≡ false))
unfolding runtime_state_classify runtime_marker_fields_are_valid
classify-firewall_pending marker observation valid = (λ h. ground arith, λ h. ground arith)
