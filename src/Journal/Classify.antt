-- ===== src/Journal/Classify.antt =====
-- network_sidebar_amneziawg_runtime_state_classify of runtime_journal.c.
pub mod Sessions
use network_manager_sidebar.Base.{
  Bool, true, false, not, ◌&&◌, ◌||◌, Option, none, some, ltb, ◌==◌, if◌then◌else◌,
}
use network_manager_sidebar.Journal.{
  RuntimeState, JournalState, DnsBackend, JournalDnsState, RuntimeMarker, LinkObservation,
}

abbrev pub is_absent : JournalDnsState → Bool
is_absent JournalDnsState.absent = true
is_absent _ = false

abbrev pub is_unknown : JournalDnsState → Bool
is_unknown JournalDnsState.unknown = true
is_unknown _ = false

abbrev pub is_resolved : DnsBackend → Bool
is_resolved DnsBackend.resolved = true
is_resolved _ = false

abbrev pub is_unconfirmed : JournalState → Bool
is_unconfirmed JournalState.cleanup_unconfirmed = true
is_unconfirmed _ = false

abbrev pub is_complete : JournalState → Bool
is_complete JournalState.cleanup_complete = true
is_complete _ = false

abbrev pub is_firewall_pending : JournalState → Bool
is_firewall_pending JournalState.firewall_pending = true
is_firewall_pending _ = false

abbrev pub is_active : JournalState → Bool
is_active JournalState.active = true
is_active _ = false

-- No link carries the token.
absent_link : RuntimeMarker → LinkObservation → RuntimeState
absent_link marker observation =
    if observation.named_exists
    then RuntimeState.conflict
    else if is_firewall_pending marker.state
    then (if is_absent marker.dns_state && not marker.was_active
        then RuntimeState.firewall_pending
        else RuntimeState.manual_intervention)
    else if is_complete marker.state
    then RuntimeState.recovery_required
    else RuntimeState.manual_intervention

-- One link carries the token.
present_link : RuntimeMarker → LinkObservation → RuntimeState
present_link marker observation =
    if (observation.named_exists && not (observation.named_ifindex == observation.token_ifindex))
      || (not (marker.ifindex == 0) && not (marker.ifindex == observation.token_ifindex))
    then RuntimeState.conflict
    else if not observation.token_has_expected_name
    then RuntimeState.manual_intervention
    else if is_complete marker.state || is_firewall_pending marker.state
    then RuntimeState.conflict
    else if not (is_active marker.state) || marker.ifindex == 0
    then RuntimeState.recovery_required
    else RuntimeState.active

classify_marked : RuntimeMarker → LinkObservation → RuntimeState
unfolding absent_link present_link
classify_marked marker observation =
    if is_unconfirmed marker.state
      || (is_resolved marker.dns_backend && is_unknown marker.dns_state)
    then RuntimeState.manual_intervention
    else if ltb 1 observation.token_matches
    then RuntimeState.manual_intervention
    else if observation.token_matches == 0
    then absent_link marker observation
    else present_link marker observation

-- NULL is `none`.
unfoldable pub runtime_state_classify :
    Bool → Bool → Option RuntimeMarker → Option LinkObservation → RuntimeState
unfolding classify_marked
runtime_state_classify false marker_valid marker none = RuntimeState.inactive
runtime_state_classify false marker_valid marker (some observation) =
    if observation.named_exists then RuntimeState.conflict else RuntimeState.inactive
runtime_state_classify true false marker observation = RuntimeState.manual_intervention
runtime_state_classify true true none observation = RuntimeState.manual_intervention
runtime_state_classify true true (some marker) none = RuntimeState.manual_intervention
runtime_state_classify true true (some marker) (some observation) =
    classify_marked marker observation
