-- ===== src/Helper/Session.antt =====
-- amneziawg_helper_session.c, and the phases of amneziawg_helper_util.c.
use network_manager_sidebar.Base.{
  ℕ, Bool, true, false, not, ◌&&◌, ◌||◌, Option, none, some, ltb, ◌==◌, if◌then◌else◌, Bytes, ℤ,
  pos, ltb_ℤ,
}
use network_manager_sidebar.Names.Exit.{HelperExit, is_success}
use network_manager_sidebar.Journal.{RuntimeMarker, LinkObservation}
use network_manager_sidebar.Helper.Environment.{Environment, EntryState}
use network_manager_sidebar.Helper.State.{
  Session, Action, Event, no_marker, pure, gets, observe, perform, modify, ◌>>=◌, ◌>>◌,
}

-- AwgHelperOwnedLinkState.
pub data OwnedLinkState : Type 0 where
  absent present conflict unknown : OwnedLinkState

unfoldable pub is_absent_link : OwnedLinkState → Bool
is_absent_link OwnedLinkState.absent = true
is_absent_link _ = false

unfoldable pub is_present_link : OwnedLinkState → Bool
is_present_link OwnedLinkState.present = true
is_present_link _ = false

unfoldable pub is_conflict_link : OwnedLinkState → Bool
is_conflict_link OwnedLinkState.conflict = true
is_conflict_link _ = false

unfoldable pub is_unknown_link : OwnedLinkState → Bool
is_unknown_link OwnedLinkState.unknown = true
is_unknown_link _ = false

unfoldable pub is_missing : EntryState → Bool
is_missing EntryState.missing = true
is_missing _ = false

unfoldable pub is_valid : EntryState → Bool
is_valid EntryState.valid = true
is_valid _ = false

unfoldable pub is_invalid : EntryState → Bool
is_invalid EntryState.invalid = true
is_invalid _ = false

-- The decisions of owned_link_state on the observation that was made, if it was.
unfoldable pub owned_link : RuntimeMarker → Option LinkObservation → OwnedLinkState
owned_link marker none = OwnedLinkState.unknown
owned_link marker (some current) =
    if ltb 1 current.token_matches
    then OwnedLinkState.unknown
    else if current.token_matches == 0
    then (if current.named_exists then OwnedLinkState.conflict else OwnedLinkState.absent)
    else if not current.token_has_expected_name
        || (current.named_exists && not (current.named_ifindex == current.token_ifindex))
        || (not (marker.ifindex == 0) && not (marker.ifindex == current.token_ifindex))
    then OwnedLinkState.conflict
    else OwnedLinkState.present

abbrev pub token_ifindex_in : Option LinkObservation → ℕ
token_ifindex_in none = 0
token_ifindex_in (some observation) = observation.token_ifindex

-- What runtime_state answers: its result, and the values behind its pointers.
pub record RuntimeStatus : Type 0 where
  pub status : HelperExit
  pub has_marker : Bool
  pub has_interface : Bool
  pub marker : RuntimeMarker

unfoldable pub status_only : HelperExit → RuntimeStatus
status_only status = record {
  status = status;
  has_marker = false;
  has_interface = false;
  marker = no_marker;
}

-- runtime_state on a marker that was read.
unfoldable pub marked_status : RuntimeMarker → OwnedLinkState → RuntimeStatus
unfolding is_unknown_link is_conflict_link is_present_link status_only
marked_status marker owned_state =
    if is_unknown_link owned_state
    then status_only HelperExit.runtime_failed
    else if is_conflict_link owned_state
    then status_only HelperExit.interface_conflict
    else record {
      status = HelperExit.success;
      has_marker = true;
      has_interface = is_present_link owned_state;
      marker = marker;
    }

-- runtime_state on a name without a marker.
unfoldable pub unmarked_status : Option LinkObservation → RuntimeStatus
unfolding status_only
unmarked_status none = status_only HelperExit.runtime_failed
unmarked_status (some observation) = record (status_only HelperExit.success) {
  has_interface = observation.named_exists;
}

unfoldable pub set_journal : RuntimeMarker → Session → Session
set_journal marker session = record session { journal = marker }

unfoldable pub adopt_ifindex : ℕ → Session → Session
adopt_ifindex ifindex s = record s { journal = record s.journal { ifindex = ifindex } }

module _ {World : Type 0} (env : Environment World) where
  unfoldable pub write_runtime_marker : Bytes → Action World Bool
  unfolding ◌>>=◌
  write_runtime_marker name = do
    journal ← gets (λ s. s.journal)
    perform (Event.wrote_marker name journal) (env.write_runtime_marker name journal)

  unfoldable pub owned_link_state : Bytes → RuntimeMarker → Action World OwnedLinkState
  unfolding ◌>>=◌ owned_link
  owned_link_state name marker = do
    current ← observe (env.link_observe name (some marker.link_token))
    pure (owned_link marker current)

  -- `marker_value` is left to the caller.
  unfoldable pub runtime_state : Bytes → Action World RuntimeStatus
  unfolding owned_link_state marked_status unmarked_status is_missing is_invalid status_only
  runtime_state name = do
    (entry, marker) ← observe (env.read_runtime_marker name)
    if is_missing entry
        then (do
          observation ← observe (env.link_observe name none)
          pure (unmarked_status observation))
        else if is_invalid entry
        then pure (status_only HelperExit.runtime_failed)
        else (do
          owned_state ← owned_link_state name marker
          pure (marked_status marker owned_state))

  -- The result, and `*interface_exists`.
  unfoldable pub refresh_owned_interface : Bytes → Action World (HelperExit × Bool)
  unfolding ◌>>=◌ owned_link is_unknown_link is_conflict_link is_absent_link write_runtime_marker
      adopt_ifindex
  refresh_owned_interface name = do
    marker ← gets (λ s. s.journal)
    observation ← observe (env.link_observe name (some marker.link_token))
    let state = owned_link marker observation
    if is_unknown_link state
        then pure (HelperExit.runtime_failed, false)
        else if is_conflict_link state
        then pure (HelperExit.interface_conflict, false)
        else if is_absent_link state
        then pure (HelperExit.success, false)
        else if marker.ifindex == 0
        then (do
          modify (adopt_ifindex (token_ifindex_in observation))
          written ← write_runtime_marker name
          pure (if written then HelperExit.success else HelperExit.runtime_failed, true))
        else pure (HelperExit.success, true)

  unfoldable pub phase_stop_status : ℤ → Action World HelperExit
  unfolding ◌>>=◌
  phase_stop_status deadline = do
    requested ← observe env.termination_requested
    if requested then pure HelperExit.child_signaled else (do
      now ← observe env.monotonic_msec
      pure (
          if ltb_ℤ now (pos 0) || not (ltb_ℤ now deadline)
          then HelperExit.timed_out
          else HelperExit.success))

  unfoldable pub phase_failure_or : ℤ → HelperExit → Action World HelperExit
  unfolding phase_stop_status is_success
  phase_failure_or deadline fallback = do
    stop ← phase_stop_status deadline
    pure (if is_success stop then fallback else stop)
