-- ===== src/Helper/Safe.antt =====
-- The order in which the helper does things, read off the log of a session: the writes of the
-- journal that have to come before a change, and the end of the changes to a resolver whose state
-- was lost.
pub mod Dns
pub mod Down
pub mod Activate
pub mod Interface
pub mod Cleanup
use network_manager_sidebar.Base.{
  ◌≡◌, refl, Bool, true, false, not, ◌&&◌, ◌||◌, List, [], ◌∷◌, if◌then◌else◌, Bytes, equal, arith,
}
use network_manager_sidebar.Journal.{RuntimeMarker}
use network_manager_sidebar.Journal.Classify.{is_absent, is_unknown, is_unconfirmed, is_complete}
use network_manager_sidebar.Helper.Environment.{
  Environment, StorageArea, DnsChangeOutcome, QuickResult,
}
use network_manager_sidebar.Helper.State.{
  Session, State, Action, Event, gets, perform, modify, ◌>>=◌,
}
use network_manager_sidebar.Helper.Keeps.{
  Leaves, Keeps, Leaves-bind, Leaves-gets, Leaves-perform, Leaves-modify,
}
use network_manager_sidebar.Helper.Session.{write_runtime_marker}
use network_manager_sidebar.Helper.Tunnel.Dns.{is_uncertain}

-- The last thing done was the write of a journal that passes the test.
unfoldable pub has_written : (RuntimeMarker → Bool) → List Event → Bool
has_written test (Event.wrote_marker name marker written ∷ before) = written && test marker
has_written test _ = false

-- A journal that allows its own removal: nothing of the session is left.
unfoldable pub is_cleaned : RuntimeMarker → Bool
is_cleaned marker = is_complete marker.state && is_absent marker.dns_state && not marker.was_active

unfoldable pub is_removed_config : Event → Bool
is_removed_config (Event.removed StorageArea.runtime_configs name done) = done
is_removed_config _ = false

-- Two runtime files were removed, right behind the write of a cleaned journal.
unfoldable pub has_removed_configs : List Event → Bool
unfolding has_written is_removed_config is_cleaned
has_removed_configs (second ∷ first ∷ before) =
    is_removed_config second && is_removed_config first && has_written is_cleaned before
has_removed_configs _ = false

-- A change to a resolver whose outcome is unknown.
unfoldable pub is_lost : Event → Bool
unfolding is_uncertain
is_lost (Event.dns_changed outcome) = is_uncertain outcome.result
is_lost _ = false

unfoldable pub has_lost : List Event → Bool
unfolding is_lost
has_lost [] = false
has_lost (event ∷ before) = is_lost event || has_lost before

abbrev pub dns_is_unknown : RuntimeMarker → Bool
dns_is_unknown marker = is_unknown marker.dns_state

abbrev pub cleanup_is_unconfirmed : RuntimeMarker → Bool
cleanup_is_unconfirmed marker = is_unconfirmed marker.state

abbrev pub any_marker : RuntimeMarker → Bool
any_marker marker = true

-- What has to come before an event.
unfoldable pub may_follow : Event → List Event → Bool
unfolding has_written has_lost has_removed_configs
may_follow (Event.dns_changed outcome) before =
    has_written dns_is_unknown before && not (has_lost before)
may_follow (Event.ran_down quick) before = has_written cleanup_is_unconfirmed before
may_follow (Event.ran_up quick) before = has_written any_marker before
may_follow (Event.removed StorageArea.runtime name done) before = has_removed_configs before
may_follow _ before = true

unfoldable pub is_safe_log : List Event → Bool
unfolding may_follow
is_safe_log [] = true
is_safe_log (event ∷ before) = may_follow event before && is_safe_log before

-- The log is safe, and a lost resolver is blocked.
unfoldable pub IsSafe : Session → Type 0
unfolding is_safe_log
IsSafe s = (is_safe_log s.log ≡ true) × (has_lost s.log && not s.dns_recovery_blocked ≡ false)

-- Safe, behind the write of a journal with a test, if it succeeded.
unfoldable pub IsSafeBehind : (RuntimeMarker → Bool) → Bool → Session → Type 0
unfolding IsSafe has_written
IsSafeBehind test written s =
    IsSafe s × (not written || (has_written test s.log && test s.journal) ≡ true)

module _ {World : Type 0} (env : Environment World) where
  pub write_runtime_marker-IsSafeBehind :
      (test : RuntimeMarker → Bool) (name : Bytes)
      → Leaves
          (λ s. IsSafe s × (test s.journal ≡ true))
          (write_runtime_marker env name)
          (IsSafeBehind test)
  unfolding write_runtime_marker ◌>>=◌ gets perform IsSafeBehind has_lost may_follow
  write_runtime_marker-IsSafeBehind test name = record { at = λ s h. ground arith }

  pub write_runtime_marker-IsSafe : (name : Bytes) → Keeps IsSafe (write_runtime_marker env name)
  unfolding write_runtime_marker ◌>>=◌ gets perform IsSafe has_lost may_follow
  write_runtime_marker-IsSafe name = record { at = λ s h. ground arith }
