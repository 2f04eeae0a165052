-- ===== src/Helper/Outcomes/Down.antt =====
-- What it means that a session was taken down.
use network_manager_sidebar.Base.{
  ◌≡◌, refl, Bool, true, false, not, ◌&&◌, ◌⊎◌, inl, inr, List, ◌∷◌, Option, Bytes, ℤ, equal,
  equal_refl, arith,
}
use network_manager_sidebar.Names.Exit.{HelperExit, is_success}
use network_manager_sidebar.Journal.{RuntimeMarker}
use network_manager_sidebar.Deadline.{Deadlines}
use network_manager_sidebar.Dns.{DnsConfig}
use network_manager_sidebar.Helper.Environment.{Environment, StorageArea}
use network_manager_sidebar.Helper.State.{Session, State, Action, Event, pure, modify}
use network_manager_sidebar.Helper.Reads.{phase_stop_status-Keeps, runtime_state-Keeps}
use network_manager_sidebar.Helper.Keeps.{
  Leaves, Keeps, Leaves-pure, Leaves-modify, Leaves-on_success, Leaves-if, starting, Keeps-bind,
  Keeps-observe,
}
use network_manager_sidebar.Helper.Session.{set_journal}
use network_manager_sidebar.Helper.Tunnel.{Teardown}
use network_manager_sidebar.Helper.Tunnel.Cleanup.{
  remove_entries, finalize_runtime_entries, verify_firewall, verify_runtime_cleanup,
}
use network_manager_sidebar.Helper.Tunnel.Down.{
  down_failure, abort_down, take_down, revert_and_take_down, down_checked, down_identified,
  down_marked, down_settled, tunnel_down,
}
use network_manager_sidebar.Helper.Outcomes.{Ends, Ends-same, Ends-bind, ends_rules}
use network_manager_sidebar.Helper.Outcomes.Failures.{
  failing-Ends, abort_before_interface_teardown-Ends,
}

-- The last thing done was the removal of the journal of a session.
unfoldable pub has_removed_journal : Bytes → List Event → Bool
has_removed_journal name (Event.removed StorageArea.runtime removed_name done ∷ before) =
    done && equal removed_name name
has_removed_journal name _ = false

unfoldable pub removed_journal : Bytes → Session → Bool
unfolding has_removed_journal
removed_journal name s = has_removed_journal name s.log

down_failure-fails : (teardown : Teardown) → is_success (down_failure teardown) ≡ false
unfolding down_failure is_success
down_failure-fails teardown = ground arith

module _ {World : Type 0} (env : Environment World) (name config_name : Bytes) where
  remove_entries-Ends :
      (dns_name : Bytes)
      → Ends (removed_journal name) (remove_entries env name config_name dns_name)
  unfolding remove_entries removed_journal is_success
  remove_entries-Ends dns_name = record {
    at = λ s h. record { holds = ground (arith, equal_refl name) };
  }

  finalize_runtime_entries-Ends :
      Ends (removed_journal name) (finalize_runtime_entries env name config_name)
  unfolding finalize_runtime_entries is_success
  finalize_runtime_entries-Ends = search (ends_rules, remove_entries-Ends) depth 10

  verify_firewall-Ends :
      (deadline : ℤ) → Ends (removed_journal name) (verify_firewall env name config_name deadline)
  unfolding verify_firewall is_success
  verify_firewall-Ends deadline = search (ends_rules, finalize_runtime_entries-Ends) depth 12

  verify_runtime_cleanup-Ends :
      (deadline : ℤ)
      → Ends (removed_journal name) (verify_runtime_cleanup env name config_name deadline)
  unfolding verify_runtime_cleanup is_success
  verify_runtime_cleanup-Ends deadline = search (ends_rules, verify_firewall-Ends) depth 12

  module _ (snapshot_path : Bytes) (deadlines : Deadlines) where
    abort_down-Ends :
        (dns : Option DnsConfig) (began_active : Bool) (failure : HelperExit)
        → is_success failure ≡ false
        → Ends
            (removed_journal name)
            (abort_down env name config_name snapshot_path deadlines dns began_active failure)
    unfolding abort_down
    abort_down-Ends dns began_active failure f =
        let aborted = starting (
          abort_before_interface_teardown-Ends env {test = removed_journal name} name dns
            began_active failure deadlines.cleanup_at f) in
        search (aborted, Ends-same, Keeps-bind, Keeps-observe, Ends-bind) depth 8

    take_down-Ends :
        (dns : Option DnsConfig) (began_active : Bool)
        → Ends
            (removed_journal name)
            (take_down env name config_name snapshot_path deadlines dns began_active)
    unfolding take_down is_success
    take_down-Ends dns began_active =
        search (ends_rules, verify_runtime_cleanup-Ends, abort_down-Ends, down_failure-fails) depth
          10

    revert_and_take_down-Ends :
        (dns : Option DnsConfig) (began_active : Bool)
        → Ends
            (removed_journal name)
            (revert_and_take_down env name config_name snapshot_path deadlines dns began_active)
    unfolding revert_and_take_down is_success
    revert_and_take_down-Ends dns began_active =
        search (ends_rules, take_down-Ends, failing-Ends, abort_down-Ends) depth 14

    down_checked-Ends :
        Ends (removed_journal name) (down_checked env name config_name snapshot_path deadlines)
    unfolding down_checked is_success
    down_checked-Ends = search (ends_rules, revert_and_take_down-Ends) depth 10

    down_identified-Ends :
        (marker : RuntimeMarker) (interface : Bool)
        → Ends
            (removed_journal name)
            (down_identified env name config_name snapshot_path deadlines marker interface)
    unfolding down_identified is_success
    down_identified-Ends marker interface = search (ends_rules, down_checked-Ends) depth 10

    down_marked-Ends :
        (marker : RuntimeMarker) (interface : Bool)
        → Ends
            (removed_journal name)
            (down_marked env name config_name snapshot_path deadlines marker interface)
    unfolding down_marked is_success
    down_marked-Ends marker interface = search (ends_rules, down_identified-Ends) depth 10

    down_settled-Ends :
        (marker : RuntimeMarker) (interface : Bool)
        → Ends
            (removed_journal name)
            (down_settled env name config_name snapshot_path deadlines marker interface)
    unfolding down_settled is_success
    down_settled-Ends marker interface =
        search (ends_rules, finalize_runtime_entries-Ends, verify_runtime_cleanup-Ends) depth 10

-- Behind a success the journal was removed last, or nothing was done at all.
pub record Settles (name : Bytes) (log : List Event) (result : HelperExit) (s : Session)
    : Type 0 where
  pub holds : is_success result ≡ true → (has_removed_journal name s.log ≡ true) ⊎ (s.log ≡ log)

module _ {World : Type 0} {name : Bytes} {log : List Event} where
  Settles-failure :
      (result : HelperExit)
      → is_success result ≡ false
      → Leaves {World = World} (λ s. s.log ≡ log) (pure result) (Settles name log)
  Settles-failure result f = Leaves-pure result (λ s h. record { holds = λ e. cc })

  Settles-unsuccessful :
      (result : HelperExit)
      → not (is_success result) ≡ true
      → Leaves {World = World} (λ s. s.log ≡ log) (pure result) (Settles name log)
  Settles-unsuccessful result f = Leaves-pure result (λ s h. record { holds = λ e. ground arith })

  Settles-untouched :
      (result : HelperExit)
      → Leaves {World = World} (λ s. s.log ≡ log) (pure result) (Settles name log)
  Settles-untouched result = Leaves-pure result (λ s h. record { holds = λ e. inr h })

  Settles-ended :
      (m : Action World HelperExit)
      → Ends (removed_journal name) m
      → Leaves (λ s. s.log ≡ log) m (Settles name log)
  unfolding removed_journal
  Settles-ended m km = record {
    at = λ s h. record { holds = λ e. inl (let done = (km.at s tt).holds in ground arith) };
  }

module _ {World : Type 0} (env : Environment World) (name config_name snapshot_path : Bytes)
    (deadlines : Deadlines) where
  same_journal :
      {log : List Event} (marker : RuntimeMarker)
      → Keeps {World = World} (λ s. s.log ≡ log) (modify (set_journal marker))
  unfolding set_journal
  same_journal marker = Leaves-modify (set_journal marker) (λ s h. h)

  pub tunnel_down-Settles :
      {log : List Event}
      → Leaves
          (λ s. s.log ≡ log)
          (tunnel_down env name config_name snapshot_path deadlines)
          (Settles name log)
  unfolding tunnel_down
  tunnel_down-Settles =
      search
        (
          Leaves-on_success, phase_stop_status-Keeps, Settles-failure, Keeps-bind,
          runtime_state-Keeps, Leaves-if, Settles-unsuccessful, Settles-untouched, same_journal,
          Settles-ended, down_settled-Ends, down_marked-Ends,
        )
        depth 14

  -- If taking a session down reports success, then the last thing it did was to remove the journal
  -- of that session, or it did nothing: no write, no change of the resolver, no run of awg-quick,
  -- and no removal.
  pub tunnel_down-success :
      (s : State World)
      → is_success (tunnel_down env name config_name snapshot_path deadlines s).0 ≡ true
      → (has_removed_journal name
            (tunnel_down env name config_name snapshot_path deadlines s).1.session.log
          ≡ true)
        ⊎ ((tunnel_down env name config_name snapshot_path deadlines s).1.session.log
            ≡ s.session.log)
  tunnel_down-success s = ((tunnel_down-Settles {log = s.session.log}).at s refl).holds
