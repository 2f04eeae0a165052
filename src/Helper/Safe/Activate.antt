-- ===== src/Helper/Safe/Activate.antt =====
-- The activation of a session keeps the order of the log.
use network_manager_sidebar.Base.{◌≡◌, refl, Bool, true, false, Option, none, some, Bytes, arith}
use network_manager_sidebar.Names.Exit.{HelperExit}
use network_manager_sidebar.Deadline.{Deadlines}
use network_manager_sidebar.Helper.Environment.{Environment, QuickResult}
use network_manager_sidebar.Helper.State.{State, Action, Event, pure, perform, modify}
use network_manager_sidebar.Helper.Keeps.{
  Leaves, Keeps, Leaves-perform, Leaves-modify, Leaves-if, Leaves-pure, starting, Leaves-weaken,
  keeps_rules,
}
use network_manager_sidebar.Helper.Reads.{
  phase_stop_status-Keeps, phase_failure_or-Keeps, runtime_state-Keeps,
}
use network_manager_sidebar.Helper.Session.{write_runtime_marker}
use network_manager_sidebar.Helper.Tunnel.Prepare.{Activation}
use network_manager_sidebar.Helper.Tunnel.Activate.{
  set_active, unset_active, atomic_write, roll_back, unless_stopped, confirm_session, commit_active,
  apply_resolver, adopt_interface, finish_started, finish_failed, discard_unstarted, run_up,
  write_entries, start_tunnel, settle_processes, activate_fresh, tunnel_activate,
}
use network_manager_sidebar.Helper.Safe.{
  IsSafe, IsSafeBehind, is_safe_log, has_lost, may_follow, any_marker, write_runtime_marker-IsSafe,
  write_runtime_marker-IsSafeBehind,
}
use network_manager_sidebar.Helper.Safe.Dns.{apply_dns_durably-IsSafe}
use network_manager_sidebar.Helper.Safe.Cleanup.{
  include_current_firewall_scope-IsSafe, refresh_owned_interface-IsSafe,
  discard_unstarted_runtime-IsSafe, try_finalize_early_up_failure-IsSafe,
}
use network_manager_sidebar.Helper.Safe.Interface.{rollback_activation-IsSafe}
use network_manager_sidebar.Helper.Safe.Down.{set_journal-IsSafe}

module _ {World : Type 0} (env : Environment World) (activation : Activation)
    (deadlines : Deadlines) where
  set_active-IsSafe : Keeps {World = World} IsSafe (modify set_active)
  unfolding IsSafe set_active
  set_active-IsSafe = Leaves-modify set_active (λ s h. h)

  unset_active-IsSafe : Keeps {World = World} IsSafe (modify unset_active)
  unfolding IsSafe unset_active
  unset_active-IsSafe = Leaves-modify unset_active (λ s h. h)

  atomic_write-IsSafe :
      (file contents : Bytes) → Keeps IsSafe (atomic_write env activation deadlines file contents)
  unfolding atomic_write IsSafe is_safe_log may_follow has_lost
  atomic_write-IsSafe file contents = Leaves-perform _ _ (λ a s h. ground arith)

  roll_back-IsSafe :
      (failure : HelperExit) → Keeps IsSafe (roll_back env activation deadlines failure)
  unfolding roll_back
  roll_back-IsSafe failure = rollback_activation-IsSafe env _ _ _ failure deadlines.cleanup_at

  unless_stopped-IsSafe :
      (next : Action World HelperExit)
      → Keeps IsSafe next
      → Keeps IsSafe (unless_stopped env activation deadlines next)
  unfolding unless_stopped
  unless_stopped-IsSafe next kn = search (keeps_rules, phase_stop_status-Keeps, roll_back-IsSafe)

  confirm_session-IsSafe : Keeps IsSafe (confirm_session env activation deadlines)
  unfolding confirm_session
  confirm_session-IsSafe = search (keeps_rules, runtime_state-Keeps, roll_back-IsSafe)

  commit_active-IsSafe : Keeps IsSafe (commit_active env activation deadlines)
  unfolding commit_active
  commit_active-IsSafe =
      search
        (
          keeps_rules, set_active-IsSafe, unset_active-IsSafe, write_runtime_marker-IsSafe,
          unless_stopped-IsSafe, confirm_session-IsSafe, roll_back-IsSafe,
        )
        depth 10

  apply_resolver-IsSafe : Keeps IsSafe (apply_resolver env activation deadlines)
  unfolding apply_resolver
  apply_resolver-IsSafe =
      search
        (
          keeps_rules, apply_dns_durably-IsSafe, phase_failure_or-Keeps, unless_stopped-IsSafe,
          commit_active-IsSafe, roll_back-IsSafe,
        )
        depth 10

  adopt_interface-IsSafe : Keeps IsSafe (adopt_interface env activation deadlines)
  unfolding adopt_interface
  adopt_interface-IsSafe =
      search
        (
          keeps_rules, refresh_owned_interface-IsSafe, unless_stopped-IsSafe, apply_resolver-IsSafe,
          roll_back-IsSafe,
        )
        depth 10

  finish_started-IsSafe : Keeps IsSafe (finish_started env activation deadlines)
  unfolding finish_started
  finish_started-IsSafe =
      search
        (
          keeps_rules, phase_stop_status-Keeps, unless_stopped-IsSafe, adopt_interface-IsSafe,
          roll_back-IsSafe,
        )
        depth 10

  finish_failed-IsSafe :
      (quick : QuickResult) (result : HelperExit)
      → Keeps IsSafe (finish_failed env activation deadlines quick result)
  unfolding finish_failed
  finish_failed-IsSafe quick result =
      search (keeps_rules, try_finalize_early_up_failure-IsSafe, roll_back-IsSafe)

  discard_unstarted-IsSafe : Keeps IsSafe (discard_unstarted env activation deadlines)
  unfolding discard_unstarted
  discard_unstarted-IsSafe = discard_unstarted_runtime-IsSafe env _ _ deadlines.cleanup_at

  up-IsSafe :
      (written : Bool) (change : World → QuickResult × World)
      → written ≡ true
      → Leaves (IsSafeBehind any_marker written) (perform Event.ran_up change) (λ _. IsSafe)
  unfolding IsSafeBehind IsSafe is_safe_log may_follow has_lost
  up-IsSafe written change w = Leaves-perform Event.ran_up change (λ a s h. ground arith)

  run_up-IsSafe :
      (written : Bool)
      → written ≡ true
      → Leaves (IsSafeBehind any_marker written) (run_up env activation deadlines) (λ _. IsSafe)
  unfolding run_up
  run_up-IsSafe written w =
      let ran = λ (change : World → QuickResult × World). starting (up-IsSafe written change w) in
      search
        (
          ran, keeps_rules, discard_unstarted-IsSafe, include_current_firewall_scope-IsSafe,
          write_runtime_marker-IsSafe, finish_started-IsSafe, finish_failed-IsSafe,
        )
        depth 12

  not_written : Leaves {World = World} IsSafe (pure false) (IsSafeBehind any_marker)
  unfolding IsSafeBehind
  not_written = Leaves-pure false (λ s h. (h, refl))

  write_journal : Leaves IsSafe (write_runtime_marker env activation.name) (IsSafeBehind any_marker)
  write_journal =
      Leaves-weaken (λ s h. (h, refl))
        (write_runtime_marker-IsSafeBehind env any_marker activation.name)

  write_entries-IsSafe :
      (dns_name : Bytes)
      → Leaves IsSafe (write_entries env activation deadlines dns_name) (IsSafeBehind any_marker)
  unfolding write_entries
  write_entries-IsSafe dns_name =
      search (keeps_rules, atomic_write-IsSafe, not_written, write_journal, Leaves-if) depth 10

  discard_behind :
      (written : Bool)
      → Leaves
          (IsSafeBehind any_marker written)
          (discard_unstarted env activation deadlines)
          (λ _. IsSafe)
  unfolding IsSafeBehind
  discard_behind written = Leaves-weaken (λ s h. h.0) discard_unstarted-IsSafe

  start_tunnel-IsSafe :
      (dns_name : Bytes) → Keeps IsSafe (start_tunnel env activation deadlines dns_name)
  unfolding start_tunnel
  start_tunnel-IsSafe dns_name =
      let wrote = starting (write_entries-IsSafe dns_name) in
      let discarded = λ (written : Bool). starting (discard_behind written) in
      search (wrote, discarded, run_up-IsSafe, Leaves-if, keeps_rules) depth 10

  settle_processes-IsSafe :
      (result : HelperExit) → Keeps IsSafe (settle_processes env activation deadlines result)
  unfolding settle_processes
  settle_processes-IsSafe result =
      search (keeps_rules, phase_stop_status-Keeps, roll_back-IsSafe) depth 12

  activate_fresh-IsSafe : Keeps IsSafe (activate_fresh env activation deadlines)
  unfolding activate_fresh
  activate_fresh-IsSafe =
      search
        (
          keeps_rules,
          set_journal-IsSafe env,
          phase_stop_status-Keeps,
          runtime_state-Keeps,
          start_tunnel-IsSafe,
          settle_processes-IsSafe,
        )
        depth 16

module _ {World : Type 0} (env : Environment World) (deadlines : Deadlines) where
  activate-Keeps :
      (activation : Option Activation) → Keeps IsSafe (tunnel_activate env activation deadlines)
  unfolding tunnel_activate
  activate-Keeps none = search keeps_rules
  activate-Keeps (some activation) = search (keeps_rules, activate_fresh-IsSafe)

  -- Whatever the machine answers, an activation keeps the log safe in the same way, all its
  -- rollbacks included, and awg-quick up runs only right behind a successful write of the journal.
  pub tunnel_activate-IsSafe :
      (activation : Option Activation) (s : State World)
      → IsSafe s.session
      → IsSafe (tunnel_activate env activation deadlines s).1.session
  tunnel_activate-IsSafe activation s safe = (activate-Keeps activation).at s safe
