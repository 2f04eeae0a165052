-- ===== src/Helper/Outcomes/Activate.antt =====
-- What it means that a session was activated.
use network_manager_sidebar.Base.{
  ◌≡◌, refl, Bool, true, false, not, ◌&&◌, Option, none, some, Bytes, arith, if◌then◌else◌,
}
use network_manager_sidebar.Names.Exit.{HelperExit, is_success}
use network_manager_sidebar.Deadline.{Deadlines}
use network_manager_sidebar.Helper.Environment.{Environment, QuickResult}
use network_manager_sidebar.Helper.State.{State, pure}
use network_manager_sidebar.Helper.Keeps.{
  Leaves, Leaves-pure, Leaves-if, starting, Keeps-bind, Keeps-observe,
}
use network_manager_sidebar.Helper.Reads.{phase_stop_status-Keeps}
use network_manager_sidebar.Helper.Session.{RuntimeStatus}
use network_manager_sidebar.Helper.Tunnel.Cleanup.{try_finalize_early_up_failure}
use network_manager_sidebar.Helper.Tunnel.Prepare.{Activation, Prepared, occupied}
use network_manager_sidebar.Helper.Tunnel.Activate.{
  final_result, finish_failed, run_up, start_tunnel, settle_processes, activate_fresh,
  tunnel_activate,
}
use network_manager_sidebar.Helper.Safe.{has_written}
use network_manager_sidebar.Helper.Outcomes.{
  Any-bind, Any, Confirms, Ends, Ends-failure, Ends-same, Ends-bind, ends_rules,
}
use network_manager_sidebar.Helper.Outcomes.Failures.{or_else-fails, kept-fails}
use network_manager_sidebar.Helper.Outcomes.Commit.{
  is_active_marker, written_active, roll_back-Ends, finish_started-Ends,
}

module _ {World : Type 0} (env : Environment World) (activation : Activation)
    (deadlines : Deadlines) where
  final_none :
      (result : HelperExit)
      → is_success result ≡ false
      → Leaves {World = World} Any
          (pure none)
          (λ final _. is_success (final_result final result) ≡ false)
  final_none result f = Leaves-pure none (λ s h. f)

  final_some :
      (cleanup result : HelperExit)
      → is_success result ≡ false
      → Leaves {World = World} Any
          (pure (some (if is_success cleanup then result else cleanup)))
          (λ final _. is_success (final_result final result) ≡ false)
  final_some cleanup result f = Leaves-pure _ (λ s h. kept-fails cleanup result f)

  early_failure-fails :
      (quick : QuickResult) (result : HelperExit)
      → is_success result ≡ false
      → Leaves Any
          (try_finalize_early_up_failure env activation.name activation.config_name quick
            deadlines.cleanup_at result)
          (λ final _. is_success (final_result final result) ≡ false)
  unfolding try_finalize_early_up_failure
  early_failure-fails quick result f =
      search (Any-bind, Leaves-if, final_none, final_some, f) depth 10

  final_failure :
      (final : Option HelperExit) (result : HelperExit)
      → Leaves {World = World}
          (λ s. is_success (final_result final result) ≡ false)
          (pure (final_result final result))
          (Confirms written_active)
  final_failure final result = Leaves-pure _ (λ s h. record { holds = ground arith })

  finish_failed-Ends :
      (quick : QuickResult) (result : HelperExit)
      → is_success result ≡ false
      → Ends written_active (finish_failed env activation deadlines quick result)
  unfolding finish_failed
  finish_failed-Ends quick result f =
      let early = starting (early_failure-fails quick result f) in
      search (early, Leaves-if, final_failure, roll_back-Ends, f) depth 8

  unstarted-fails :
      (cleanup failure : HelperExit) (unstarted : Bool)
      → not (is_success failure) && unstarted ≡ true
      → is_success (if is_success cleanup then failure else cleanup) ≡ false
  unstarted-fails cleanup failure unstarted f = ground arith

  unstarted-Ends :
      (cleanup failure : HelperExit) (unstarted : Bool)
      → not (is_success failure) && unstarted ≡ true
      → Ends {World = World} written_active (pure (if is_success cleanup then failure else cleanup))
  unstarted-Ends cleanup failure unstarted f =
      Ends-failure _ (unstarted-fails cleanup failure unstarted f)

  run_up-Ends : Ends written_active (run_up env activation deadlines)
  unfolding run_up
  run_up-Ends =
      search (Ends-bind, Leaves-if, unstarted-Ends, finish_started-Ends, finish_failed-Ends) depth
        12

  start_tunnel-Ends :
      (dns_name : Bytes) → Ends written_active (start_tunnel env activation deadlines dns_name)
  unfolding start_tunnel is_success
  start_tunnel-Ends dns_name = search (ends_rules, run_up-Ends, or_else-fails) depth 10

  kept_result :
      (terminated : Bool) (result : HelperExit)
      → Leaves {World = World}
          (Confirms written_active result)
          (pure (if terminated then result else HelperExit.rollback_failed))
          (Confirms written_active)
  unfolding is_success
  kept_result true result = Ends-same result
  kept_result false result = Ends-failure HelperExit.rollback_failed refl

  stop-fails :
      (stop : HelperExit)
      → is_success (if is_success stop then HelperExit.child_signaled else stop) ≡ false
  unfolding is_success
  stop-fails stop = kept-fails stop HelperExit.child_signaled refl

  settle_processes-Ends :
      (result : HelperExit)
      → Leaves
          (Confirms written_active result)
          (settle_processes env activation deadlines result)
          (Confirms written_active)
  unfolding settle_processes
  settle_processes-Ends result =
      let rolled_back = λ (stop : HelperExit). starting (
        roll_back-Ends env activation deadlines {P = Confirms written_active result}
          (if is_success stop then HelperExit.child_signaled else stop) (stop-fails stop)) in
      search
        (
          rolled_back, kept_result, Ends-same, Leaves-if, Keeps-bind, Keeps-observe,
          phase_stop_status-Keeps,
        )
        depth 12

  occupied-fails : (runtime : RuntimeStatus) → is_success (occupied runtime) ≡ false
  unfolding occupied is_success
  occupied-fails runtime = ground arith

  activate_fresh-Ends : Ends written_active (activate_fresh env activation deadlines)
  unfolding activate_fresh is_success
  activate_fresh-Ends =
      let started = λ (dns_name : Bytes). starting (start_tunnel-Ends dns_name) in
      search (started, settle_processes-Ends, ends_rules, occupied-fails) depth 14

module _ {World : Type 0} (env : Environment World) (deadlines : Deadlines) where
  usage_answer :
      (activation : Option Activation)
      → Leaves {World = World} {A = Prepared} Any
          (pure (HelperExit.usage, activation))
          (λ answer. Confirms written_active answer.0)
  unfolding is_success
  usage_answer activation =
      Leaves-pure (HelperExit.usage, activation) (λ s h. record { holds = refl })

  answer :
      (result : HelperExit) (activation : Option Activation)
      → Leaves {World = World} {A = Prepared}
          (Confirms written_active result)
          (pure (result, activation))
          (λ answer. Confirms written_active answer.0)
  answer result activation = Leaves-pure (result, activation) (λ s h. h)

  tunnel_activate-Ends :
      (activation : Option Activation)
      → Leaves {A = Prepared} Any
          (tunnel_activate env activation deadlines)
          (λ answer. Confirms written_active answer.0)
  unfolding tunnel_activate
  tunnel_activate-Ends none = usage_answer none
  tunnel_activate-Ends (some activation) =
      let fresh = starting (activate_fresh-Ends env activation deadlines) in
      search (fresh, Leaves-if, usage_answer, answer)

  -- An activation that reports success wrote the journal as active, with was_active set and with
  -- success, and did nothing after that: no later write, no rollback and no removal.
  pub tunnel_activate-success :
      (activation : Option Activation) (s : State World)
      → is_success (tunnel_activate env activation deadlines s).0.0 ≡ true
      → has_written is_active_marker (tunnel_activate env activation deadlines s).1.session.log
        ≡ true
  unfolding written_active
  tunnel_activate-success activation s e =
      let ended = ((tunnel_activate-Ends activation).at s tt).holds in ground (arith, ended, e)
