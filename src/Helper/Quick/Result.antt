-- ===== src/Helper/Quick/Result.antt =====
-- The result of a run of awg-quick: the end of amneziawg_quick_diagnostics.c, and
-- awg_helper_quick_run in amneziawg_helper_quick.c behind its subprocess, which is a parameter.
use network_manager_sidebar.Base.{ℕ, Bool, true, false, not, ◌&&◌, leb, ◌==◌, if◌then◌else◌}
use network_manager_sidebar.Names.Exit.{HelperExit}
use network_manager_sidebar.Helper.Environment.{QuickExecution, QuickResult}
use network_manager_sidebar.Helper.Quick.{Stage, stage_code, Diagnostics}
use network_manager_sidebar.Helper.Quick.Classify.{finish}

-- awg_quick_diagnostics_failure_status.
abbrev stage_failure : Stage → HelperExit
stage_failure Stage.interface = HelperExit.interface_creation_failed
stage_failure Stage.userspace = HelperExit.userspace_failed
stage_failure Stage.setconf = HelperExit.setconf_failed
stage_failure Stage.address = HelperExit.address_failed
stage_failure Stage.mtu = HelperExit.mtu_failed
stage_failure Stage.dns = HelperExit.dns_failed
stage_failure Stage.route = HelperExit.route_failed
stage_failure Stage.firewall = HelperExit.firewall_failed
stage_failure Stage.no_stage = HelperExit.awg_quick_failed

unfoldable pub failure_status : Diagnostics → HelperExit
failure_status d =
    stage_failure
      (if not (stage_code d.failure_candidate == 0) then d.failure_candidate else d.current_stage)

-- AwgSubprocessStatus.
pub data SubprocessStatus : Type 0 where
  exited setup_failed io_failed output_too_large timed_out cancelled : SubprocessStatus

-- What WIFEXITED, WEXITSTATUS and WIFSIGNALED tell of a wait status.
pub data WaitStatus : Type 0 where
  exited_with : ℕ → WaitStatus
  signaled other_status : WaitStatus

-- AwgSubprocessResult.
pub record SubprocessResult : Type 0 where
  pub status : SubprocessStatus
  pub may_have_run : Bool
  pub wait_status : WaitStatus
  pub diagnostics_complete : Bool

abbrev is_exited : SubprocessStatus → Bool
is_exited SubprocessStatus.exited = true
is_exited _ = false

abbrev has_failed_by_itself : WaitStatus → Bool
has_failed_by_itself (WaitStatus.exited_with code) = not (code == 0) && not (code == 127)
has_failed_by_itself _ = false

unfoldable pub failed_before_routes : Diagnostics → SubprocessResult → Bool
failed_before_routes d child =
    is_exited child.status
    && child.diagnostics_complete
    && has_failed_by_itself child.wait_status
    && d.interface_seen
    && d.teardown_seen
    && not d.recovery_blocked
    && leb 1 (stage_code d.current_stage)
    && leb (stage_code d.current_stage) 5

-- The status of a child that ended.
unfoldable pub wait_result : Bool → Diagnostics → WaitStatus → HelperExit
unfolding failure_status
wait_result is_up d WaitStatus.signaled = HelperExit.child_signaled
wait_result is_up d WaitStatus.other_status = HelperExit.awg_quick_failed
wait_result is_up d (WaitStatus.exited_with code) =
    if code == 0
    then HelperExit.success
    else if is_up && not (stage_code d.current_stage == 0)
    then failure_status d
    else if code == 127
    then HelperExit.child_setup_failed
    else HelperExit.awg_quick_failed

unfoldable pub child_result : Bool → Diagnostics → SubprocessStatus → WaitStatus → HelperExit
unfolding wait_result
child_result is_up d SubprocessStatus.cancelled wait_status = HelperExit.child_signaled
child_result is_up d SubprocessStatus.timed_out wait_status = HelperExit.timed_out
child_result is_up d SubprocessStatus.exited wait_status = wait_result is_up d wait_status
child_result is_up d _ wait_status = HelperExit.child_setup_failed

-- awg_helper_quick_run behind the subprocess, for up and down.
unfoldable pub quick_result : Bool → Diagnostics → SubprocessResult → QuickResult
unfolding child_result failed_before_routes finish
quick_result is_up d child =
    let finished = finish d in
    record {
      status = child_result is_up finished child.status child.wait_status;
      execution =
          if child.may_have_run then QuickExecution.may_have_run else QuickExecution.not_started;
      failed_before_routes = is_up && failed_before_routes finished child;
    }
