-- ===== src/Examples/Tunnels.antt =====
-- The sessions of the helper on a concrete machine.
use network_manager_sidebar.Base.{
  all, ◌≡◌, ◌↔◌, ◌⊎◌, refl, true, false, some, List, [], length, ◌∷◌, Bytes, codes,
}
use network_manager_sidebar.Names.Exit.{is_success}
use network_manager_sidebar.Journal.Classify.{runtime_state_classify}
use network_manager_sidebar.Journal.Marker.{runtime_marker_fields_are_valid}
use network_manager_sidebar.Admission.{runtime_can_disconnect}
use network_manager_sidebar.Dns.Payload.{parse}
use network_manager_sidebar.Names.{name_is_valid, link_token_is_valid}
use network_manager_sidebar.Helper.Session.{marked_status, owned_link as owned_link_of}
use network_manager_sidebar.Helper.Tunnel.Activate.{tunnel_activate}
use network_manager_sidebar.Helper.Tunnel.Admit.{down_decision}
use network_manager_sidebar.Helper.Tunnel.Down.{tunnel_down}
use network_manager_sidebar.Helper.Quick.{
  no_diagnostics, is_link_delete, is_fallback_marker, line_is_teardown_command, stage_of_line,
  is_cleanup_capable, line_is_link_claim,
}
use network_manager_sidebar.Helper.Quick.Classify.{
  finish, consume_byte, append_byte, classify_line, is_unknown_command,
}
use network_manager_sidebar.Helper.Quick.Result.{
  SubprocessStatus, WaitStatus, SubprocessResult, failed_before_routes,
}
use network_manager_sidebar.Helper.Quick.Early.{
  is_early_line, complete_lines, unended, consume_pieces, joined, failed_before_routes-early,
}
use network_manager_sidebar.Helper.Switch.{
  admit_previous, switch_prepared, previous_session_failure,
}
use network_manager_sidebar.Helper.Remove.{helper_remove}
use network_manager_sidebar.Helper.Safe.{IsSafe, has_written}
use network_manager_sidebar.Helper.Safe.Down.{tunnel_down-IsSafe}
use network_manager_sidebar.Helper.Safe.Activate.{tunnel_activate-IsSafe}
use network_manager_sidebar.Helper.Outcomes.Down.{has_removed_journal, tunnel_down-success}
use network_manager_sidebar.Helper.Outcomes.Commit.{is_active_marker}
use network_manager_sidebar.Helper.Outcomes.Activate.{tunnel_activate-success}
use network_manager_sidebar.Helper.Outcomes.Remove.{
  Removal, before_down, down_for_removal, helper_remove-Removal,
}
use network_manager_sidebar.Helper.Outcomes.Switch.{switch_prepared-refused}
use network_manager_sidebar.Helper.Decisions.{admits, down_decision-classify}
use network_manager_sidebar.Examples.Data.{active_marker, owned_link}
use network_manager_sidebar.Examples.Machine.{
  environment, deadlines, running, stopped, broken, activation,
}

abbrev wg0 : Bytes
wg0 = codes "wg0"

abbrev wg0_conf : Bytes
wg0_conf = codes "wg0.conf"

abbrev wg0_path : Bytes
wg0_path = codes "/run/nm-sidebar/amneziawg/.configs/wg0.conf"

running_IsSafe : IsSafe running.session
unfolding IsSafe
running_IsSafe = (refl, refl)

stopped_IsSafe : IsSafe stopped.session
unfolding IsSafe
stopped_IsSafe = (refl, refl)

tunnel_down-IsSafe_example :
    IsSafe (tunnel_down environment wg0 wg0_conf wg0_path deadlines running).1.session
tunnel_down-IsSafe_example =
    tunnel_down-IsSafe environment wg0 wg0_conf wg0_path deadlines running running_IsSafe

tunnel_activate-IsSafe_example :
    IsSafe (tunnel_activate environment (some activation) deadlines stopped).1.session
tunnel_activate-IsSafe_example =
    tunnel_activate-IsSafe environment deadlines (some activation) stopped stopped_IsSafe

test_down : is_success (tunnel_down environment wg0 wg0_conf wg0_path deadlines running).0 ≡ true
unfolding tunnel_down parse
test_down = refl

-- Seven writes of the journal, a change of the resolver, a run of awg-quick, and the removal of three files.
test_down_length :
    length (tunnel_down environment wg0 wg0_conf wg0_path deadlines running).1.session.log ≡ 12
unfolding tunnel_down parse
test_down_length = refl

tunnel_down-success_example :
    (has_removed_journal wg0
        (tunnel_down environment wg0 wg0_conf wg0_path deadlines running).1.session.log
      ≡ true)
    ⊎ ((tunnel_down environment wg0 wg0_conf wg0_path deadlines running).1.session.log
        ≡ running.session.log)
tunnel_down-success_example =
    tunnel_down-success environment wg0 wg0_conf wg0_path deadlines running test_down

test_activate :
    is_success (tunnel_activate environment (some activation) deadlines stopped).0.0 ≡ true
unfolding tunnel_activate
test_activate = refl

tunnel_activate-success_example :
    has_written is_active_marker
      (tunnel_activate environment (some activation) deadlines stopped).1.session.log
    ≡ true
tunnel_activate-success_example =
    tunnel_activate-success environment deadlines (some activation) stopped test_activate

test_remove : is_success (helper_remove environment deadlines wg0 running).0 ≡ true
unfolding helper_remove parse name_is_valid
test_remove = refl

helper_remove-Removal_example :
    Removal wg0
      (down_for_removal environment deadlines wg0)
      (before_down environment deadlines wg0 running)
      (helper_remove environment deadlines wg0 running).0
      (helper_remove environment deadlines wg0 running).1.session.log
    × ((before_down environment deadlines wg0 running).session.log ≡ running.session.log)
helper_remove-Removal_example = helper_remove-Removal environment deadlines wg0 running

test_refused : is_success (admit_previous environment deadlines (wg0 ∷ []) broken).0 ≡ false
unfolding admit_previous name_is_valid
test_refused = refl

switch_prepared-refused_example :
    ((switch_prepared environment deadlines (wg0 ∷ []) (some activation) broken).0
      ≡ previous_session_failure (admit_previous environment deadlines (wg0 ∷ []) broken).0)
    × ((switch_prepared environment deadlines (wg0 ∷ []) (some activation) broken).1.session
        ≡ broken.session)
switch_prepared-refused_example =
    switch_prepared-refused environment deadlines (wg0 ∷ []) (some activation) broken test_refused

active_is_valid : runtime_marker_fields_are_valid active_marker ≡ true
unfolding runtime_marker_fields_are_valid link_token_is_valid
active_is_valid = refl

down_decision-classify_example :
    (admits (
        down_decision (marked_status active_marker (owned_link_of active_marker (some owned_link))))
      ≡ true)
    ↔ (runtime_can_disconnect
          (runtime_state_classify true true (some active_marker) (some owned_link))
        ≡ true)
down_decision-classify_example = down_decision-classify active_marker owned_link active_is_valid

-- The output of an awg-quick up that could not set its configuration, in two pieces.
abbrev failed_up : List Bytes
failed_up =
    codes "[#] ip link add dev wg0 type amneziawg\n[#] awg setconf wg0 /dev/fd/63\nUnable"
    ∷ codes " to modify interface\n[#] ip link delete dev wg0\n"
    ∷ []

abbrev failed_child : SubprocessResult
failed_child = record {
  status = SubprocessStatus.exited;
  may_have_run = true;
  wait_status = WaitStatus.exited_with 1;
  diagnostics_complete = true;
}

failed_up_is_early :
    failed_before_routes (finish (consume_pieces failed_up no_diagnostics)) failed_child ≡ true
unfolding failed_before_routes finish consume_pieces consume_byte append_byte classify_line
    is_link_delete is_fallback_marker line_is_teardown_command stage_of_line is_cleanup_capable
    is_unknown_command line_is_link_claim
failed_up_is_early = refl

failed_before_routes-early_example :
    (all is_early_line (complete_lines [] (joined failed_up)) ≡ true)
    × (unended [] (joined failed_up) ≡ [])
failed_before_routes-early_example =
    failed_before_routes-early failed_up failed_child failed_up_is_early
