-- ===== src/Examples/Program.antt =====
-- The command line, the socket's line and the rows at concrete values.
use network_manager_sidebar.Base.{
  ℕ, zero, suc, ◌+◌, ◌≤◌, length, replicate, is_not, trim, ◌≡◌, ◌↔◌, ◌⊎◌, refl, arith, true, false,
  Option, none, some, List, [], ◌∷◌, ◌++◌, all, all-append, map, Bytes, codes, to_lower,
  if◌then◌else◌,
}
use network_manager_sidebar.Ipc.Commands.{
  ping, show, command_is_startup, command_is_ipc_only, command_is_socket,
}
use network_manager_sidebar.Ipc.Line.{
  Utf8, encode_command, normalize_target_output, success_response,
}
use network_manager_sidebar.Ipc.Receive.{Received, joined}
use network_manager_sidebar.Ipc.Server.{CommandRead, command_max_bytes, read_command}
use network_manager_sidebar.Ipc.LineRoundTrip.{
  Utf8Laws, is_ascii, is_command_byte, read_command-encode_command,
}
use network_manager_sidebar.Ipc.Answer.{read_response_status-success_response}
use network_manager_sidebar.Ipc.Response.{CommandStatus, read_response_status}
use network_manager_sidebar.Cli.Args.{Parsed, cli_args_parse, cli_args_parse-run, RunsAs}
use network_manager_sidebar.Cli.Main.{
  SendResult, Poll, Outcome, main, finish_quit_command, quit_wait_poll,
}
use network_manager_sidebar.Cli.Outcomes.{
  first_ending, end_of, IsPaced, is_nothing_done, finish_quit_command-ends, main-acts,
  main-start_gui, question,
}
use network_manager_sidebar.RowState.{
  RowState, ActiveState, VpnState, ActiveConnection, vpn_row_state,
}
use network_manager_sidebar.RowState.Shown.{vpn_row_state-active}
use network_manager_sidebar.Policy.{
  action_implies_amneziawg, ImplicitAuthorization, ActionDescription, policy_descriptions_are_safe,
  split_set,
}
use network_manager_sidebar.Policy.Unique.{
  count_managed, is_harmless, policy_descriptions_are_safe_unique,
}
use network_manager_sidebar.Examples.Data.{is_blank}

abbrev argv : List Bytes
argv = codes "nm-sidebar" ∷ codes "--show" ∷ []

test_parse : cli_args_parse argv ≡ Parsed.run show
unfolding cli_args_parse
test_parse = refl

cli_args_parse-run_example :
    (cli_args_parse argv ≡ Parsed.run show) ↔ RunsAs (codes "--show" ∷ []) show
cli_args_parse-run_example = cli_args_parse-run (codes "nm-sidebar") (codes "--show" ∷ []) show

abbrev nobody : Bytes → Option Bytes → SendResult
nobody command output = SendResult.sent CommandStatus.not_delivered

-- A turn every fifty milliseconds, in which the instance still answers.
abbrev busy_polls : ℕ → ℕ → List Poll
busy_polls zero now = []
busy_polls (suc count) now =
    record { pinged = SendResult.sent CommandStatus.acknowledged; now = now }
    ∷ busy_polls count (now + quit_wait_poll)

busy_polls-IsPaced : (count now : ℕ) → IsPaced now (busy_polls count now)
busy_polls-IsPaced zero now = tt
busy_polls-IsPaced (suc count) now = (omega arith, busy_polls-IsPaced count (now + quit_wait_poll))

length-busy_polls : (count now : ℕ) → length (busy_polls count now) ≡ count
length-busy_polls zero now = refl
length-busy_polls (suc count) now = omega (arith, length-busy_polls count (now + quit_wait_poll))

abbrev two_polls : List Poll
two_polls =
    record { pinged = SendResult.sent CommandStatus.acknowledged; now = 100 }
    ∷ record { pinged = SendResult.sent CommandStatus.not_delivered; now = 60000 }
    ∷ []

test_stopped : finish_quit_command 50 two_polls ≡ Outcome.stopped
unfolding finish_quit_command
test_stopped = refl

finish_quit_command-ends_example :
    (poll : Poll) × (first_ending 100 (busy_polls 61 100) ≡ some poll)
    × (finish_quit_command 100 (busy_polls 61 100) ≡ end_of poll.pinged)
finish_quit_command-ends_example =
    finish_quit_command-ends 100 (busy_polls 61 100) (busy_polls-IsPaced 61 100)
      (omega (arith, length-busy_polls 61 100))

main-acts_example : is_nothing_done (main nobody 50 two_polls argv none) ≡ false
main-acts_example = main-acts nobody 50 two_polls argv none

test_main : main nobody 50 two_polls argv none ≡ Outcome.start_gui show
unfolding main cli_args_parse command_is_ipc_only command_is_startup
test_main = refl

main-start_gui_example : (main nobody 50 two_polls argv none ≡ Outcome.start_gui show) ↔ (
    (cli_args_parse argv ≡ Parsed.run show)
    × (command_is_startup show ≡ true)
    × (question nobody show none ≡ SendResult.sent CommandStatus.not_delivered))
main-start_gui_example = main-start_gui nobody 50 two_polls argv none show

abbrev corporate : ActiveConnection
corporate = record { state = ActiveState.activated; vpn_state = some VpnState.need_auth }

vpn_row_state-active_example : (vpn_row_state (some corporate) ≡ RowState.active) ↔ (
    (corporate.vpn_state ≡ some VpnState.activated)
    ⊎ ((corporate.vpn_state ≡ none) × (corporate.state ≡ ActiveState.activated)))
vpn_row_state-active_example = vpn_row_state-active corporate

-- A locale of ASCII texts.
abbrev ascii_decode : Bytes → Option (List ℕ)
ascii_decode bytes = if all is_ascii bytes then some bytes else none

abbrev ascii : Utf8
ascii = record {
  decode = ascii_decode;
  encode = λ chars. chars;
  is_space = is_blank;
  strdown = map to_lower;
}

ascii_decode-text :
    (bs : Bytes) {cs : List ℕ} → ascii_decode bs ≡ some cs → (bs ≡ cs) × (all is_ascii bs ≡ true)
ascii_decode-text bs h = ground arith

text-ascii_decode : (bs : Bytes) → all is_ascii bs ≡ true → ascii_decode bs ≡ some bs
text-ascii_decode bs h = rw h refl

lower_lower : (bs : Bytes) → all is_command_byte bs ≡ true → map to_lower bs ≡ bs
lower_lower [] h = refl
lower_lower (b ∷ bs) h = ground (arith, lower_lower bs)

ascii_append :
    (xs ys : Bytes) (cs ds : List ℕ)
    → ascii_decode xs ≡ some cs
    → ascii_decode ys ≡ some ds
    → ascii_decode (xs ++ ys) ≡ some (cs ++ ds)
ascii_append xs ys cs ds h k =
    let (e, p) = ascii_decode-text xs h in
    let (f, q) = ascii_decode-text ys k in
    rw (← e, ← f) (text-ascii_decode (xs ++ ys) (ground (arith, all-append is_ascii xs ys)))

ascii_span :
    (bs : Bytes) (before span after : List ℕ)
    → ascii_decode bs ≡ some (before ++ (span ++ after))
    → ascii_decode span ≡ some span
ascii_span bs before span after h =
    let (e, p) = ascii_decode-text bs h in
    text-ascii_decode span (
      ground (
        arith,
        rw e at p,
        all-append is_ascii before (span ++ after),
        all-append is_ascii span after,
      ))

ascii_span_text :
    (bs : Bytes) (before span after : List ℕ)
    → ascii_decode bs ≡ some (before ++ (span ++ after))
    → all (is_not 0) bs ≡ true
    → all (is_not 0) span ≡ true
ascii_span_text bs before span after h clean =
    let (e, p) = ascii_decode-text bs h in
    ground (
      arith,
      rw e at clean,
      all-append (is_not 0) before (span ++ after),
      all-append (is_not 0) span after,
    )

letter_visible : (c : ℕ) → is_command_byte c ≡ true → is_blank c ≡ false
letter_visible c h = ground arith

ascii_laws : Utf8Laws ascii
ascii_laws = record {
  decode-ascii = text-ascii_decode;
  encode-ascii = λ bs h. refl;
  decode-append = ascii_append;
  decode-span = ascii_span;
  encode-span = ascii_span_text;
  letter-visible = letter_visible;
  strdown-lower = lower_lower;
}

test_ping : command_is_socket ping ≡ true
unfolding command_is_socket
test_ping = refl

-- The line of ping with an output, in two pieces and with an interruption.
abbrev ping_pieces : List Received
ping_pieces =
    Received.bytes (codes "pi") ∷ Received.interrupted ∷ Received.bytes (codes "ng\tDP-1\n") ∷ []

test_line : joined ping_pieces ≡ encode_command ascii ping (some (codes " DP-1 "))
unfolding encode_command trim
test_line = refl

test_length : length (encode_command ascii ping (some (codes " DP-1 "))) ≤ command_max_bytes
unfolding encode_command trim
test_length = omega arith

read_command-encode_command_example :
    read_command ascii ping_pieces
    ≡ CommandRead.accepted ping (normalize_target_output ascii (some (codes " DP-1 ")))
read_command-encode_command_example =
    read_command-encode_command ascii ascii_laws ping (some (codes " DP-1 ")) ping_pieces test_ping
      refl test_length refl test_line

-- A piece that does not fit is cut, and the loop ends without a line.
test_too_long :
    read_command ascii (Received.bytes (replicate 192 65 ++ codes "\n") ∷ []) ≡ CommandRead.refused
unfolding read_command
test_too_long = refl

abbrev answer_pieces : List Received
answer_pieces =
    Received.bytes (codes "nm-sidebar-ipc") ∷ Received.bytes (codes "-v1 ok ping\n") ∷ []

test_answer : joined answer_pieces ≡ success_response ascii ping
unfolding success_response trim
test_answer = refl

read_response_status-success_response_example :
    (read_response_status (success_response ascii ping) answer_pieces
      ≡ some CommandStatus.acknowledged)
    ↔ (ping ≡ ping)
read_response_status-success_response_example =
    read_response_status-success_response ascii ascii_laws ping ping answer_pieces test_ping
      test_ping refl test_answer

abbrev manage_id : Bytes
manage_id = codes "manage-amneziawg"

abbrev helper_path : Bytes
helper_path = codes "/usr/libexec/helper"

abbrev managed_action : ActionDescription
managed_action = record {
  action_id = manage_id;
  exec_path = none;
  exec_argv1 = none;
  imply = some (codes "a b");
  implicit_any = ImplicitAuthorization.not_authorized;
  implicit_inactive = ImplicitAuthorization.not_authorized;
  implicit_active = ImplicitAuthorization.not_authorized;
}

policy_descriptions_are_safe_unique_example :
    (policy_descriptions_are_safe manage_id helper_path (managed_action ∷ []) ≡ true) ↔ (
      (count_managed manage_id helper_path (managed_action ∷ []) ≡ 1)
      × (all (is_harmless manage_id helper_path) (managed_action ∷ []) ≡ true))
policy_descriptions_are_safe_unique_example =
    policy_descriptions_are_safe_unique manage_id helper_path (managed_action ∷ [])

test_policy : policy_descriptions_are_safe manage_id helper_path (managed_action ∷ []) ≡ true
unfolding policy_descriptions_are_safe split_set action_implies_amneziawg
test_policy = refl
