-- ===== src/Cli/Args.antt =====
-- cli_args.c: the options of the command line.
use network_manager_sidebar.Base.{
  equal_sound, ◌↔◌, ◌⊎◌, ap, inr, inl, Option-cases, ◌≡◌, refl, arith, Bool, true, ◌||◌, Option,
  none, some, List, [], ◌∷◌, if◌then◌else◌, Bytes, codes, equal,
}
use network_manager_sidebar.Ipc.Commands.{
  toggle, show, hide, quit, reload_css, background, command_is_application,
}

unfoldable pub command_for_option : Bytes → Option Bytes
command_for_option option =
    if equal option (codes "--toggle")
    then some toggle
    else if equal option (codes "--show")
    then some show
    else if equal option (codes "--hide")
    then some hide
    else if equal option (codes "--quit")
    then some quit
    else if equal option (codes "--reload-css")
    then some reload_css
    else if equal option (codes "--background")
    then some background
    else none

abbrev pub is_help : Bytes → Bool
is_help arg = equal arg (codes "-h") || equal arg (codes "--help")

-- The two messages of G_OPTION_ERROR_BAD_VALUE.
pub data UsageError : Type 0 where
  unrecognized : Bytes → UsageError
  not_allowed_with : Bytes → Bytes → UsageError

-- `help` is should_exit with exit status 0; `run` holds the command.
pub data Parsed : Type 0 where
  help : Parsed
  run : Bytes → Parsed
  usage_error : UsageError → Parsed

-- The option chosen before, and its command.
pub record Selected : Type 0 where
  pub option : Bytes
  pub command : Bytes

-- NETWORK_SIDEBAR_DEFAULT_APPLICATION_COMMAND.
abbrev pub default_command : Bytes
default_command = codes "toggle"

abbrev pub selected_command : Option Selected → Bytes
selected_command none = default_command
selected_command (some selected) = selected.command

-- An argument with its command, behind the tests for help and for unknown options.
abbrev pub conflict : Option Selected → Bytes → Option UsageError
conflict none arg = none
conflict (some selected) arg = some (UsageError.not_allowed_with arg selected.option)

abbrev pub select : Option Selected → Bytes → Bytes → (Option Selected → Parsed) → Parsed
select chosen arg command continue = elim (conflict chosen arg) [
  | none ↦ continue (some (record { option = arg; command = command }))
  | some error ↦ Parsed.usage_error error
]

-- The loop over the arguments behind the program's name.
unfoldable pub parse_args : Option Selected → List Bytes → Parsed
unfolding command_for_option
parse_args chosen [] = Parsed.run (selected_command chosen)
parse_args chosen (arg ∷ rest) =
    if is_help arg then Parsed.help else elim (command_for_option arg) [
      | none ↦ Parsed.usage_error (UsageError.unrecognized arg)
      | some command ↦ select chosen arg command (λ next. parse_args next rest)
    ]

-- network_sidebar_cli_args_parse; the first argument is the program's name.
unfoldable pub cli_args_parse : List Bytes → Parsed
unfolding parse_args
cli_args_parse [] = parse_args none []
cli_args_parse (program ∷ args) = parse_args none args

-- The command of an option is one of the application.
command_for_option-application :
    (option : Bytes) {command : Bytes}
    → command_for_option option ≡ some command
    → command_is_application command ≡ true
unfolding command_for_option command_is_application
command_for_option-application option h = ground arith

-- Behind an option nothing else is taken.
parse_args-selected :
    (selected : Selected) (args : List Bytes) {command : Bytes}
    → parse_args (some selected) args ≡ Parsed.run command
    → (args ≡ []) × (selected.command ≡ command)
unfolding parse_args
parse_args-selected selected [] h = (refl, ground arith)
parse_args-selected selected (arg ∷ rest) h = elim (Option-cases (command_for_option arg)) [
  | inl e ↦ absurd (ground arith)
  | inr (c, e) ↦ absurd (ground arith)
]

-- The argument lists that run a command: none at all, or one option.
abbrev pub RunsAs : List Bytes → Bytes → Type 0
RunsAs args command =
    ((args ≡ []) × (default_command ≡ command))
    ⊎ ((option : Bytes) × (args ≡ option ∷ []) × (command_for_option option ≡ some command))

parse_args-run :
    (args : List Bytes) {command : Bytes}
    → parse_args none args ≡ Parsed.run command
    → RunsAs args command
unfolding parse_args
parse_args-run [] h = inl (refl, ground arith)
parse_args-run (arg ∷ rest) {command} h = elim (Option-cases (command_for_option arg)) [
  | inl e ↦ absurd (ground arith)
  | inr (c, e) ↦
      let (nothing, same) =
        parse_args-selected (record { option = arg; command = c }) rest {command = command}
          (ground arith) in
      inr (arg, ap (◌∷◌ arg) nothing, rw same at e)
]

run-parse_args :
    (args : List Bytes) {command : Bytes}
    → RunsAs args command
    → parse_args none args ≡ Parsed.run command
unfolding parse_args command_for_option
run-parse_args args (inl (e, d)) = rw e (ap Parsed.run d)
run-parse_args args (inr (option, e, c)) =
    rw e (ground (arith, equal_sound option (codes "-h"), equal_sound option (codes "--help")))

-- A command line runs a command exactly when it has no argument, and the command is the default
-- one, or has a single argument, and that is the option of the command.
pub cli_args_parse-run :
    (program : Bytes) (args : List Bytes) (command : Bytes)
    → (cli_args_parse (program ∷ args) ≡ Parsed.run command) ↔ RunsAs args command
unfolding cli_args_parse
cli_args_parse-run program args command = (parse_args-run args, run-parse_args args)

RunsAs-application :
    (args : List Bytes) {command : Bytes}
    → RunsAs args command
    → command_is_application command ≡ true
unfolding command_is_application
RunsAs-application args (inl (e, d)) = rw (← d)
RunsAs-application args (inr (option, e, c)) = command_for_option-application option c

-- A command line that is accepted runs one of the commands of the application.
pub cli_args_parse-application :
    (argv : List Bytes) {command : Bytes}
    → cli_args_parse argv ≡ Parsed.run command
    → command_is_application command ≡ true
unfolding cli_args_parse
cli_args_parse-application [] h = RunsAs-application [] (parse_args-run [] h)
cli_args_parse-application (program ∷ args) h = RunsAs-application args (parse_args-run args h)
