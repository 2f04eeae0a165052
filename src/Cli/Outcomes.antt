-- ===== src/Cli/Outcomes.antt =====
-- Ends of the command-line program in cli/main.c.
use network_manager_sidebar.Base.{
  ◌∙◌, Bool-cases, ℕ, ◌+◌, ◌*◌, ◌≤◌, ◌↔◌, leb, some, length, ◌⊎◌, ◌≡◌, ◌≢◌, refl, arith, Bool, true,
  false, Option, none, List, [], ◌∷◌, if◌then◌else◌, Bytes, equal, inl, inr,
}
use network_manager_sidebar.Ipc.Commands.{
  background, ping, command_is_application, command_is_startup, command_is_application-partition,
}
use network_manager_sidebar.Ipc.Response.{CommandStatus}
use network_manager_sidebar.Cli.Args.{
  Parsed, UsageError, cli_args_parse, cli_args_parse-application,
}
use network_manager_sidebar.Cli.Main.{
  SendResult, Poll, Outcome, quit_wait_timeout, quit_wait_poll, finish_quit_command, run_command,
  main,
}

-- The turn after which the loop does not go on.
abbrev pub ends : ℕ → Poll → Bool
ends started poll = elim poll.pinged [
  | SendResult.failed ↦ true
  | SendResult.sent CommandStatus.not_delivered ↦ true
  | SendResult.sent status ↦ leb (started + quit_wait_timeout) poll.now
]

abbrev pub first_ending : ℕ → List Poll → Option Poll
first_ending started [] = none
first_ending started (poll ∷ rest) =
    if ends started poll then some poll else first_ending started rest

-- What the answer of the last ping makes of the wait.
abbrev pub end_of : SendResult → Outcome
end_of SendResult.failed = Outcome.ipc_failed
end_of (SendResult.sent CommandStatus.not_delivered) = Outcome.stopped
end_of (SendResult.sent CommandStatus.delivered) = Outcome.quit_timeout
end_of (SendResult.sent CommandStatus.acknowledged) = Outcome.quit_timeout

-- The clock is not behind `time` in the first turn, and between two turns the loop sleeps.
abbrev pub IsPaced : ℕ → List Poll → Type 0
IsPaced time [] = Unit
IsPaced time (poll ∷ rest) = (time ≤ poll.now) × IsPaced (poll.now + quit_wait_poll) rest

abbrev pub is_nothing_done : Outcome → Bool
is_nothing_done Outcome.nothing_done = true
is_nothing_done _ = false

ends_late :
    (started : ℕ) (poll : Poll)
    → leb (started + quit_wait_timeout) poll.now ≡ true
    → ends started poll ≡ true
ends_late started poll over = ground arith

ending_now :
    (started : ℕ) (poll : Poll) (rest : List Poll)
    → ends started poll ≡ true
    → finish_quit_command started (poll ∷ rest) ≡ end_of poll.pinged
unfolding finish_quit_command
ending_now started poll rest e = ground arith

going_on :
    (started : ℕ) (poll : Poll) (rest : List Poll)
    → ends started poll ≡ false
    → finish_quit_command started (poll ∷ rest) ≡ finish_quit_command started rest
unfolding finish_quit_command
going_on started poll rest e = ground arith

ending_poll :
    (started time : ℕ) (polls : List Poll)
    → IsPaced time polls
    → started + quit_wait_timeout + quit_wait_poll ≤ time + quit_wait_poll * length polls
    → 1 ≤ length polls
    → (poll : Poll) × (first_ending started polls ≡ some poll)
      × (finish_quit_command started polls ≡ end_of poll.pinged)
unfolding finish_quit_command
ending_poll started time [] paced enough l = absurd (omega (arith, l))
ending_poll started time (poll ∷ []) (late, paced) enough l =
    let over : leb (started + quit_wait_timeout) poll.now ≡ true = ground (arith, enough, late) in
    (
      poll,
      rw (ends_late started poll over) refl,
      ending_now started poll [] (ends_late started poll over),
    )
ending_poll started time (poll ∷ next ∷ rest) (late, paced) enough l =
    elim (Bool-cases (ends started poll)) [
      | inl e ↦ (poll, rw e refl, ending_now started poll (next ∷ rest) e)
      | inr e ↦
          let (last, first, same) =
            ending_poll started (poll.now + quit_wait_poll) (next ∷ rest) paced
              (omega (arith, enough, late)) (omega arith) in
          (last, rw e first, going_on started poll (next ∷ rest) e ∙ same)
    ]

-- The wait for the end of the instance ends within sixty-one turns, when the clock has not gone back
-- since the wait began and shows that the loop slept its fifty milliseconds between two turns. It
-- ends with the first turn whose ping fails or finds nobody, or that lies at or behind the deadline of
-- three seconds, and the answer of that ping decides how: with the error, with the
-- instance stopped, or with a timeout.
pub finish_quit_command-ends :
    (started : ℕ) (polls : List Poll)
    → IsPaced started polls
    → 61 ≤ length polls
    → (poll : Poll) × (first_ending started polls ≡ some poll)
      × (finish_quit_command started polls ≡ end_of poll.pinged)
finish_quit_command-ends started polls paced enough =
    ending_poll started started polls paced (omega (arith, enough)) (omega (arith, enough))

finish_quit_acts :
    (started : ℕ) (polls : List Poll) → is_nothing_done (finish_quit_command started polls) ≡ false
unfolding finish_quit_command
finish_quit_acts started [] = refl
finish_quit_acts started (poll ∷ rest) = ground (arith, finish_quit_acts started rest)

finish_quit_starts_nothing :
    (started : ℕ) (polls : List Poll) (command : Bytes)
    → finish_quit_command started polls ≢ Outcome.start_gui command
unfolding finish_quit_command
finish_quit_starts_nothing started [] command h = cc
finish_quit_starts_nothing started (poll ∷ rest) command h =
    ground (arith, finish_quit_starts_nothing started rest command)

Parsed-cases :
    (parsed : Parsed)
    → (parsed ≡ Parsed.help)
      ⊎ (((error : UsageError) × (parsed ≡ Parsed.usage_error error))
          ⊎ ((command : Bytes) × (parsed ≡ Parsed.run command)))
Parsed-cases Parsed.help = inl refl
Parsed-cases (Parsed.usage_error error) = inr (inl (error, refl))
Parsed-cases (Parsed.run command) = inr (inr (command, refl))

-- What is sent to the socket for a command.
abbrev pub question : (Bytes → Option Bytes → SendResult) → Bytes → Option Bytes → SendResult
question send_command command target_output =
    if equal command background then send_command ping none else send_command command target_output

module _ (send_command : Bytes → Option Bytes → SendResult) (start : ℕ) (polls : List Poll) where
  run_command_acts :
      (command : Bytes) (target_output : Option Bytes)
      → command_is_application command ≡ true
      → is_nothing_done (run_command send_command start polls command target_output) ≡ false
  unfolding run_command
  run_command_acts command target_output h =
      let (split, apart) = command_is_application-partition command in
      ground (arith, finish_quit_acts start polls)

  -- The program never ends with nothing done: no command that the command line is read as falls
  -- through all the branches of main.
  pub main-acts :
      (argv : List Bytes) (target_output : Option Bytes)
      → is_nothing_done (main send_command start polls argv target_output) ≡ false
  unfolding main
  main-acts argv target_output = elim (Parsed-cases (cli_args_parse argv)) [
    | inl e ↦ rw (is_nothing_done, main, e)
    | inr (inl (error, e)) ↦ rw (is_nothing_done, main, e)
    | inr (inr (command, e)) ↦
        rw (main, e) (run_command_acts command target_output (cli_args_parse-application argv e))
  ]

  run_command_starts :
      (command : Bytes) (target_output : Option Bytes) {started : Bytes}
      → run_command send_command start polls command target_output ≡ Outcome.start_gui started
      → (started ≡ command)
        × (command_is_startup command ≡ true)
        × (question send_command command target_output
            ≡ SendResult.sent CommandStatus.not_delivered)
  unfolding run_command
  run_command_starts command target_output {started} h =
      ground (arith, finish_quit_starts_nothing start polls started)

  run_command_start :
      (command : Bytes) (target_output : Option Bytes)
      → command_is_startup command ≡ true
      → question send_command command target_output ≡ SendResult.sent CommandStatus.not_delivered
      → run_command send_command start polls command target_output ≡ Outcome.start_gui command
  unfolding run_command
  run_command_start command target_output h answer =
      let (split, apart) = command_is_application-partition command in ground (arith, h, answer)

  -- The GUI program is started, with a command, exactly if the command line is read as that command,
  -- the command is one that starts the application, and sending the question (a ping for background,
  -- else the command itself) gave back NOT_DELIVERED without an error.
  pub main-start_gui :
      (argv : List Bytes) (target_output : Option Bytes) (started : Bytes)
      → (main send_command start polls argv target_output ≡ Outcome.start_gui started) ↔ (
          (cli_args_parse argv ≡ Parsed.run started)
          × (command_is_startup started ≡ true)
          × (question send_command started target_output
              ≡ SendResult.sent CommandStatus.not_delivered))
  unfolding main
  main-start_gui argv target_output started = (
    λ h. elim (Parsed-cases (cli_args_parse argv)) [
      | inl e ↦ absurd (ground arith)
      | inr (inl (error, e)) ↦ absurd (ground arith)
      | inr (inr (command, e)) ↦
          let (same, startup, answer) =
            run_command_starts command target_output {started = started} (rw (main, e) at h) in
          (rw same e, rw same startup, rw same answer)
    ],
    λ h. rw (main, h.0) (run_command_start started target_output h.1 h.2),
  )
