-- ===== src/Cli/Main.antt =====
-- cli/main.c: what the command-line program does with a command.
use network_manager_sidebar.Base.{
  ℕ, ◌+◌, leb, Option, none, some, List, [], ◌∷◌, if◌then◌else◌, Bytes, equal,
}
use network_manager_sidebar.Ipc.Commands.{
  quit, background, ping, command_is_startup, command_is_ipc_only,
}
use network_manager_sidebar.Ipc.Response.{CommandStatus}
use network_manager_sidebar.Cli.Args.{Parsed, UsageError, cli_args_parse}

-- What network_sidebar_send_command gives back: a GError, or the status.
pub data SendResult : Type 0 where
  failed : SendResult
  sent : CommandStatus → SendResult

-- One turn of the loop that waits for the end of the running instance: the result of the ping, and
-- the monotonic clock in microseconds, as it is read behind it.
pub record Poll : Type 0 where
  pub pinged : SendResult
  pub now : ℕ

abbrev pub quit_wait_timeout : ℕ
quit_wait_timeout = 3000000

abbrev pub quit_wait_poll : ℕ
quit_wait_poll = 50000

-- How the program ends: with an exit status and the message it prints, or as the GUI program.
pub data Outcome : Type 0 where
  accepted : Outcome
  stopped : Outcome
  usage : UsageError → Outcome
  help_shown : Outcome
  ipc_failed : Outcome
  unacknowledged : Bytes → Outcome
  no_running_instance : Bytes → Outcome
  quit_timeout : Outcome
  still_waiting : Outcome
  start_gui : Bytes → Outcome
  nothing_done : Outcome

-- finish_quit_command, over the turns that the loop takes; it was entered at `started`.
unfoldable pub finish_quit_command : ℕ → List Poll → Outcome
finish_quit_command started [] = Outcome.still_waiting
finish_quit_command started (poll ∷ rest) =
    let later = finish_quit_command started rest in
    elim poll.pinged [
      | SendResult.failed ↦ Outcome.ipc_failed
      | SendResult.sent CommandStatus.not_delivered ↦ Outcome.stopped
      | SendResult.sent status ↦
          if leb (started + quit_wait_timeout) poll.now then Outcome.quit_timeout else later
    ]

-- The exit status of the process, where it does not become the GUI program.
unfoldable pub exit_status : Outcome → Option ℕ
exit_status Outcome.accepted = some 0
exit_status Outcome.stopped = some 0
exit_status (Outcome.usage error) = some 2
exit_status Outcome.help_shown = some 0
exit_status Outcome.ipc_failed = some 1
exit_status (Outcome.unacknowledged command) = some 1
exit_status (Outcome.no_running_instance command) = some 1
exit_status Outcome.quit_timeout = some 1
exit_status Outcome.still_waiting = none
exit_status (Outcome.start_gui command) = none
exit_status Outcome.nothing_done = some 0

-- The three branches before the second part of main return on every status but one.
abbrev pub answered : Bytes → Outcome → Outcome → SendResult → Outcome
answered command done otherwise SendResult.failed = Outcome.ipc_failed
answered command done otherwise (SendResult.sent CommandStatus.acknowledged) = done
answered command done otherwise (SendResult.sent CommandStatus.delivered) =
    Outcome.unacknowledged command
answered command done otherwise (SendResult.sent CommandStatus.not_delivered) = otherwise

-- The part of main behind the answer of the socket.
abbrev pub without_instance : Bytes → Outcome
without_instance command =
    if command_is_ipc_only command
    then Outcome.no_running_instance command
    else if command_is_startup command
    then Outcome.start_gui command
    else Outcome.nothing_done

-- network_sidebar_send_command, and the start and the turns of the wait for the end of the instance.
module _ (send_command : Bytes → Option Bytes → SendResult) (started : ℕ) (polls : List Poll) where
  unfoldable pub run_command : Bytes → Option Bytes → Outcome
  unfolding finish_quit_command
  run_command command target_output =
      if equal command background
      then answered command Outcome.accepted (without_instance command) (send_command ping none)
      else if command_is_ipc_only command
      then answered command
          (if equal command quit then finish_quit_command started polls else Outcome.accepted)
          (without_instance command) (send_command command target_output)
      else if command_is_startup command
      then answered command Outcome.accepted (without_instance command)
          (send_command command target_output)
      else without_instance command

  unfoldable pub main : List Bytes → Option Bytes → Outcome
  unfolding run_command
  main argv target_output = elim (cli_args_parse argv) [
    | Parsed.help ↦ Outcome.help_shown
    | Parsed.usage_error error ↦ Outcome.usage error
    | Parsed.run command ↦ run_command command target_output
  ]
