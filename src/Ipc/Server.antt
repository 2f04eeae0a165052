-- ===== src/Ipc/Server.antt =====
-- core/command_socket.c: network_sidebar_read_command, with which the server reads a command.
use network_manager_sidebar.Base.{
  ℕ, Option, none, some, List, [], ◌∷◌, if◌then◌else◌, ◌==◌, Bytes, newline,
}
use network_manager_sidebar.Ipc.Commands.{command_is_socket}
use network_manager_sidebar.Ipc.Line.{Utf8, parse_command_line}
use network_manager_sidebar.Ipc.Receive.{Received, Line, receive_line}
use network_manager_sidebar.Ipc.Response.{c_string}

abbrev pub command_max_bytes : ℕ
command_max_bytes = 192

-- Still waiting, FALSE, or a command with the name of an output.
pub data CommandRead : Type 0 where
  waiting refused : CommandRead
  accepted : Bytes → Option Bytes → CommandRead

-- The data once its newline is overwritten with a NUL.
abbrev pub before_newline : Bytes → Bytes
before_newline [] = []
before_newline (b ∷ bs) = let rest = before_newline bs in if b == newline then [] else b ∷ rest

module _ (utf8 : Utf8) where
  abbrev pub known_command : Option (Bytes × Option Bytes) → CommandRead
  known_command none = CommandRead.refused
  known_command (some (command, target_output_name)) =
      if command_is_socket command
      then CommandRead.accepted command target_output_name
      else CommandRead.refused

  abbrev pub validated_text : Bytes → Option (List ℕ) → CommandRead
  validated_text text none = CommandRead.refused
  validated_text text (some chars) = known_command (parse_command_line utf8 (some text))

  abbrev pub command_in : Line → CommandRead
  command_in Line.waiting = CommandRead.waiting
  command_in Line.ended = CommandRead.refused
  command_in (Line.line data') =
      validated_text (c_string (before_newline data'))
        (utf8.decode (c_string (before_newline data')))

  -- Over the results of recv.
  unfoldable pub read_command : List Received → CommandRead
  unfolding receive_line
  read_command results = command_in (receive_line command_max_bytes [] results)
