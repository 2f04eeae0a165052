-- ===== src/Ipc/Line.antt =====
-- core/ipc.c and core/target_output.c: the line that a command makes on the socket.
use network_manager_sidebar.Base.{
  ℕ, Bool, ◌||◌, Option, none, some, List, [], ◌∷◌, ◌++◌, if◌then◌else◌, length, any, ltb, ◌==◌,
  Bytes, codes, trim, newline, split_at,
}

-- The functions of GLib on UTF-8: validation with decoding into the code points, the bytes of a
-- span of code points, g_unichar_isspace, and g_utf8_strdown.
pub record Utf8 : Type 0 where
  pub decode : Bytes → Option (List ℕ)
  pub encode : List ℕ → Bytes
  pub is_space : ℕ → Bool
  pub strdown : Bytes → Bytes

abbrev pub tab : ℕ
tab = 9

abbrev pub max_chars : ℕ
max_chars = 128

abbrev pub protocol : Bytes
protocol = codes "nm-sidebar-ipc-v1"

module _ (utf8 : Utf8) where
  -- utf8_strip_copy of ipc.c, where NULL and invalid UTF-8 give an empty string.
  abbrev pub stripped : Option (List ℕ) → Bytes
  stripped none = []
  stripped (some chars) = utf8.encode (trim utf8.is_space chars)

  abbrev pub utf8_strip_copy : Bytes → Bytes
  utf8_strip_copy value = stripped (utf8.decode value)

  unfoldable pub normalize_command : Bytes → Bytes
  normalize_command command = utf8.strdown (utf8_strip_copy command)

  -- The trimmed name of an output, behind the tests for NULL and invalid UTF-8.
  abbrev pub bounded_name : List ℕ → Option Bytes
  bounded_name chars =
      if length (utf8.encode chars) == 0
      then none
      else if any (λ b. b == newline) (utf8.encode chars) || any (λ b. b == tab) (utf8.encode chars)
      then none
      else if ltb max_chars (length chars)
      then none
      else some (utf8.encode chars)

  abbrev pub decoded_name : Option (List ℕ) → Option Bytes
  decoded_name none = none
  decoded_name (some chars) = bounded_name (trim utf8.is_space chars)

  -- network_sidebar_normalize_target_output.
  unfoldable pub normalize_target_output : Option Bytes → Option Bytes
  normalize_target_output none = none
  normalize_target_output (some name) = decoded_name (utf8.decode name)

  abbrev pub command_line : Bytes → Option Bytes → Bytes
  command_line command none = command ++ newline ∷ []
  command_line command (some output) = command ++ tab ∷ (output ++ newline ∷ [])

  unfoldable pub encode_command : Bytes → Option Bytes → Bytes
  unfolding normalize_command normalize_target_output
  encode_command command target_output_name =
      command_line (normalize_command command) (normalize_target_output target_output_name)

  -- A command and the name of an output.
  abbrev pub parsed_parts : Bytes → Option (Bytes × Bytes) → Bytes × Option Bytes
  parsed_parts line none = (normalize_command line, none)
  parsed_parts line (some (command, output)) =
      (normalize_command command, normalize_target_output (some output))

  -- network_sidebar_parse_command_line.
  unfoldable pub parse_command_line : Option Bytes → Option (Bytes × Option Bytes)
  unfolding normalize_command normalize_target_output
  parse_command_line none = none
  parse_command_line (some line) = some (parsed_parts line (split_at tab line))

  unfoldable pub success_response : Bytes → Bytes
  unfolding normalize_command
  success_response command =
      protocol ++ (codes " ok " ++ (normalize_command command ++ newline ∷ []))

  -- The first of the two variables of the environment that names an output.
  unfoldable pub target_output_from_environment : Option Bytes → Option Bytes → Option Bytes
  unfolding normalize_target_output
  target_output_from_environment sidebar waybar =
      let second = normalize_target_output waybar in
      elim (normalize_target_output sidebar) [ some output ↦ some output | none ↦ second ]
