-- ===== src/Config.antt =====
-- config.c: the safety scan of an AmneziaWG configuration.
pub mod Errors
pub mod Lines
pub mod Envelope
pub mod Safety
pub mod Snapshot
use network_manager_sidebar.Base.{
  ℕ, ◌+◌, ◌-◌, Bool, true, false, not, ◌&&◌, ◌||◌, Option, none, some, List, [], ◌∷◌, ◌++◌, ltb,
  ◌==◌, if◌then◌else◌, length, all, any, Bytes, codes, equal_ignoring_case, trim, split_at, newline,
  ends_with, without_last,
}
use network_manager_sidebar.Dns.{Family, DnsConfig, init, Measured}
use network_manager_sidebar.Dns.Values.{add_value}
use Errors.{
  ErrorCode, invalid_data, too_large, unsafe_directive, missing_structure, Result, ok, err, ◌>>=◌,
}
use Lines.{PhysicalLine, lines, physical_length}

abbrev pub max_config_size : ℕ
max_config_size = 1048576

pub data Section : Type 0 where
  outside interface other : Section

-- The variables of scan_config_envelope; `interface_line_end` is 0 until it is written.
pub record Scan : Type 0 where
  pub section : Section
  pub interface_seen : Bool
  pub offset : ℕ
  pub line_number : ℕ
  pub quick_config : Bytes
  pub dns : DnsConfig
  pub interface_line_end : ℕ

abbrev pub started : Scan
started = record {
  section = Section.outside;
  interface_seen = false;
  offset = 0;
  line_number = 0;
  quick_config = [];
  dns = init;
  interface_line_end = 0;
}

abbrev pub is_outside : Section → Bool
is_outside Section.outside = true
is_outside _ = false

-- span_equal.
abbrev pub span_equal : Bytes → Bytes → Bool
span_equal span text = equal_ignoring_case span text

unfoldable pub is_unsafe_directive : Bytes → Bool
is_unsafe_directive key =
    span_equal key (codes "PreUp")
    || span_equal key (codes "PostUp")
    || span_equal key (codes "PreDown")
    || span_equal key (codes "PostDown")

unfoldable pub safe_quick_directive : Bytes → Option Bytes
safe_quick_directive key =
    if span_equal key (codes "Address")
    then some (codes "Address")
    else if span_equal key (codes "MTU")
    then some (codes "MTU")
    else if span_equal key (codes "Table")
    then some (codes "Table")
    else if span_equal key (codes "SaveConfig")
    then some (codes "SaveConfig")
    else none

-- The span up to a comment.
unfoldable pub without_comment : Bytes → Bytes
without_comment [] = []
without_comment (c ∷ cs) = let rest = without_comment cs in if c == b'#' then [] else c ∷ rest

abbrev pub is_control : ℕ → Bool
is_control c = ltb c 32 && not (c == 9) && not (c == 13)

-- Name, " = ", value and a newline.
abbrev pub quick_line : Bytes → Bytes → Bytes
quick_line name value = name ++ (codes " = " ++ (value ++ newline ∷ []))

-- The limit counts the separator with its NUL.
abbrev pub quick_too_large : Bytes → Bytes → Bytes → Bool
quick_too_large quick_config name value =
    ltb (max_config_size - length name - 4) (length value)
    || ltb (max_config_size - length name - 4 - length value) (length quick_config)

-- The error of the current line.
abbrev pub parse_error {ℓ} : {A : Type ℓ} → Scan → ErrorCode → Result A
parse_error s code = err code s.line_number

abbrev pub next_line : Scan → PhysicalLine → Scan
next_line s line = record s {
  line_number = s.line_number + 1;
  offset = s.offset + physical_length line;
}

-- Behind the loop; these errors have no line.
unfoldable pub finish_scan : Scan → Result Scan
finish_scan s =
    if not s.interface_seen
    then err missing_structure 0
    else if ltb 0 (length s.dns.domains) && length s.dns.servers == 0
    then err invalid_data 0
    else ok s

-- g_ascii_isspace and inet_pton.
module _ (is_space : ℕ → Bool) (inet_pton : Family → Bytes → Option Bytes) where
  unfoldable pub token_is_safe : Bytes → Bool
  token_is_safe [] = false
  token_is_safe (c ∷ cs) =
      all (λ b. not (is_space b || b == b'[' || b == b']' || b == b'=' || b == b'#')) (c ∷ cs)

  -- A line that begins with `[`; `rest` is the line behind it.
  unfoldable pub section_line : Scan → Bytes → Result Scan
  section_line s rest =
      if not (ends_with b']' (b'[' ∷ rest)) || not (token_is_safe (without_last rest))
      then parse_error s invalid_data
      else if span_equal (without_last rest) (codes "Interface")
      then (if s.interface_seen || not (is_outside s.section)
          then parse_error s invalid_data
          else ok (record s {
            interface_seen = true;
            section = Section.interface;
            interface_line_end = s.offset;
          }))
      else if not s.interface_seen
      then parse_error s invalid_data
      else ok (record s { section = Section.other })

  abbrev dns_added : Scan → Option DnsConfig → Result Scan
  dns_added s none = parse_error s invalid_data
  dns_added s (some dns) = ok (record s { dns = dns })

  abbrev quick_added : Scan → Bytes → Option Bytes → Result Scan
  quick_added s value none = ok s
  quick_added s value (some name) =
      if quick_too_large s.quick_config name value
      then parse_error s too_large
      else ok (record s { quick_config = s.quick_config ++ quick_line name value })

  -- A directive of the interface section.
  pub interface_directive : Scan → Bytes → Bytes → Result Scan
  interface_directive s key value =
      if span_equal key (codes "DNS")
      then dns_added s (add_value is_space inet_pton s.dns value)
      else quick_added s value (safe_quick_directive key)

  abbrev in_section : Section → Scan → Bytes → Bytes → Result Scan
  in_section Section.interface s key value = interface_directive s key value
  in_section _ s key value = ok s

  -- The line is split at the first `=`.
  abbrev pub directive : Scan → Option (Bytes × Bytes) → Result Scan
  directive s none = parse_error s invalid_data
  directive s (some (before, after)) =
      if is_outside s.section
      then parse_error s invalid_data
      else if not (token_is_safe (trim is_space before))
      then parse_error s invalid_data
      else if is_unsafe_directive (trim is_space before)
      then parse_error s unsafe_directive
      else in_section s.section s (trim is_space before) (trim is_space after)

  -- A line without its comment, trimmed.
  unfoldable pub trimmed_line : Scan → Bytes → Result Scan
  unfolding section_line interface_directive
  trimmed_line s [] = ok s
  trimmed_line s (c ∷ cs) =
      if c == b'[' then section_line s cs else directive s (split_at b'=' (c ∷ cs))

  unfoldable pub scan_line : Scan → PhysicalLine → Result Scan
  unfolding trimmed_line
  scan_line s line =
      if any is_control (without_comment line.text)
      then parse_error (next_line s line) invalid_data
      else trimmed_line (next_line s line) (trim is_space (without_comment line.text))

  unfoldable pub scan_lines : Scan → List PhysicalLine → Result Scan
  unfolding scan_line
  scan_lines s [] = ok s
  scan_lines s (line ∷ rest) = do s' ← scan_line s line; scan_lines s' rest

  unfoldable pub scan_config_envelope : Bytes → Result Scan
  unfolding scan_lines finish_scan
  scan_config_envelope contents =
      if ltb max_config_size (length contents)
      then err too_large 0
      else if length contents == 0
      then err invalid_data 0
      else if any (λ b. b == 0) contents
      then err invalid_data 0
      else (do s ← scan_lines started (lines contents); finish_scan s)
