-- ===== src/Config/Safety.antt =====
-- An accepted configuration holds no command hook.
use network_manager_sidebar.Base.{
  ℕ, ◌≤◌, ◌≡◌, arith, Bool, false, Option, none, some, List, [], ◌∷◌, ltb, ◌==◌, if◌then◌else◌,
  length, any, All, Bytes, codes, equal_ignoring_case, trim, split_at, Bool-cases, inl, inr,
}
use network_manager_sidebar.Dns.{Family}
use network_manager_sidebar.Config.Errors.{invalid_data, too_large, ok, >>=-eq-ok, if_err-eq-ok}
use network_manager_sidebar.Config.Lines.{PhysicalLine, lines}
use network_manager_sidebar.Config.{
  Scan, started, is_unsafe_directive, without_comment, is_control, directive, trimmed_line,
  next_line, scan_line, scan_lines, finish_scan, scan_config_envelope, max_config_size,
}

module _ (is_space : ℕ → Bool) (inet_pton : Family → Bytes → Option Bytes) where
  -- The name of the directive on a line, `none` for a blank line, a comment, a section header or
  -- a line without `=`.
  abbrev key_of : Option (Bytes × Bytes) → Option Bytes
  key_of none = none
  key_of (some (before, after)) = some (trim is_space before)

  abbrev key_of_trimmed : Bytes → Option Bytes
  key_of_trimmed [] = none
  key_of_trimmed (c ∷ cs) = if c == b'[' then none else key_of (split_at b'=' (c ∷ cs))

  unfoldable pub directive_name : PhysicalLine → Option Bytes
  directive_name line = key_of_trimmed (trim is_space (without_comment line.text))

  -- None of PreUp, PostUp, PreDown and PostDown, in any case.
  abbrev pub IsNoHook : Bytes → Type 0
  IsNoHook key =
      (equal_ignoring_case key (codes "PreUp") ≡ false)
      × (equal_ignoring_case key (codes "PostUp") ≡ false)
      × (equal_ignoring_case key (codes "PreDown") ≡ false)
      × (equal_ignoring_case key (codes "PostDown") ≡ false)

  -- The line has no directive that is run as a command.
  abbrev pub RunsNoHook : PhysicalLine → Type 0
  RunsNoHook line = (key : Bytes) → directive_name line ≡ some key → IsNoHook key

  is_unsafe_directive_lem : (key : Bytes) → is_unsafe_directive key ≡ false → IsNoHook key
  unfolding is_unsafe_directive
  is_unsafe_directive_lem key h = ground arith

  directive_safe :
      (s : Scan) (parts : Option (Bytes × Bytes)) {s' : Scan}
      → directive is_space inet_pton s parts ≡ ok s'
      → (key : Bytes) → key_of parts ≡ some key
      → IsNoHook key
  directive_safe s none h key e = cc
  directive_safe s (some (before, after)) h key e = is_unsafe_directive_lem key (ground arith)

  trimmed_line_safe :
      (s : Scan) (text : Bytes) {s' : Scan}
      → trimmed_line is_space inet_pton s text ≡ ok s'
      → (key : Bytes) → key_of_trimmed text ≡ some key
      → IsNoHook key
  unfolding trimmed_line
  trimmed_line_safe s [] h key e = cc
  trimmed_line_safe s (c ∷ cs) h key e = elim (Bool-cases (c == b'[')) [
    | inl hit ↦ absurd (ground arith)
    | inr miss ↦ directive_safe s (split_at b'=' (c ∷ cs)) (rw miss at h) key (rw miss at e)
  ]

  scan_line_safe :
      (s : Scan) (line : PhysicalLine) {s' : Scan}
      → scan_line is_space inet_pton s line ≡ ok s'
      → RunsNoHook line
  unfolding scan_line directive_name
  scan_line_safe s line h key e = elim (Bool-cases (any is_control (without_comment line.text))) [
    | inl control ↦ absurd (ground arith)
    | inr plain ↦
        trimmed_line_safe (next_line s line) (trim is_space (without_comment line.text))
          (rw plain at h) key e
  ]

  scan_lines_safe :
      (s : Scan) (ls : List PhysicalLine) {s' : Scan}
      → scan_lines is_space inet_pton s ls ≡ ok s'
      → All RunsNoHook ls
  unfolding scan_lines
  scan_lines_safe s [] h = tt
  scan_lines_safe s (line ∷ rest) h =
      let (s1, later, first) = >>=-eq-ok _ (scan_line is_space inet_pton s line) h in
      (scan_line_safe s line first, scan_lines_safe s1 rest later)

  pub scan_config_envelope-lines :
      (contents : Bytes) {s : Scan}
      → scan_config_envelope is_space inet_pton contents ≡ ok s
      → (last : Scan) × (scan_lines is_space inet_pton started (lines contents) ≡ ok last)
        × (finish_scan last ≡ ok s)
        × (length contents ≤ max_config_size)
  unfolding scan_config_envelope
  scan_config_envelope-lines contents h =
      let (fits, h1) = if_err-eq-ok too_large 0 (ltb max_config_size (length contents)) h in
      let (filled, h2) = if_err-eq-ok invalid_data 0 (length contents == 0) h1 in
      let (text, h3) = if_err-eq-ok invalid_data 0 (any (λ b. b == 0) contents) h2 in
      let (last, finished, scanned) =
        >>=-eq-ok finish_scan (scan_lines is_space inet_pton started (lines contents)) h3 in
      (last, scanned, finished, ground arith)

  -- On no line of an accepted configuration, in any section, is there a directive PreUp, PostUp,
  -- PreDown or PostDown, in upper or lower case.
  pub scan_config_envelope-RunsNoHook :
      (contents : Bytes) {s : Scan}
      → scan_config_envelope is_space inet_pton contents ≡ ok s
      → All RunsNoHook (lines contents)
  scan_config_envelope-RunsNoHook contents h =
      let (last, scanned, finished, fits) = scan_config_envelope-lines contents h in
      scan_lines_safe started (lines contents) scanned
