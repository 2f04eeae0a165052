-- ===== src/Config/Snapshot.antt =====
-- Lengths of the runtime snapshot of config.c, and the reserve of the link claim in
-- amneziawg_quick_config.c.
use network_manager_sidebar.Base.{
  split_at, trim, ℕ, ◌+◌, ◌≤◌, ◌<◌, ◌≡◌, sym, arith, Bool, true, false, ◌&&◌, Option, none, some,
  List, [], ◌∷◌, ltb, ◌==◌, length, length-append, take-append-drop, take, drop, any, Bytes,
  Bool-cases, inl, inr,
}
use network_manager_sidebar.Dns.{Family, DnsConfig}
use network_manager_sidebar.Names.{link_token_is_valid}
use network_manager_sidebar.Config.Errors.{ok, >>=-eq-ok}
use network_manager_sidebar.Config.Lines.{
  PhysicalLine, lines, physical_length, total_length, lines-total,
}
use network_manager_sidebar.Config.Envelope.{
  ConfigEnvelope, config_parse_envelope, is_unended, inserted, separator_length, link_hook_reserve,
  claim_lines, build_snapshot, runtime_snapshot_build, quick_build_snapshot, claim_at,
  quick_add_link_claim,
}
use network_manager_sidebar.Config.Safety.{scan_config_envelope-lines}
use network_manager_sidebar.Config.{
  in_section, dns_added, interface_directive, without_comment, is_control, Section, Scan, started,
  section_line, directive, trimmed_line, next_line, scan_line, scan_lines, finish_scan,
  scan_config_envelope, max_config_size,
}

length-inserted :
    (contents : Bytes) (offset : ℕ) (separated : Bool) (text : Bytes)
    → length (inserted contents offset separated text)
      ≡ length contents + separator_length separated + length text
length-inserted contents offset true text =
    let whole = length-append (take offset contents) (drop offset contents) in
    let back = take-append-drop offset contents in
    simp length-append (omega (arith, whole, sym (rw back at whole)))
length-inserted contents offset false text =
    let whole = length-append (take offset contents) (drop offset contents) in
    let back = take-append-drop offset contents in
    simp length-append (omega (arith, whole, sym (rw back at whole)))

length-token : (token : Bytes) → link_token_is_valid (some token) ≡ true → length token ≡ 32
unfolding link_token_is_valid
length-token token h = ground arith

length-claim_lines :
    (token : Bytes)
    → link_token_is_valid (some token) ≡ true
    → (0 < length (claim_lines token)) × (length (claim_lines token) < link_hook_reserve)
unfolding claim_lines
length-claim_lines token h =
    let size = length-token token h in
    (simp length-append (omega (arith, size)), simp length-append (omega (arith, size)))

module _ (is_space : ℕ → Bool) (inet_pton : Family → Bytes → Option Bytes) where
  -- The end of the interface line lies in the bytes that are read.
  abbrev InBounds : Scan → Type 0
  InBounds s = s.interface_line_end ≤ s.offset

  section_line-InBounds :
      (s : Scan) (rest : Bytes) {s' : Scan}
      → InBounds s
      → section_line is_space inet_pton s rest ≡ ok s'
      → InBounds s' × (s'.offset ≡ s.offset)
  unfolding section_line
  section_line-InBounds s rest b h = ground arith

  dns_added-InBounds :
      (s : Scan) (dns : Option DnsConfig) {s' : Scan}
      → InBounds s
      → dns_added is_space inet_pton s dns ≡ ok s'
      → InBounds s' × (s'.offset ≡ s.offset)
  dns_added-InBounds s dns b h = ground arith

  interface_directive-InBounds :
      (s : Scan) (key value : Bytes) {s' : Scan}
      → InBounds s
      → interface_directive is_space inet_pton s key value ≡ ok s'
      → InBounds s' × (s'.offset ≡ s.offset)
  unfolding interface_directive
  interface_directive-InBounds s key value b h = ground arith

  in_section-InBounds :
      (section : Section) (s : Scan) (key value : Bytes) {s' : Scan}
      → InBounds s
      → in_section is_space inet_pton section s key value ≡ ok s'
      → InBounds s' × (s'.offset ≡ s.offset)
  in_section-InBounds Section.interface s key value b h =
      interface_directive-InBounds s key value b h
  in_section-InBounds Section.outside s key value b h = ground arith
  in_section-InBounds Section.other s key value b h = ground arith

  directive-InBounds :
      (s : Scan) (parts : Option (Bytes × Bytes)) {s' : Scan}
      → InBounds s
      → directive is_space inet_pton s parts ≡ ok s'
      → InBounds s' × (s'.offset ≡ s.offset)
  directive-InBounds s none b h = cc
  directive-InBounds s (some (before, after)) {s'} b h = ground (
    arith,
    in_section-InBounds s.section s (trim is_space before) (trim is_space after) {s' = s'} b,
  )

  trimmed_line-InBounds :
      (s : Scan) (text : Bytes) {s' : Scan}
      → InBounds s
      → trimmed_line is_space inet_pton s text ≡ ok s'
      → InBounds s' × (s'.offset ≡ s.offset)
  unfolding trimmed_line
  trimmed_line-InBounds s [] b h = ground arith
  trimmed_line-InBounds s (c ∷ cs) b h = elim (Bool-cases (c == b'[')) [
    | inl hit ↦ section_line-InBounds s cs b (rw hit at h)
    | inr miss ↦ directive-InBounds s (split_at b'=' (c ∷ cs)) b (rw miss at h)
  ]

  scan_line-InBounds :
      (s : Scan) (line : PhysicalLine) {s' : Scan}
      → InBounds s
      → scan_line is_space inet_pton s line ≡ ok s'
      → InBounds s' × (s'.offset ≡ s.offset + physical_length line)
  unfolding scan_line
  scan_line-InBounds s line b h = elim (Bool-cases (any is_control (without_comment line.text))) [
    | inl control ↦ absurd (ground arith)
    | inr plain ↦
        trimmed_line-InBounds (next_line s line) (trim is_space (without_comment line.text))
          (omega arith) (rw plain at h)
  ]

  scan_lines-InBounds :
      (s : Scan) (ls : List PhysicalLine) {s' : Scan}
      → InBounds s
      → scan_lines is_space inet_pton s ls ≡ ok s'
      → s'.interface_line_end ≤ s.offset + total_length ls
  unfolding scan_lines
  scan_lines-InBounds s [] b h = ground arith
  scan_lines-InBounds s (line ∷ rest) b h =
      let (s1, later, first) = >>=-eq-ok _ (scan_line is_space inet_pton s line) h in
      let (b1, step) = scan_line-InBounds s line b first in
      omega (arith, step, scan_lines-InBounds s1 rest b1 later)

  -- The end of the interface line of an accepted configuration lies in it.
  pub scan_config_envelope-bounds :
      (contents : Bytes) {s : Scan}
      → scan_config_envelope is_space inet_pton contents ≡ ok s
      → s.interface_line_end ≤ length contents
  unfolding finish_scan
  scan_config_envelope-bounds contents h =
      let (last, scanned, finished, fits) =
        scan_config_envelope-lines is_space inet_pton contents h in
      let inside = scan_lines-InBounds started (lines contents) (omega arith) scanned in
      ground (arith, lines-total contents)

  -- The snapshot that is built is as long as the protocol configuration and the quick directives
  -- together, or one byte longer, and leaves the reserve free below the size limit.
  pub runtime_snapshot_build-length :
      (protocol : Bytes) (envelope : ConfigEnvelope) (size_reserve : ℕ) {snapshot : Bytes}
      → runtime_snapshot_build is_space inet_pton protocol envelope size_reserve ≡ ok snapshot
      → (length protocol + length envelope.quick_config ≤ length snapshot)
        × (length snapshot ≤ length protocol + length envelope.quick_config + 1)
        × (length snapshot + size_reserve ≤ max_config_size)
  unfolding runtime_snapshot_build build_snapshot
  runtime_snapshot_build-length protocol envelope size_reserve h =
      let (s, built, scanned) = >>=-eq-ok _ (scan_config_envelope is_space inet_pton protocol) h in
      ground (
        arith,
        length-inserted protocol s.interface_line_end
            (ltb 0 (length envelope.quick_config) && is_unended protocol s.interface_line_end)
            envelope.quick_config,
      )

  -- For a valid token, a snapshot of the helper that parses has room for the link claim: adding
  -- the claim succeeds, and puts the claim in behind the interface line.
  pub quick_add_link_claim-room :
      (protocol : Bytes) (envelope parsed : ConfigEnvelope) (token : Bytes) {snapshot : Bytes}
      → quick_build_snapshot is_space inet_pton protocol envelope ≡ ok snapshot
      → config_parse_envelope is_space inet_pton snapshot ≡ ok parsed
      → link_token_is_valid (some token) ≡ true
      → quick_add_link_claim is_space inet_pton snapshot (some token)
        ≡ ok (
            inserted snapshot parsed.interface_line_end
              (is_unended snapshot parsed.interface_line_end)
              (claim_lines token))
  unfolding quick_build_snapshot quick_add_link_claim claim_at
  quick_add_link_claim-room protocol envelope parsed token h p v =
      let (low, high, room) = runtime_snapshot_build-length protocol envelope link_hook_reserve h in
      let (some_text, short) = length-claim_lines token v in rw (v, p) (ground arith)
