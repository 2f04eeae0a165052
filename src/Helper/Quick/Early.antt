-- ===== src/Helper/Quick/Early.antt =====
-- The evidence that awg-quick up failed before it touched the resolver, the routes or the firewall.
use network_manager_sidebar.Base.{
  ℕ, ◌≡◌, refl, sym, ap, ◌∙◌, Bool, true, false, not, ◌&&◌, ◌||◌, List, [], ◌∷◌, ◌++◌, arith, leb,
  ◌==◌, if◌then◌else◌, all, Bytes, codes, length, newline, Bool-cases, inl, inr,
}
use network_manager_sidebar.Helper.Quick.{
  stage_code, Diagnostics, no_diagnostics, line_has_prefix, line_is_link_claim, is_fallback_marker,
  is_link_delete, stage_of_line,
}
use network_manager_sidebar.Helper.Quick.Classify.{
  classify_line, append_byte, consume_byte, consume, finish,
}
use network_manager_sidebar.Helper.Quick.Result.{SubprocessResult, failed_before_routes}

-- A line that is no command, the claim of the link, the deletion of a link, or a command of the
-- stages up to the MTU.
unfoldable pub is_early_line : Bytes → Bool
is_early_line line =
    not (line_has_prefix line (codes "[#]"))
    || is_fallback_marker line
    || line_is_link_claim line
    || is_link_delete line
    || (leb 1 (stage_code (stage_of_line line)) && leb (stage_code (stage_of_line line)) 5)

-- The lines that end in bytes behind `current`, and what is left behind the last of them.
unfoldable pub complete_lines : Bytes → Bytes → List Bytes
complete_lines current [] = []
complete_lines current (b ∷ bs) =
    if b == newline then current ∷ complete_lines [] bs else complete_lines (current ++ b ∷ []) bs

unfoldable pub unended : Bytes → Bytes → Bytes
unended current [] = current
unended current (b ∷ bs) = if b == newline then unended [] bs else unended (current ++ b ∷ []) bs

classify_line-early :
    (d : Diagnostics)
    → (classify_line d).recovery_blocked ≡ false
    → (d.recovery_blocked ≡ false) × (is_early_line d.line ≡ true)
unfolding classify_line is_early_line
classify_line-early d h = ground arith

-- What is discarded is blocked.
IsMarked : Diagnostics → Type 0
IsMarked d = not d.discarding || d.recovery_blocked ≡ true

classify_line-blocked :
    (d : Diagnostics) → d.recovery_blocked ≡ true → (classify_line d).recovery_blocked ≡ true
classify_line-blocked d b = elim (Bool-cases (classify_line d).recovery_blocked) [
  | inl e ↦ e
  | inr e ↦ let before = (classify_line-early d e).0 in cc
]

no_diagnostics-IsMarked : IsMarked no_diagnostics
unfolding IsMarked
no_diagnostics-IsMarked = refl

-- The line of a byte that was not the end of a line.
append_byte-early :
    (b : ℕ) (d : Diagnostics)
    → ((append_byte b d).recovery_blocked ≡ false
        → (d.recovery_blocked ≡ false)
          × ((append_byte b d).line ≡ d.line ++ b ∷ [])
          × ((append_byte b d).discarding ≡ d.discarding))
      × (IsMarked d → IsMarked (append_byte b d))
unfolding append_byte IsMarked
append_byte-early b d =
    let over = classify_line-blocked (record d { recovery_blocked = true }) refl in
    (λ h. ground (arith, over), λ h. ground (arith, over))

consume_byte-early :
    (b : ℕ) (d : Diagnostics)
    → IsMarked d
    → (IsMarked (consume_byte b d))
      × ((consume_byte b d).recovery_blocked ≡ false
          → (d.recovery_blocked ≡ false)
            × ((b == newline) && not (is_early_line d.line) ≡ false)
            × ((consume_byte b d).line ≡ (if b == newline then [] else d.line ++ b ∷ [])))
unfolding consume_byte IsMarked
consume_byte-early b d m =
    let appended = append_byte-early b d in
    let kept = appended.1 m in
    let classified = classify_line-early d in
    (ground (arith, kept), λ h. ground (arith, appended.0, classified))

consume-IsMarked : (bytes : Bytes) (d : Diagnostics) → IsMarked d → IsMarked (consume bytes d)
unfolding consume
consume-IsMarked [] d m = m
consume-IsMarked (b ∷ bs) d m = consume-IsMarked bs (consume_byte b d) (consume_byte-early b d m).0

consume-early :
    (bytes : Bytes) (d : Diagnostics)
    → IsMarked d
    → (consume bytes d).recovery_blocked ≡ false
    → (d.recovery_blocked ≡ false)
      × (all is_early_line (complete_lines d.line bytes) ≡ true)
      × ((consume bytes d).line ≡ unended d.line bytes)
unfolding consume complete_lines unended
consume-early [] d m h = (h, refl, refl)
consume-early (b ∷ bs) d m h =
    let (marked, step) = consume_byte-early b d m in
    let (free, lines, left) = consume-early bs (consume_byte b d) marked h in
    let (before, line, next) = step free in
    elim (Bool-cases (b == newline)) [
      | inl e ↦
          let here : (consume_byte b d).line ≡ [] = rw e at next in
          let early : is_early_line d.line ≡ true = ground (arith, rw e at line) in
          (before, rw (e, early) (rw here at lines), rw e (left ∙ ap (λ l. unended l bs) here))
      | inr e ↦
          let here : (consume_byte b d).line ≡ d.line ++ b ∷ [] = rw e at next in
          (before, rw e (rw here at lines), rw e (left ∙ ap (λ l. unended l bs) here))
    ]

-- awg_quick_diagnostics_consume on the pieces of the output, as they come.
unfoldable pub consume_pieces : List Bytes → Diagnostics → Diagnostics
unfolding consume
consume_pieces [] d = d
consume_pieces (piece ∷ rest) d = consume_pieces rest (consume piece d)

abbrev pub joined : List Bytes → Bytes
joined [] = []
joined (piece ∷ rest) = piece ++ joined rest

consume-append :
    (first second : Bytes) (d : Diagnostics)
    → consume (first ++ second) d ≡ consume second (consume first d)
unfolding consume
consume-append [] second d = refl
consume-append (b ∷ bs) second d = consume-append bs second (consume_byte b d)

consume_pieces-joined :
    (pieces : List Bytes) (d : Diagnostics) → consume_pieces pieces d ≡ consume (joined pieces) d
unfolding consume_pieces consume
consume_pieces-joined [] d = refl
consume_pieces-joined (piece ∷ rest) d =
    rw consume-append (consume_pieces-joined rest (consume piece d))

finish-early :
    (d : Diagnostics)
    → IsMarked d
    → (finish d).recovery_blocked ≡ false
    → (d.recovery_blocked ≡ false) × (length d.line ≡ 0)
unfolding finish IsMarked
finish-early d m h =
    let blocked = classify_line-blocked (record d { recovery_blocked = true }) refl in
    ground (arith, blocked)

length-zero : {line : Bytes} → length line ≡ 0 → line ≡ []
length-zero {line = []} h = refl
length-zero {line = b ∷ bs} h = ground (arith, h)

-- However the output of awg-quick up is cut into pieces: if it is taken as evidence of a failure
-- before the routes, then it ends in a complete line, and each of its lines is no command, or the
-- claim of the link, the deletion of a link, or a command of a stage up to the MTU. No line names a
-- command of the resolver, of the routes or of the firewall, and none an unknown command.
pub failed_before_routes-early :
    (pieces : List Bytes) (child : SubprocessResult)
    → failed_before_routes (finish (consume_pieces pieces no_diagnostics)) child ≡ true
    → (all is_early_line (complete_lines [] (joined pieces)) ≡ true)
      × (unended [] (joined pieces) ≡ [])
unfolding failed_before_routes
failed_before_routes-early pieces child h =
    let free : (finish (consume_pieces pieces no_diagnostics)).recovery_blocked ≡ false =
      ground (arith, h) in
    let whole = consume (joined pieces) no_diagnostics in
    let same = consume_pieces-joined pieces no_diagnostics in
    let marked = consume-IsMarked (joined pieces) no_diagnostics no_diagnostics-IsMarked in
    let (unblocked, ended) = finish-early whole marked (rw same at free) in
    let (_, lines, left) =
      consume-early (joined pieces) no_diagnostics no_diagnostics-IsMarked unblocked in
    (lines, sym left ∙ length-zero ended)
