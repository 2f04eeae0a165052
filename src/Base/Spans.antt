-- ===== src/Base/Spans.antt =====
-- Searches in byte spans (memchr, memcmp with a length), and the trimming loops.
use Prim.Native.Nat.{ℕ, ◌+◌, ◌≤◌}
use mathlib.Core.Path.{refl, ◌≡◌, ap, ◌∙◌}
use mathlib.Core.Bool.{Bool, true, false, not}
use mathlib.Core.List.{List, [], ◌∷◌, ◌++◌}
use mathlib.Core.Option.{Option, none, some}
use mathlib.Core.Logic.{inl, inr}
use native.Mathlib.Omega.{arith}
use network_manager_sidebar.Base.Tests.{
  ltb, ◌==◌, if◌then◌else◌, ◌>>=◌, >>=-eq-some, Bool-cases, Option-cases, &&-right,
}
use network_manager_sidebar.Base.Lists.{length, all, length-append}
use network_manager_sidebar.Base.Strings.{
  Bytes, strip_prefix, strip_prefix-append, strip_prefix-eq-some,
}

abbrev pub newline : ℕ
newline = 10

-- The span without its last byte, and the test of its last byte.
abbrev pub without_last : Bytes → Bytes
without_last [] = []
without_last (x ∷ []) = []
without_last (x ∷ y ∷ ys) = x ∷ without_last (y ∷ ys)

unfoldable pub ends_with : ℕ → Bytes → Bool
ends_with b [] = false
ends_with b (x ∷ []) = x == b
ends_with b (x ∷ y ∷ ys) = ends_with b (y ∷ ys)

-- The test of a byte that is not `b`.
abbrev pub is_not : ℕ → ℕ → Bool
is_not b c = not (c == b)

abbrev pub cons_first : ℕ → Option (Bytes × Bytes) → Option (Bytes × Bytes)
cons_first x none = none
cons_first x (some (before, after)) = some (x ∷ before, after)

-- memchr: the span before the first `b`, and the one after it.
unfoldable pub split_at : ℕ → Bytes → Option (Bytes × Bytes)
split_at b [] = none
split_at b (x ∷ xs) =
    let rest = cons_first x (split_at b xs) in if x == b then some ([], xs) else rest

pub split_at-append :
    (b : ℕ) (before after : Bytes)
    → all (is_not b) before ≡ true
    → split_at b (before ++ b ∷ after) ≡ some (before, after)
unfolding split_at
split_at-append b [] after h = ground arith
split_at-append b (x ∷ xs) after h = ground (arith, split_at-append b xs after)

pub split_at-eq-some :
    (b : ℕ) (xs : Bytes) {before after : Bytes}
    → split_at b xs ≡ some (before, after)
    → (xs ≡ before ++ b ∷ after) × (all (is_not b) before ≡ true)
unfolding split_at
split_at-eq-some b [] h = cc
split_at-eq-some b (x ∷ xs) {before} {after} h = elim (Bool-cases (x == b)) [
  | inl hit ↦ ground arith
  | inr miss ↦ elim (Option-cases (split_at b xs)) [
    | inl e ↦ absurd (ground arith)
    | inr (p, e) ↦ let ih = split_at-eq-some b xs {before = p.0} {after = p.1} e in ground arith
  ]
]

-- The rest of a span that has at least `minimum` bytes and begins with `prefix`.
unfoldable pub expect : ℕ → Bytes → Bytes → Option Bytes
expect minimum prefix span = if ltb (length span) minimum then none else strip_prefix prefix span

expect-eq-some :
    (minimum : ℕ) (prefix span : Bytes) {body : Bytes}
    → expect minimum prefix span ≡ some body
    → strip_prefix prefix span ≡ some body
unfolding expect
expect-eq-some minimum prefix span h = ground arith

pub expect_lem :
    (minimum : ℕ) (prefix rest : Bytes)
    → minimum ≤ length prefix + length rest
    → expect minimum prefix (prefix ++ rest) ≡ some rest
unfolding expect
expect_lem minimum prefix rest l =
    let long : ltb (length (prefix ++ rest)) minimum ≡ false =
      ground (arith, length-append prefix rest) in
    rw long (strip_prefix-append prefix rest)

-- A line `prefix`, value, newline: the value and the span after it.
unfoldable pub take_field : ℕ → Bytes → Bytes → Option (Bytes × Bytes)
unfolding expect
take_field minimum prefix span = do body ← expect minimum prefix span; split_at newline body

pub take_field_lem :
    (minimum : ℕ) (prefix value rest : Bytes)
    → all (is_not newline) value ≡ true
    → minimum ≤ length prefix + length value + 1
    → take_field minimum prefix (prefix ++ (value ++ newline ∷ rest)) ≡ some (value, rest)
unfolding take_field
take_field_lem minimum prefix value rest h l =
    let long : ltb (length (prefix ++ (value ++ newline ∷ rest))) minimum ≡ false = ground (
      arith,
      length-append prefix (value ++ newline ∷ rest),
      length-append value (newline ∷ rest),
    ) in
    rw (long, strip_prefix-append prefix (value ++ newline ∷ rest))
      (split_at-append newline value rest h)

pub take_field-eq-some :
    (minimum : ℕ) (prefix span : Bytes) {value rest : Bytes}
    → take_field minimum prefix span ≡ some (value, rest)
    → (span ≡ prefix ++ (value ++ newline ∷ rest)) × (all (is_not newline) value ≡ true)
unfolding take_field
take_field-eq-some minimum prefix span h =
    let (body, e, f) = >>=-eq-some (expect minimum prefix span) (split_at newline) h in
    let (shape, clean) = split_at-eq-some newline body f in
    (
      strip_prefix-eq-some prefix span (expect-eq-some minimum prefix span e)
          ∙ ap (◌++◌ prefix) shape,
      clean,
    )

module _ (is_space : ℕ → Bool) where
  -- `while (start < end && isspace (*start)) start++`.
  unfoldable pub trim_start : Bytes → Bytes
  trim_start [] = []
  trim_start (x ∷ xs) = let rest = trim_start xs in if is_space x then rest else x ∷ xs

  abbrev pub cons_trimmed : ℕ → Bytes → Bytes
  cons_trimmed x [] = if is_space x then [] else x ∷ []
  cons_trimmed x (y ∷ ys) = x ∷ y ∷ ys

  -- `while (end > start && isspace (end[-1])) end--`.
  unfoldable pub trim_end : Bytes → Bytes
  trim_end [] = []
  trim_end (x ∷ xs) = cons_trimmed x (trim_end xs)

  -- trim_span.
  unfoldable pub trim : Bytes → Bytes
  unfolding trim_start trim_end
  trim span = trim_end (trim_start span)

  abbrev pub is_visible : ℕ → Bool
  is_visible c = not (is_space c)

  trim_start-all : (xs : Bytes) → all is_visible xs ≡ true → trim_start xs ≡ xs
  unfolding trim_start
  trim_start-all [] h = refl
  trim_start-all (x ∷ xs) h = ground arith

  trim_end-all : (xs : Bytes) → all is_visible xs ≡ true → trim_end xs ≡ xs
  unfolding trim_end
  trim_end-all [] h = refl
  trim_end-all (x ∷ []) h = ground arith
  trim_end-all (x ∷ y ∷ ys) h = rw (trim_end-all (y ∷ ys) (&&-right (is_visible x) _ h))

  -- A span without white space is left as it is.
  pub trim-all : (xs : Bytes) → all is_visible xs ≡ true → trim xs ≡ xs
  unfolding trim
  trim-all xs h = rw (trim_start-all xs h) (trim_end-all xs h)

abbrev pub cons_head : ℕ → List Bytes → List Bytes
cons_head x [] = (x ∷ []) ∷ []
cons_head x (item ∷ items) = (x ∷ item) ∷ items

-- All the spans between two occurrences of `b`, with the first and the last one.
unfoldable pub split_all : ℕ → Bytes → List Bytes
split_all b [] = [] ∷ []
split_all b (x ∷ xs) = let rest = split_all b xs in if x == b then [] ∷ rest else cons_head x rest
