-- ===== src/Base/Trim.antt =====
-- The trimming loops: what is trimmed away, and trimming again.
use Prim.Native.Nat.{ℕ}
use mathlib.Core.Path.{◌≡◌, refl, sym, ap, ◌∙◌}
use mathlib.Core.Bool.{Bool, false}
use mathlib.Core.List.{List, [], ◌∷◌, ◌++◌, append_assoc, append-nil}
use mathlib.Core.Logic.{inl, inr}
use network_manager_sidebar.Base.Tests.{Bool-cases}
use network_manager_sidebar.Base.Spans.{trim_start, trim_end, cons_trimmed, trim}

module _ (is_space : ℕ → Bool) where
  trim_start-span : (xs : List ℕ) → (before : List ℕ) × (xs ≡ before ++ trim_start is_space xs)
  unfolding trim_start
  trim_start-span [] = ([], refl)
  trim_start-span (x ∷ xs) =
      let (before, e) = trim_start-span xs in
      elim (Bool-cases (is_space x)) [
        | inl h ↦ (x ∷ before, rw h (ap (◌∷◌ x) e))
        | inr h ↦ ([], rw h refl)
      ]

  cons_trimmed-span :
      (x : ℕ) (ys : List ℕ) → (after : List ℕ) × (x ∷ ys ≡ cons_trimmed is_space x ys ++ after)
  cons_trimmed-span x [] = elim (Bool-cases (is_space x)) [
    | inl h ↦ (x ∷ [], rw h refl)
    | inr h ↦ ([], rw h refl)
  ]
  cons_trimmed-span x (y ∷ ys) = ([], sym (append-nil (x ∷ y ∷ ys)))

  trim_end-span : (xs : List ℕ) → (after : List ℕ) × (xs ≡ trim_end is_space xs ++ after)
  unfolding trim_end
  trim_end-span [] = ([], refl)
  trim_end-span (x ∷ xs) =
      let (after, e) = trim_end-span xs in
      let (last, f) = cons_trimmed-span x (trim_end is_space xs) in
      (
        last ++ after,
        ap (◌∷◌ x) e
            ∙ ap (λ zs. zs ++ after) f
            ∙ append_assoc (cons_trimmed is_space x (trim_end is_space xs)) last after,
      )

  -- What is left is a span of the text.
  pub trim-span :
      (xs : List ℕ)
      → (before : List ℕ) × ((after : List ℕ) × (xs ≡ before ++ (trim is_space xs ++ after)))
  unfolding trim
  trim-span xs =
      let (before, e) = trim_start-span xs in
      let (after, f) = trim_end-span (trim_start is_space xs) in
      (before, (after, e ∙ ap (◌++◌ before) f))

  trim_end-twice : (xs : List ℕ) → trim_end is_space (trim_end is_space xs) ≡ trim_end is_space xs
  unfolding trim_end
  trim_end-twice [] = refl
  trim_end-twice (x ∷ xs) = twice x (trim_end is_space xs) (trim_end-twice xs)
    where
      twice :
          (x : ℕ) (ys : List ℕ)
          → trim_end is_space ys ≡ ys
          → trim_end is_space (cons_trimmed is_space x ys) ≡ cons_trimmed is_space x ys
      twice x [] h = elim (Bool-cases (is_space x)) [ inl e ↦ rw e refl | inr e ↦ rw (e, e) refl ]
      twice x (y ∷ ys) h = rw h refl

  -- A text that does not begin with a space.
  abbrev Begun : List ℕ → Type 0
  Begun [] = Unit
  Begun (x ∷ xs) = is_space x ≡ false

  trim_start-Begun : (xs : List ℕ) → Begun (trim_start is_space xs)
  unfolding trim_start
  trim_start-Begun [] = tt
  trim_start-Begun (x ∷ xs) = elim (Bool-cases (is_space x)) [
    | inl h ↦ rw h (trim_start-Begun xs)
    | inr h ↦ rw h h
  ]

  trim_end-Begun : (xs : List ℕ) → Begun xs → Begun (trim_end is_space xs)
  unfolding trim_end
  trim_end-Begun [] b = tt
  trim_end-Begun (x ∷ xs) b = kept x (trim_end is_space xs) b
    where
      kept : (x : ℕ) (ys : List ℕ) → is_space x ≡ false → Begun (cons_trimmed is_space x ys)
      kept x [] h = rw h h
      kept x (y ∷ ys) h = h

  trim_start-same : (xs : List ℕ) → Begun xs → trim_start is_space xs ≡ xs
  unfolding trim_start
  trim_start-same [] b = refl
  trim_start-same (x ∷ xs) b = rw b refl

  -- A trimmed text is trimmed to itself.
  pub trim-twice : (xs : List ℕ) → trim is_space (trim is_space xs) ≡ trim is_space xs
  unfolding trim
  trim-twice xs =
      let body = trim_start is_space xs in
      ap (trim_end is_space)
        (trim_start-same (trim_end is_space body) (trim_end-Begun body (trim_start-Begun xs)))
      ∙ trim_end-twice body
