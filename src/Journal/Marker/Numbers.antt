-- ===== src/Journal/Marker/Numbers.antt =====
-- The numbers of a marker are read back.
use network_manager_sidebar.Base.{
  ℕ, ◌≤◌, ◌<◌, ◌≡◌, refl, Bool, true, false, some, [], ◌∷◌, length, all, all_mono, Bytes, arith,
  is_digit, is_not, newline, is_visible, trim-all, decimal, read_digits, read_digits-decimal,
  decimal-is_digit, decimal-canonical, decimal_one, decimal_two, uint_max, begins_with_zero,
  if◌then◌else◌, ==_iff, ◌==◌, ltb, pos-length-decimal, Bool-cases, inl, inr,
}
use network_manager_sidebar.Journal.Marker.{
  ifindex_parse, ifindex_of_text, was_active_of_text, firewall_scope_of_text,
}

pub digit_not_newline : (c : ℕ) → is_digit c ≡ true → is_not newline c ≡ true
digit_not_newline c h = ground arith

pub decimal_not_newline : (n : ℕ) → all (is_not newline) (decimal n) ≡ true
decimal_not_newline n =
    all_mono is_digit (is_not newline) digit_not_newline (decimal n) (decimal-is_digit n)

pub was_active_of_text-decimal :
    (b : Bool) → was_active_of_text (decimal (if b then 1 else 0)) ≡ some b
unfolding was_active_of_text decimal
was_active_of_text-decimal true = refl
was_active_of_text-decimal false = refl

pub firewall_scope_of_text-decimal : (n : ℕ) → n < 32 → firewall_scope_of_text (decimal n) ≡ some n
unfolding firewall_scope_of_text
firewall_scope_of_text-decimal n h = elim (Bool-cases (ltb n 10)) [
  | inl small ↦ rw (decimal_one n (ground arith)) (ground arith)
  | inr big ↦ rw (decimal_two n (ground arith) (omega arith)) (ground arith)
]

module _ (is_space : ℕ → Bool)
    (digit_visible : (c : ℕ) → is_digit c ≡ true → is_space c ≡ false) where
  ifindex_parse-digits :
      (c : ℕ) (cs : Bytes) {n : ℕ}
      → all is_digit (c ∷ cs) ≡ true
      → read_digits 0 (c ∷ cs) ≡ some n
      → 0 < n
      → ifindex_parse is_space (c ∷ cs) ≡ some n
  unfolding ifindex_parse
  ifindex_parse-digits c cs h r p =
      rw
        (
          trim-all is_space (c ∷ cs)
              (all_mono is_digit (is_visible is_space) (λ x d. rw (digit_visible x d)) (c ∷ cs) h),
          r,
        )
        (ground arith)

  ifindex_of_text-canonical :
      (text : Bytes) {n : ℕ}
      → all is_digit text ≡ true
      → begins_with_zero text ≡ false
      → read_digits 0 text ≡ some n
      → 0 < n
      → 0 < length text
      → ifindex_of_text is_space text ≡ some n
  unfolding ifindex_of_text
  ifindex_of_text-canonical [] a z r p l = absurd (omega arith)
  ifindex_of_text-canonical (c ∷ []) a z r p l = ground (arith, ifindex_parse-digits c [] a r p)
  ifindex_of_text-canonical (c ∷ d ∷ ds) a z r p l =
      ground (arith, ifindex_parse-digits c (d ∷ ds) a r p)

  -- Zero has a clause of its own; any other guint is printed without a leading zero.
  pub ifindex_of_text-decimal :
      (n : ℕ) → n ≤ uint_max → ifindex_of_text is_space (decimal n) ≡ some n
  unfolding ifindex_of_text
  ifindex_of_text-decimal n h = elim (Bool-cases (n == 0)) [
    | inl e ↦ rw ((==_iff n 0).0 e, decimal_one 0 (omega arith))
    | inr e ↦
        ifindex_of_text-canonical (decimal n) (decimal-is_digit n)
          (decimal-canonical n (ground arith) h) (read_digits-decimal n h) (ground arith)
          (pos-length-decimal n)
  ]
