-- ===== src/Report/Lines.antt =====
-- Splitting a joined text into its lines, and reading a printed number: what the reader of
-- profile_report.c does with the output of its writer.
use network_manager_sidebar.Base.{
  ℕ, ◌+◌, ◌-◌, ◌*◌, ◌≤◌, ◌≡◌, refl, ap, ◌∙◌, arith, true, some, List, [], ◌∷◌, ◌++◌, all, All,
  Bytes, is_not, newline, split_all, ends_with, decimal, uint_max, read_digits, push_digit,
  read_digits-decimal, decimal-is_digit, pos-length-decimal,
}
use network_manager_sidebar.Report.{digits_value, parse_uint}

unfoldable pub unlines : List Bytes → Bytes
unlines [] = []
unlines (line ∷ rest) = line ++ newline ∷ unlines rest

pub split_all-append :
    (b : ℕ) (xs ys : Bytes)
    → all (is_not b) xs ≡ true
    → split_all b (xs ++ b ∷ ys) ≡ xs ∷ split_all b ys
unfolding split_all
split_all-append b [] ys h = ground arith
split_all-append b (x ∷ xs) ys h = ground (arith, split_all-append b xs ys)

pub split_all-whole : (b : ℕ) (xs : Bytes) → all (is_not b) xs ≡ true → split_all b xs ≡ xs ∷ []
unfolding split_all
split_all-whole b [] h = refl
split_all-whole b (x ∷ xs) h = ground (arith, split_all-whole b xs)

abbrev pub Free : ℕ → Bytes → Type 0
Free b line = all (is_not b) line ≡ true

pub split_all-unlines :
    (ls : List Bytes) → All (Free newline) ls → split_all newline (unlines ls) ≡ ls ++ [] ∷ []
unfolding unlines split_all
split_all-unlines [] h = refl
split_all-unlines (line ∷ rest) (free, frees) =
    split_all-append newline line (unlines rest) free ∙ ap (◌∷◌ line) (split_all-unlines rest frees)

ends_with-append : (b : ℕ) (xs ys : Bytes) → ends_with b ys ≡ true → ends_with b (xs ++ ys) ≡ true
unfolding ends_with
ends_with-append b [] ys h = h
ends_with-append b (x ∷ []) [] h = cc
ends_with-append b (x ∷ []) (y ∷ ys) h = h
ends_with-append b (x ∷ x2 ∷ xs) ys h = ends_with-append b (x2 ∷ xs) ys h

pub ends_with-unlines :
    (line : Bytes) (rest : List Bytes) → ends_with newline (unlines (line ∷ rest)) ≡ true
unfolding unlines ends_with
ends_with-unlines line [] = ends_with-append newline line (newline ∷ []) refl
ends_with-unlines line (l ∷ rest) =
    ends_with-append newline line (newline ∷ unlines (l ∷ rest))
      (ends_with-append newline (newline ∷ []) (unlines (l ∷ rest)) (ends_with-unlines l rest))

read_digits-value :
    (value : ℕ) (xs : Bytes) {n : ℕ} → read_digits value xs ≡ some n → digits_value value xs ≡ n
unfolding read_digits push_digit
read_digits-value value [] h = ground arith
read_digits-value value (c ∷ cs) {n} h =
    ground (arith, read_digits-value (value * 10 + (c - b'0')) cs {n = n})

-- A printed number is read back.
pub parse_uint-decimal :
    (n maximum : ℕ) → n ≤ maximum → maximum ≤ uint_max → parse_uint (decimal n) maximum ≡ some n
unfolding parse_uint
parse_uint-decimal n maximum h l =
    let value = read_digits-value 0 (decimal n) (read_digits-decimal n (omega arith)) in
    ground (arith, pos-length-decimal n, decimal-is_digit n)
