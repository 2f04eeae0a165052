-- ===== src/Base/Decimal.antt =====
-- Unsigned decimal numbers: printf's `%u`, and the loop that reads digits into a guint.
use Prim.Native.Nat.{ℕ, zero, suc, ◌+◌, ◌-◌, ◌*◌, ◌/◌, ◌%◌, ◌^◌, ◌≤◌, ◌<◌}
use mathlib.Core.Path.{◌≡◌, refl}
use mathlib.Core.Bool.{false, Bool, true, not}
use mathlib.Core.List.{[], ◌∷◌, ◌++◌}
use mathlib.Core.Option.{Option, none, some}
use mathlib.Core.Logic.{inl, inr}
use native.Mathlib.Omega.{arith}
use native.Mathlib.Nat.{pow-suc}
use network_manager_sidebar.Base.Tests.{
  ◌==◌, ltb, if◌then◌else◌, ◌>>=◌, if_ind, Option-cases, ltb→lt,
}
use network_manager_sidebar.Base.Lists.{length, all, length-append, all-append}
use network_manager_sidebar.Base.Strings.{Bytes, is_digit}

-- G_MAXUINT.
abbrev pub uint_max : ℕ
uint_max = 4294967295

-- `fuel` digits at most; ten are enough for a guint.
pub digits : ℕ → ℕ → Bytes
digits zero n = []
digits (suc fuel) n =
    let rest = digits fuel (n / 10) ++ (b'0' + n % 10) ∷ [] in
    if ltb n 10 then (b'0' + n) ∷ [] else rest

-- `%u`.
unfoldable pub decimal : ℕ → Bytes
unfolding digits
decimal n = digits 10 n

-- `if (value > (G_MAXUINT - digit) / 10) return FALSE; value = value * 10 + digit;`, behind the
-- test of the digit.
unfoldable pub push_digit : ℕ → ℕ → Option ℕ
push_digit value c =
    if not (is_digit c)
    then none
    else if ltb ((uint_max - (c - b'0')) / 10) value
    then none
    else some (value * 10 + (c - b'0'))

unfoldable pub read_digits : ℕ → Bytes → Option ℕ
unfolding push_digit
read_digits value [] = some value
read_digits value (c ∷ cs) = do next ← push_digit value c; read_digits next cs

pub read_digits-append :
    (value : ℕ) (xs ys : Bytes)
    → read_digits value (xs ++ ys) ≡ (do next ← read_digits value xs; read_digits next ys)
unfolding read_digits
read_digits-append value [] ys = refl
read_digits-append value (c ∷ cs) ys = elim (Option-cases (push_digit value c)) [
  | inl e ↦ rw e
  | inr (next, e) ↦ rw e (read_digits-append next cs ys)
]

read_last : (n : ℕ) → n ≤ uint_max → read_digits (n / 10) ((b'0' + n % 10) ∷ []) ≡ some n
unfolding read_digits
read_last n h = ground arith

read_one : (n : ℕ) → n < 10 → read_digits 0 ((b'0' + n) ∷ []) ≡ some n
unfolding read_digits
read_one n h = ground arith

read_digits-digits :
    (fuel n : ℕ) → n < 10 ^ suc fuel → n ≤ uint_max → read_digits 0 (digits (suc fuel) n) ≡ some n
unfolding digits
read_digits-digits zero n h l =
    if_ind (λ d. read_digits 0 d ≡ some n) (ltb n 10) (λ small. read_one n (ltb→lt n 10 small))
      (λ big. absurd (ground arith))
read_digits-digits (suc fuel) n h l =
    if_ind (λ d. read_digits 0 d ≡ some n) (ltb n 10) (λ small. read_one n (ltb→lt n 10 small))
      (λ big.
        rw
          (
            read_digits-append 0 (digits (suc fuel) (n / 10)) ((b'0' + n % 10) ∷ []),
            read_digits-digits fuel (n / 10) (omega (arith, pow-suc 10 (suc fuel))) (omega arith),
          )
          (read_last n l))

-- Every guint is read back.
pub read_digits-decimal : (n : ℕ) → n ≤ uint_max → read_digits 0 (decimal n) ≡ some n
unfolding decimal
read_digits-decimal n h = read_digits-digits 9 n (omega arith) h

all-digits : (fuel n : ℕ) → all is_digit (digits fuel n) ≡ true
unfolding digits
all-digits zero n = refl
all-digits (suc fuel) n =
    if_ind (λ d. all is_digit d ≡ true) (ltb n 10) (λ small. ground arith)
      (λ big. ground (
        arith,
        all-digits fuel (n / 10),
        all-append is_digit (digits fuel (n / 10)) ((b'0' + n % 10) ∷ []),
      ))

pub decimal-is_digit : (n : ℕ) → all is_digit (decimal n) ≡ true
unfolding decimal
decimal-is_digit n = all-digits 10 n

length-digits : (fuel n : ℕ) → length (digits fuel n) ≤ fuel
unfolding digits
length-digits zero n = omega arith
length-digits (suc fuel) n = ground (
  arith,
  length-digits fuel (n / 10),
  length-append (digits fuel (n / 10)) ((b'0' + n % 10) ∷ []),
)

pub length-decimal : (n : ℕ) → length (decimal n) ≤ 10
unfolding decimal
length-decimal n = length-digits 10 n

abbrev pub begins_with_zero : Bytes → Bool
begins_with_zero [] = false
begins_with_zero (c ∷ cs) = c == b'0'

begins_with_zero-append :
    (xs ys : Bytes) → 0 < length xs → begins_with_zero (xs ++ ys) ≡ begins_with_zero xs
begins_with_zero-append [] ys h = absurd (omega arith)
begins_with_zero-append (x ∷ xs) ys h = refl

pos-length-digits : (fuel n : ℕ) → 0 < length (digits (suc fuel) n)
unfolding digits
pos-length-digits fuel n =
    ground (arith, length-append (digits fuel (n / 10)) ((b'0' + n % 10) ∷ []))

digits-canonical :
    (fuel n : ℕ) → n < 10 ^ suc fuel → 0 < n → begins_with_zero (digits (suc fuel) n) ≡ false
unfolding digits
digits-canonical zero n h p = ground arith
digits-canonical (suc fuel) n h p =
    if_ind (λ d. begins_with_zero d ≡ false) (ltb n 10) (λ small. ground arith)
      (λ big.
        rw
          (begins_with_zero-append (digits (suc fuel) (n / 10)) ((b'0' + n % 10) ∷ [])
            (pos-length-digits fuel (n / 10)))
          (digits-canonical fuel (n / 10) (omega (arith, pow-suc 10 (suc fuel))) (ground arith)))

-- No leading zero.
pub decimal-canonical : (n : ℕ) → 0 < n → n ≤ uint_max → begins_with_zero (decimal n) ≡ false
unfolding decimal
decimal-canonical n p h = digits-canonical 9 n (omega arith) p

pub pos-length-decimal : (n : ℕ) → 0 < length (decimal n)
unfolding decimal
pos-length-decimal n = pos-length-digits 9 n

-- Short numbers, digit by digit.
pub decimal_one : (n : ℕ) → n < 10 → decimal n ≡ (b'0' + n) ∷ []
unfolding decimal
decimal_one n h = ground arith

pub decimal_two : (n : ℕ) → 10 ≤ n → n < 100 → decimal n ≡ (b'0' + n / 10) ∷ (b'0' + n % 10) ∷ []
unfolding decimal
decimal_two n l h = ground arith
