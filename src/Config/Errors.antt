-- ===== src/Config/Errors.antt =====
-- The GError of config.c: its code, and the line of a parse error (0 where the message has none).
use network_manager_sidebar.Base.{true, false, if◌then◌else◌, Bool, ℕ, ◌≡◌, refl}

pub data ErrorCode : Type 0 where
  invalid_data too_large unsafe_directive missing_structure : ErrorCode

-- A GError that is set, or the value of a call that returned TRUE.
pub data Result {ℓ} (Value : Type ℓ) : Type ℓ where
  err : (code : ErrorCode) → (line : ℕ) → Result Value
  ok : Value → Result Value

module _ {ℓ κ} {First : Type ℓ} {Second : Type κ} where
  infixl 5 ◌>>=◌
  -- The next call, where the first one has set no error.
  abbrev pub ◌>>=◌ : Result First → (First → Result Second) → Result Second
  err code line >>= next = err code line
  ok value >>= next = next value

  -- A chain that succeeds, taken apart: the next call's result, and the first one's.
  pub >>=-eq-ok :
      (next : First → Result Second) (first : Result First) {result : Second}
      → (first >>= next) ≡ ok result
      → (value : First) × (next value ≡ ok result) × (first ≡ ok value)
  >>=-eq-ok next (err code line) done = cc
  >>=-eq-ok next (ok value) done = (value, done, refl)

module _ {ℓ} {Value : Type ℓ} (code : ErrorCode) (line : ℕ) where
  -- A guard that was passed.
  pub if_err-eq-ok :
      (guard : Bool) {rest : Result Value} {value : Value}
      → (if guard then err code line else rest) ≡ ok value
      → (guard ≡ false) × (rest ≡ ok value)
  if_err-eq-ok false done = (refl, done)
  if_err-eq-ok true done = cc
