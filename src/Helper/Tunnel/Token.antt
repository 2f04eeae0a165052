-- ===== src/Helper/Tunnel/Token.antt =====
-- generate_link_token of amneziawg_helper_tunnel.c, on the sixteen bytes that getrandom gave.
use network_manager_sidebar.Base.{
  ◌-◌, ℕ, ◌+◌, ◌*◌, ◌/◌, ◌%◌, ◌<◌, ◌≡◌, refl, Bool, true, some, [], ◌∷◌, arith, ltb, if◌then◌else◌,
  length, all, Bytes,
}
use network_manager_sidebar.Names.{link_token_is_valid, is_token_byte}

-- `hex[digit]` for a digit below sixteen.
abbrev pub hex_digit : ℕ → ℕ
hex_digit digit = if ltb digit 10 then b'0' + digit else b'a' + (digit - 10)

-- The high and the low half of each byte.
unfoldable pub token_of : Bytes → Bytes
token_of [] = []
token_of (byte ∷ rest) = hex_digit (byte / 16) ∷ (hex_digit (byte % 16) ∷ token_of rest)

abbrev pub is_byte : ℕ → Bool
is_byte b = ltb b 256

length-token_of : (bytes : Bytes) → length (token_of bytes) ≡ 2 * length bytes
unfolding token_of
length-token_of [] = refl
length-token_of (byte ∷ rest) = ground (arith, length-token_of rest)

hex_digit_valid : (digit : ℕ) → digit < 16 → is_token_byte (hex_digit digit) ≡ true
hex_digit_valid digit l = ground arith

token_of_bytes :
    (bytes : Bytes) → all is_byte bytes ≡ true → all is_token_byte (token_of bytes) ≡ true
unfolding token_of
token_of_bytes [] h = refl
token_of_bytes (byte ∷ rest) h =
    let small : byte < 256 = ground arith in
    let high : is_token_byte (hex_digit (byte / 16)) ≡ true =
      hex_digit_valid (byte / 16) (omega (arith, small)) in
    let low : is_token_byte (hex_digit (byte % 16)) ≡ true =
      hex_digit_valid (byte % 16) (omega (arith, small)) in
    let next = token_of_bytes rest (ground arith) in rw (high, low, next) refl

-- Every token that is generated from sixteen random bytes is a valid link token.
pub token_of_valid :
    (bytes : Bytes)
    → length bytes ≡ 16
    → all is_byte bytes ≡ true
    → link_token_is_valid (some (token_of bytes)) ≡ true
unfolding link_token_is_valid
token_of_valid bytes size h =
    let n : length (token_of bytes) ≡ 32 = rw (length-token_of bytes, size) refl in
    rw (n, token_of_bytes bytes h) refl
