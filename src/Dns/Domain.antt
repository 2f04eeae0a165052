-- ===== src/Dns/Domain.antt =====
-- value_is_domain of dns_config.c.
use network_manager_sidebar.Base.{
  ℕ, ◌+◌, Bool, false, not, ◌&&◌, ◌||◌, Option, none, some, [], ◌∷◌, ltb, ◌==◌, if◌then◌else◌,
  length, Bytes, is_alnum, without_last, ends_with,
}

-- One round of the loop: the new label length, or `return FALSE`. `previous` is `start[i - 1]`.
unfoldable pub domain_byte : ℕ → ℕ → ℕ → Option ℕ
domain_byte label_length previous byte =
    if byte == b'.'
    then (if label_length == 0 || previous == b'-' then none else some 0)
    else if not (is_alnum byte) && not (byte == b'-')
    then none
    else if label_length == 0 && byte == b'-'
    then none
    else if ltb 63 (label_length + 1)
    then none
    else some (label_length + 1)

unfoldable pub domain_loop : ℕ → ℕ → Bytes → Bool
unfolding domain_byte
domain_loop label_length previous [] = ltb 0 label_length && not (previous == b'-')
domain_loop label_length previous (byte ∷ bytes) = elim (domain_byte label_length previous byte) [
  | none ↦ false
  | some next ↦ domain_loop next byte bytes
]

-- Without the dot of the root.
abbrev without_root : Bytes → Bytes
without_root domain = if ends_with b'.' domain then without_last domain else domain

unfoldable pub value_is_domain : Bytes → Bool
unfolding domain_loop ends_with
value_is_domain domain =
    if length domain == 0 || ltb 253 (length domain)
    then false
    else if length (without_root domain) == 0
    then false
    else domain_loop 0 0 (without_root domain)
