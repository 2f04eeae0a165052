-- ===== src/Names/Normalize/RoundTrip.antt =====
-- The file `NAME.conf` of a valid name gives that name back.
use network_manager_sidebar.Base.{
  ℕ, ◌+◌, ◌-◌, ◌≤◌, ◌<◌, ◌≡◌, ◌≢◌, refl, ap, ◌∙◌, ◌⊎◌, inl, inr, true, false, some, [], ◌∷◌, ◌++◌,
  leb, length, all, length-append, Bytes, codes, is_alnum, arith, append_assoc, append-nil,
  take_append, drop_append,
}
use network_manager_sidebar.Names.{is_name_byte, name_is_valid}
use network_manager_sidebar.Names.Normalize.{
  Normalizer, nonempty, normalize_byte, normalize, empty, interface_from_filename, stem,
}

abbrev settled : Bytes → Normalizer
settled text = record { normalized = text; pending_separator = false }

normalize_byte_name :
    (text : Bytes) (b : ℕ)
    → is_name_byte b ≡ true
    → (is_alnum b ≡ true) ⊎ (0 < length text)
    → length text < 15
    → normalize_byte (settled text) b ≡ settled (text ++ b ∷ [])
unfolding normalize_byte
normalize_byte_name text b n a l = ground arith

normalize_name :
    (text rest : Bytes)
    → all is_name_byte rest ≡ true
    → 0 < length text
    → length text + length rest ≤ 15
    → normalize (settled text) rest ≡ settled (text ++ rest)
unfolding normalize
normalize_name text [] n p l = rw append-nil
normalize_name text (b ∷ bs) n p l =
    rw (normalize_byte_name text b (ground arith) (inr p) (omega arith)) (
      normalize_name (text ++ b ∷ []) bs (ground arith) (omega (arith, length-append text (b ∷ [])))
        (omega (arith, length-append text (b ∷ [])))
      ∙ ap settled (append_assoc text (b ∷ []) bs))

normalize_valid :
    (name : Bytes) → name_is_valid (some name) ≡ true → normalize empty name ≡ settled name
unfolding name_is_valid normalize
normalize_valid [] v = cc
normalize_valid (c ∷ cs) v =
    rw (normalize_byte_name [] c (ground arith) (inl (ground arith)) (omega arith))
      (normalize_name (c ∷ []) cs (ground arith) (omega arith) (ground arith))

stem_conf : (name : Bytes) → stem (name ++ codes ".conf") ≡ name
unfolding stem
stem_conf name =
    let e : length (name ++ codes ".conf") ≡ length name + 5 = length-append name (codes ".conf") in
    let f : length name + 5 - 5 ≡ length name = omega arith in
    let g : leb 5 (length name + 5) ≡ true = ground arith in
    rw (e, f, g, drop_append name (codes ".conf")) (take_append name (codes ".conf"))

nonempty_valid : (name : Bytes) → name_is_valid (some name) ≡ true → nonempty name ≡ some name
unfolding nonempty name_is_valid
nonempty_valid [] v = cc
nonempty_valid (c ∷ cs) v = refl

-- A file name, not empty, whose base name is a valid name followed by `.conf` gives that name.
pub interface_from_filename-conf :
    (get_basename : Bytes → Bytes) (filename name : Bytes)
    → name_is_valid (some name) ≡ true
    → filename ≢ []
    → get_basename filename ≡ name ++ codes ".conf"
    → interface_from_filename get_basename (some filename) ≡ some name
unfolding interface_from_filename
interface_from_filename-conf get [] name v ne e = absurd (ne refl)
interface_from_filename-conf get (c ∷ cs) name v ne e =
    rw (e, stem_conf name, normalize_valid name v) (nonempty_valid name v)
