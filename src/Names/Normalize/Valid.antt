-- ===== src/Names/Normalize/Valid.antt =====
-- Every name taken from a file name passes the test of profile names.
use network_manager_sidebar.Base.{
  ℕ, ◌<◌, ◌≡◌, refl, true, ◌&&◌, Option, none, some, [], ◌∷◌, ◌++◌, ltb, length, all-append,
  length-append, Bytes, is_alnum, arith, if_ind, ltb→lt,
}
use network_manager_sidebar.Names.{is_name_byte, name_is_valid}
use network_manager_sidebar.Names.Normalize.{
  Normalizer, separated, append_bounded, nonempty, is_separator, normalize_byte, normalize, empty,
  interface_from_filename, stem,
}

-- Empty so far, or a valid name.
abbrev IsGood : Bytes → Type 0
IsGood [] = Unit
IsGood (c ∷ cs) = name_is_valid (some (c ∷ cs)) ≡ true

IsGood-append :
    (xs : Bytes) (b : ℕ)
    → length xs < 15
    → is_name_byte b ≡ true
    → (xs ≡ [] → is_alnum b ≡ true)
    → IsGood xs
    → IsGood (xs ++ b ∷ [])
unfolding name_is_valid
IsGood-append [] b l n a g = ground (arith, a refl)
IsGood-append (c ∷ cs) b l n a g =
    ground (arith, length-append cs (b ∷ []), all-append is_name_byte cs (b ∷ []))

IsGood-append_bounded :
    (xs : Bytes) (b : ℕ)
    → is_name_byte b ≡ true
    → (xs ≡ [] → is_alnum b ≡ true)
    → IsGood xs
    → IsGood (append_bounded xs b)
unfolding append_bounded
IsGood-append_bounded xs b n a g =
    if_ind IsGood (ltb (length xs) 15) (λ room. IsGood-append xs b (ltb→lt _ _ room) n a g)
      (λ full. g)

-- A separator follows at least one byte.
IsGood-separated : (s : Normalizer) → IsGood s.normalized → IsGood (separated s)
unfolding separated
IsGood-separated s g =
    if_ind IsGood _
      (λ h. IsGood-append s.normalized b'-' (ground arith) refl (λ e. absurd (ground arith)) g)
      (λ h. g)

IsGood-normalize_byte :
    (s : Normalizer) (b : ℕ) → IsGood s.normalized → IsGood (normalize_byte s b).normalized
unfolding normalize_byte
IsGood-normalize_byte s b g =
    if_ind (λ (r : Normalizer). IsGood r.normalized) (is_alnum b)
      (λ h. IsGood-append_bounded (separated s) b (ground arith) (λ e. h) (IsGood-separated s g))
      (λ h.
        if_ind (λ (r : Normalizer). IsGood r.normalized)
          (is_separator b && ltb 0 (length s.normalized))
          (λ k. IsGood-append_bounded s.normalized b (ground arith) (λ e. absurd (ground arith)) g)
          (λ k.
            if_ind (λ (r : Normalizer). IsGood r.normalized) (ltb 0 (length s.normalized)) (λ l. g)
              (λ l. g)))

IsGood-normalize :
    (s : Normalizer) (bs : Bytes) → IsGood s.normalized → IsGood (normalize s bs).normalized
unfolding normalize
IsGood-normalize s [] g = g
IsGood-normalize s (b ∷ bs) g =
    IsGood-normalize (normalize_byte s b) bs (IsGood-normalize_byte s b g)

IsGood-nonempty :
    (xs : Bytes) {name : Bytes}
    → IsGood xs
    → nonempty xs ≡ some name
    → name_is_valid (some name) ≡ true
unfolding nonempty
IsGood-nonempty [] g h = cc
IsGood-nonempty (c ∷ cs) g h = ground arith

-- Whatever the file is called, and whatever `g_path_get_basename` answers, a name that is found
-- is a valid profile name.
pub interface_from_filename_valid :
    (get_basename : Bytes → Bytes) (filename : Option Bytes) {name : Bytes}
    → interface_from_filename get_basename filename ≡ some name
    → name_is_valid (some name) ≡ true
unfolding interface_from_filename
interface_from_filename_valid get none h = cc
interface_from_filename_valid get (some []) h = cc
interface_from_filename_valid get (some (c ∷ cs)) h =
    IsGood-nonempty _ (IsGood-normalize empty (stem (get (c ∷ cs))) tt) h
