-- ===== src/Names/Normalize.antt =====
-- network_sidebar_amneziawg_interface_from_filename of amneziawg.c.
pub mod RoundTrip
pub mod Valid
use network_manager_sidebar.Base.{
  ℕ, ◌+◌, ◌-◌, ◌≤◌, ◌≡◌, refl, ◌⊎◌, inl, inr, Bool, true, false, not, ◌&&◌, ◌||◌, Option, none,
  some, [], ◌∷◌, ◌++◌, ltb, leb, ◌==◌, if◌then◌else◌, length, all, all-append, length-append, drop,
  take, Bytes, codes, is_alnum, equal_ignoring_case, arith, ==_iff, Bool-cases, any,
}
use network_manager_sidebar.Names.{max_interface_length, is_name_byte, name_is_valid}

-- The GString `normalized` and `pending_separator`.
pub record Normalizer : Type 0 where
  pub normalized : Bytes
  pub pending_separator : Bool

abbrev pub is_separator : ℕ → Bool
is_separator byte = byte == b'_' || byte == b'-' || byte == b'.'

-- The `-` for a run of unsafe bytes, if there is room for it and for one more byte.
pub separated : Normalizer → Bytes
separated s =
    if s.pending_separator
      && ltb 0 (length s.normalized)
      && ltb (length s.normalized + 1) max_interface_length
    then s.normalized ++ b'-' ∷ []
    else s.normalized

pub append_bounded : Bytes → ℕ → Bytes
append_bounded text byte =
    if ltb (length text) max_interface_length then text ++ byte ∷ [] else text

-- One round of the loop.
pub normalize_byte : Normalizer → ℕ → Normalizer
unfolding separated append_bounded
normalize_byte s byte =
    if is_alnum byte
    then record { normalized = append_bounded (separated s) byte; pending_separator = false }
    else if is_separator byte && ltb 0 (length s.normalized)
    then record { normalized = append_bounded s.normalized byte; pending_separator = false }
    else if ltb 0 (length s.normalized)
    then record s { pending_separator = true }
    else s

pub normalize : Normalizer → Bytes → Normalizer
normalize s [] = s
normalize s (byte ∷ bytes) = normalize (normalize_byte s byte) bytes

-- The name without a `.conf` suffix in any case.
pub stem : Bytes → Bytes
stem basename =
    if leb 5 (length basename)
      && equal_ignoring_case (drop (length basename - 5) basename) (codes ".conf")
    then take (length basename - 5) basename
    else basename

abbrev pub empty : Normalizer
empty = record { normalized = []; pending_separator = false }

pub nonempty : Bytes → Option Bytes
nonempty [] = none
nonempty (c ∷ cs) = some (c ∷ cs)

-- `g_path_get_basename` is GLib's.
unfoldable pub interface_from_filename : (Bytes → Bytes) → Option Bytes → Option Bytes
unfolding nonempty normalize normalize_byte stem
interface_from_filename get_basename none = none
interface_from_filename get_basename (some []) = none
interface_from_filename get_basename (some (c ∷ cs)) =
    nonempty (normalize empty (stem (get_basename (c ∷ cs)))).normalized
