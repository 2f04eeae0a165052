-- ===== src/Config/Lines.antt =====
-- The physical lines that the loop of scan_config_envelope in config.c finds by memchr.
use network_manager_sidebar.Base.{
  ℕ, ◌+◌, ◌≡◌, refl, Bool, true, false, List, [], ◌∷◌, ◌==◌, if◌then◌else◌, length, Bytes, newline,
  arith,
}

-- `ended` is false for a last line without a newline.
pub record PhysicalLine : Type 0 where
  pub text : Bytes
  pub ended : Bool

abbrev pub cons_line : ℕ → List PhysicalLine → List PhysicalLine
cons_line c [] = (record { text = c ∷ []; ended = false }) ∷ []
cons_line c (line ∷ rest) = (record line { text = c ∷ line.text }) ∷ rest

unfoldable pub lines : Bytes → List PhysicalLine
lines [] = []
lines (c ∷ cs) =
    let rest = lines cs in
    if c == newline then (record { text = []; ended = true }) ∷ rest else cons_line c rest

-- `physical_end - physical_start`.
abbrev pub physical_length : PhysicalLine → ℕ
physical_length line = length line.text + (if line.ended then 1 else 0)

abbrev pub total_length : List PhysicalLine → ℕ
total_length [] = 0
total_length (line ∷ rest) = physical_length line + total_length rest

-- The lines make up the whole data.
pub lines-total : (contents : Bytes) → total_length (lines contents) ≡ length contents
unfolding lines
lines-total [] = refl
lines-total (c ∷ cs) = ground (arith, lines-total cs)
