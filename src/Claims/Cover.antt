-- ===== src/Claims/Cover.antt =====
-- The bytes of a block that a list of claims, or of extents, stands for.
use mini_ltp.Prelude.{
  ℕ, ◌+◌, ◌≤◌, ◌<◌, ◌≡◌, List, [], ◌∷◌, ◌++◌, Bool, false, ◌&&◌, ◌||◌, ltb, leb, arith,
}
use mini_ltp.Sdnv.{u32}
use mini_ltp.Segment.{ReceptionClaim}
use mini_ltp.Claims.{ExportExtent}

abbrev pub in_range : ℕ → ℕ → ℕ → Bool
in_range b offset length = leb offset b && ltb b (offset + length)

-- Is byte `b` claimed?
abbrev pub covered : ℕ → List ReceptionClaim → Bool
covered b [] = false
covered b (c ∷ cs) = in_range b c.offset c.length || covered b cs

abbrev pub to_send : ℕ → List ExportExtent → Bool
to_send b [] = false
to_send b (e ∷ es) = in_range b e.offset e.length || to_send b es

-- Claims from `lo` on that rise, are not empty, leave a gap between any two, and end within the
-- unsigned ints.
abbrev pub Separated : ℕ → List ReceptionClaim → Type 0
Separated lo [] = Unit {0}
Separated lo (c ∷ cs) =
    (lo ≤ c.offset)
    × (0 < c.length)
    × (c.offset + c.length < u32)
    × Separated (c.offset + c.length + 1) cs

pub Separated-mono :
    (lo lo' : ℕ) (cs : List ReceptionClaim) → lo' ≤ lo → Separated lo cs → Separated lo' cs
Separated-mono lo lo' [] h s = tt
Separated-mono lo lo' (c ∷ cs) h (a, b, d, e) = (omega arith, b, d, e)

-- Nothing below the first claim is covered.
pub covered_below :
    (lo b : ℕ) (cs : List ReceptionClaim) → Separated lo cs → b < lo → covered b cs ≡ false
covered_below lo b [] s h = ground arith
covered_below lo b (c ∷ cs) (p, q, r, s) h =
    ground (arith, covered_below (c.offset + c.length + 1) b cs s)

pub to_send-append :
    (b : ℕ) (xs ys : List ExportExtent) → to_send b (xs ++ ys) ≡ (to_send b xs || to_send b ys)
to_send-append b [] ys = ground arith
to_send-append b (e ∷ xs) ys = ground (arith, to_send-append b xs ys)
