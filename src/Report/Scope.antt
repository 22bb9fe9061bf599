-- ===== src/Report/Scope.antt =====
-- What a report segment claims, and the scopes of the segments of a report.
use mini_ltp.Prelude.{
  ℕ, ◌+◌, ◌≤◌, ◌<◌, ◌≡◌, List, [], ◌∷◌, ◌++◌, Bool, false, ◌||◌, ◌&&◌, arith, ltb, leb, length,
}
use mini_ltp.Segment.{ReceptionClaim}
use mini_ltp.Claims.Cover.{covered}
use mini_ltp.Reception.{ReportSeg}
use mini_ltp.Report.{max_claims_per_rs}

-- Claims between two bounds that rise, are not empty and do not overlap.
abbrev pub ClaimsIn : ℕ → ℕ → List ReceptionClaim → Type 0
ClaimsIn lo hi [] = lo ≤ hi
ClaimsIn lo hi (c ∷ cs) = (lo ≤ c.offset) × (0 < c.length) × ClaimsIn (c.offset + c.length) hi cs

pub ClaimsIn-append :
    (lo mid hi start size : ℕ) (cs : List ReceptionClaim)
    → ClaimsIn lo mid cs
    → mid ≤ start
    → 0 < size
    → start + size ≤ hi
    → ClaimsIn lo hi (cs ++ record { offset = start; length = size } ∷ [])
ClaimsIn-append lo mid hi start size [] a b c d = (omega arith, omega arith, omega arith)
ClaimsIn-append lo mid hi start size (x ∷ xs) (p, q, r) b c d =
    (p, q, ClaimsIn-append (x.offset + x.length) mid hi start size xs r b c d)

pub ClaimsIn-upper :
    (lo hi hi' : ℕ) (cs : List ReceptionClaim) → ClaimsIn lo hi cs → hi ≤ hi' → ClaimsIn lo hi' cs
ClaimsIn-upper lo hi hi' [] c h = omega arith
ClaimsIn-upper lo hi hi' (x ∷ xs) (p, q, r) h =
    (p, q, ClaimsIn-upper (x.offset + x.length) hi hi' xs r h)

pub covered-append :
    (b : ℕ) (xs ys : List ReceptionClaim) → covered b (xs ++ ys) ≡ (covered b xs || covered b ys)
covered-append b [] ys = ground arith
covered-append b (x ∷ xs) ys = ground (arith, covered-append b xs ys)

-- Does a report segment claim the byte?
abbrev pub reported : ℕ → List ReportSeg → Bool
reported b [] = false
reported b (r ∷ rs) = covered b r.reception_claims || reported b rs

abbrev pub within : ℕ → ℕ → ℕ → Bool
within b lo hi = leb lo b && ltb b hi

-- A report segment that the protocol allows: 1 to 20 claims, in order and within its bounds.
pub record IsReport (r : ReportSeg) : Type 0 where
  pub some_claim : 0 < length r.reception_claims
  pub few_claims : length r.reception_claims ≤ max_claims_per_rs
  pub claims : ClaimsIn r.lower_bound r.upper_bound r.reception_claims

-- The scopes of the segments follow one another from `lo` to `hi`.
abbrev pub Scoped : ℕ → ℕ → List ReportSeg → Type 0
Scoped lo hi [] = lo ≡ hi
Scoped lo hi (r ∷ rs) = (r.lower_bound ≡ lo) × IsReport r × Scoped r.upper_bound hi rs
