-- ===== src/Report/Repair.antt =====
-- The report at the receiver and its use at the sender, together: what is retransmitted is what has
-- not been received.
use mini_ltp.Prelude.{
  ℕ, ◌+◌, ◌≤◌, ◌<◌, ◌≡◌, List, [], ◌∷◌, false, true, ◌||◌, ◌&&◌, not, arith, All,
}
use mini_ltp.Sdnv.{u32}
use mini_ltp.Segment.{ReceptionClaim}
use mini_ltp.Claims.{merge_claims, gaps}
use mini_ltp.Claims.Cover.{covered, Separated, to_send}
use mini_ltp.Claims.Merge.{IsNew}
use mini_ltp.Claims.Gaps.{gaps-merge_claims}
use mini_ltp.Reception.{RecvSeg, ReportSeg}
use mini_ltp.Reception.Disjoint.{received}
use mini_ltp.Report.Scope.{ClaimsIn, reported, within, IsReport, Scoped}

ClaimsIn-le : (lo hi : ℕ) (cs : List ReceptionClaim) → ClaimsIn lo hi cs → lo ≤ hi
ClaimsIn-le lo hi [] c = c
ClaimsIn-le lo hi (x ∷ xs) (p, q, r) = omega (arith, ClaimsIn-le (x.offset + x.length) hi xs r)

ClaimsIn-IsNew :
    (lo hi : ℕ) (cs : List ReceptionClaim) → hi < u32 → ClaimsIn lo hi cs → All IsNew cs
ClaimsIn-IsNew lo hi [] h c = tt
ClaimsIn-IsNew lo hi (x ∷ xs) h (p, q, r) = (
  record { some_data = q; within = omega (arith, ClaimsIn-le (x.offset + x.length) hi xs r) },
  ClaimsIn-IsNew (x.offset + x.length) hi xs h r,
)

covered_outside :
    (b lo hi : ℕ) (cs : List ReceptionClaim)
    → ClaimsIn lo hi cs
    → within b lo hi ≡ false
    → covered b cs ≡ false
covered_outside b lo hi [] c h = ground arith
covered_outside b lo hi (x ∷ xs) (p, q, r) h = ground (
  arith,
  covered_outside b (x.offset + x.length) hi xs r,
  ClaimsIn-le (x.offset + x.length) hi xs r,
)

Scoped-le : (lo hi : ℕ) (rs : List ReportSeg) → Scoped lo hi rs → lo ≤ hi
Scoped-le lo hi [] s = omega arith
Scoped-le lo hi (r ∷ rs) (e, v, s) = omega (
  arith,
  e,
  ClaimsIn-le r.lower_bound r.upper_bound r.reception_claims v.claims,
  Scoped-le r.upper_bound hi rs s,
)

reported_below :
    (b lo hi : ℕ) (rs : List ReportSeg) → Scoped lo hi rs → b < lo → reported b rs ≡ false
reported_below b lo hi [] s h = ground arith
reported_below b lo hi (r ∷ rs) (e, v, s) h =
    let le : r.lower_bound ≤ r.upper_bound =
      ClaimsIn-le r.lower_bound r.upper_bound r.reception_claims v.claims in
    let here : covered b r.reception_claims ≡ false =
      covered_outside b r.lower_bound r.upper_bound r.reception_claims v.claims (ground arith) in
    rw here (reported_below b r.upper_bound hi rs s (omega arith))

-- Within the scope of a segment only its own claims count.
abbrev IsLocal : List ReportSeg → ℕ → ℕ → ReportSeg → Type 0
IsLocal reports lo hi r =
    IsReport r
    × (lo ≤ r.lower_bound)
    × (r.upper_bound ≤ hi)
    × ((b : ℕ)
        → within b r.lower_bound r.upper_bound ≡ true
        → covered b r.reception_claims ≡ reported b reports)

module _ {ℓ κ} {A : Type ℓ} (P Q : A → Type κ) (f : (a : A) → P a → Q a) where
  All-map : (xs : List A) → All P xs → All Q xs
  All-map [] h = h
  All-map (x ∷ xs) (p, h) = (f x p, All-map xs h)

Scoped-IsLocal : (lo hi : ℕ) (rs : List ReportSeg) → Scoped lo hi rs → All (IsLocal rs lo hi) rs
Scoped-IsLocal lo hi [] s = tt
Scoped-IsLocal lo hi (r ∷ rs) (e, v, s) =
    let le : r.lower_bound ≤ r.upper_bound =
      ClaimsIn-le r.lower_bound r.upper_bound r.reception_claims v.claims in
    (
      (
        v,
        omega arith,
        Scoped-le r.upper_bound hi rs s,
        λ b h. ground (arith, reported_below b r.upper_bound hi rs s),
      ),
      All-map (IsLocal rs r.upper_bound hi) (IsLocal (r ∷ rs) lo hi)
          (λ x (w, k, m, f). (
            w,
            omega arith,
            m,
            λ b h. ground (
              arith,
              f b h,
              covered_outside b r.lower_bound r.upper_bound r.reception_claims v.claims,
            ),
          ))
          rs (Scoped-IsLocal r.upper_bound hi rs s),
    )

-- What the sender retransmits in response to one segment of a report: the bytes within its bounds
-- that have not been received, unless a claim of an earlier report has them.
abbrev pub Repairs : List RecvSeg → List ReceptionClaim → ReportSeg → Type 0
Repairs segs old_claims r =
    (b : ℕ)
    → to_send b (gaps r.lower_bound r.upper_bound (merge_claims r.reception_claims old_claims))
      ≡ (within b r.lower_bound r.upper_bound && not (received b segs || covered b old_claims))

-- Segments of reports whose scopes follow one another up to a bound below 2 ^ 32, and which claim just
-- the bytes received in them, make a sender whose claims are separated retransmit just the bytes that are missing at the
-- receiver and that no earlier report claimed.
pub gaps-Scoped :
    (lower upper : ℕ) (segs : List RecvSeg) (reports : List ReportSeg)
    (old_claims : List ReceptionClaim)
    → Scoped lower upper reports
    → upper < u32
    → ((b : ℕ) → reported b reports ≡ (received b segs && within b lower upper))
    → Separated 0 old_claims
    → All (Repairs segs old_claims) reports
gaps-Scoped lower upper segs reports old_claims s h f o =
    All-map (IsLocal reports lower upper) (Repairs segs old_claims)
      (λ r (v, k, m, g) b.
        rw
          (gaps-merge_claims b r.lower_bound r.upper_bound r.reception_claims old_claims
            (ClaimsIn-IsNew r.lower_bound r.upper_bound r.reception_claims (omega arith) v.claims) o
            (omega arith))
          (ground (arith, f b, g b)))
      reports (Scoped-IsLocal lower upper reports s)
