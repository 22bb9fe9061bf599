-- ===== src/Report/Loop.antt =====
-- The loop over the red segments reports each received byte within the bounds, and no other.
use mini_ltp.Prelude.{
  ℕ, ◌+◌, ◌-◌, ◌^◌, ◌≤◌, ◌<◌, ◌≡◌, refl, ◌⊎◌, inl, inr, List, [], ◌∷◌, ◌++◌, false, true, ◌||◌,
  ◌&&◌, arith, ◌==◌, length, length-append, Bool-cases, some,
}
use mini_ltp.Sdnv.{u32, sub32, sdnv_length}
use mini_ltp.Claims.Cover.{covered}
use mini_ltp.Reception.{RecvSeg}
use mini_ltp.Reception.Disjoint.{received}
use mini_ltp.Report.{
  max_claims_per_rs, int_lt, Rs, ReportContext, construct_reception_claim, construct_rs, Sending,
  finish_report,
}
use mini_ltp.Report.Scope.{
  ClaimsIn, ClaimsIn-append, ClaimsIn-upper, covered-append, reported, within, IsReport, Scoped,
}

-- The state of the loop: the claims made are full, the claim under way is [lower, upper), and it
-- ends where the remaining segments start or is empty.
pub record IsUnderWay (ctx : ReportContext) (rs : Rs) (lower upper count lo : ℕ) : Type 0 where
  pub int_bound : ctx.report_upper_bound < 2 ^ 31
  pub claims : ClaimsIn rs.lower_bound lower rs.reception_claims
  pub started : rs.lower_bound ≤ lower
  pub counted : length rs.reception_claims ≡ count
  pub few : count < max_claims_per_rs
  pub ordered : lower ≤ upper
  pub bounded : upper ≤ ctx.report_upper_bound
  pub room : lower < ctx.report_upper_bound
  pub behind : (upper ≤ lo) ⊎ (upper ≡ lower)
  pub fresh : upper ≡ lower → count ≡ 0

-- What the loop sends: nothing if nothing has been received, or else segments whose scopes follow
-- one another and whose claims are the bytes received.
abbrev pub Reported : ReportContext → Rs → ℕ → ℕ → List RecvSeg → Sending → Type 0
Reported ctx rs lower upper segs (Sending.sent reports serial_nbr) =
    ((upper ≡ lower)
      × (reports ≡ [])
      × ((b : ℕ) → (received b segs && within b lower ctx.report_upper_bound) ≡ false))
    ⊎ (Scoped rs.lower_bound ctx.report_upper_bound reports
        × ((b : ℕ)
            → reported b reports ≡ (
                covered b rs.reception_claims
                || within b lower upper
                || received b segs && within b lower ctx.report_upper_bound)))
Reported ctx rs lower upper segs (Sending.limit reports) = ⊥
Reported ctx rs lower upper segs Sending.failed = ⊥

-- The segment with the claim under way added to it.
abbrev pub with_claim : Rs → ℕ → ℕ → Rs
with_claim rs lower upper = record rs {
  content_length = rs.content_length + sdnv_length lower + sdnv_length (sub32 upper lower);
  reception_claims =
      rs.reception_claims ++ record { offset = lower; length = sub32 upper lower } ∷ [];
}

pub construct_claim :
    (rs : Rs) (lower upper : ℕ)
    → lower < upper
    → upper < 2 ^ 31
    → construct_reception_claim rs lower upper ≡ some (with_claim rs lower upper)
unfolding construct_reception_claim
construct_claim rs lower upper h k = let lt : int_lt lower upper ≡ true = ground arith in rw lt

pub covered-with_claim :
    (b : ℕ) (rs : Rs) (lower upper : ℕ)
    → lower ≤ upper
    → upper < u32
    → covered b (with_claim rs lower upper).reception_claims
      ≡ (covered b rs.reception_claims || within b lower upper)
covered-with_claim b rs lower upper h k =
    let size : sub32 upper lower ≡ upper - lower = omega arith in
    ground (
      arith,
      covered-append b rs.reception_claims
          (record { offset = lower; length = sub32 upper lower } ∷ []),
    )

module _ (ctx : ReportContext) where
  module _ (rs : Rs) (lower upper count lo : ℕ) (v : IsUnderWay ctx rs lower upper count lo) where
    pub with_claim-ClaimsIn :
        lower < upper → ClaimsIn rs.lower_bound upper (with_claim rs lower upper).reception_claims
    with_claim-ClaimsIn h =
        let b : upper ≤ ctx.report_upper_bound = v.bounded in
        let i : ctx.report_upper_bound < 2 ^ 31 = v.int_bound in
        let size : sub32 upper lower ≡ upper - lower = omega arith in
        ClaimsIn-append rs.lower_bound lower upper lower (sub32 upper lower) rs.reception_claims
          v.claims (omega arith) (omega arith) (omega arith)

    -- The segment that is shipped with the claim under way, up to any bound behind the claim.
    construct_rs-IsReport :
        (bound n : ℕ)
        → lower < upper
        → upper ≤ bound
        → IsReport (construct_rs ctx (with_claim rs lower upper) bound n)
    unfolding construct_rs
    construct_rs-IsReport bound n h k = record {
      some_claim = omega (
        arith,
        length-append rs.reception_claims
            (record { offset = lower; length = sub32 upper lower } ∷ []),
      );
      few_claims = omega (
        arith,
        v.counted,
        v.few,
        length-append rs.reception_claims
            (record { offset = lower; length = sub32 upper lower } ∷ []),
      );
      claims =
          ClaimsIn-upper rs.lower_bound upper bound (with_claim rs lower upper).reception_claims
            (with_claim-ClaimsIn h) k;
    }

    -- Where no byte is left to be received within the bounds, the last segment completes the report.
    pub finish-Reported :
        (serial_nbr : ℕ) (segs : List RecvSeg)
        → ((b : ℕ) → (received b segs && within b lower ctx.report_upper_bound) ≡ false)
        → Reported ctx rs lower upper segs (finish_report ctx serial_nbr rs lower upper count)
    unfolding finish_report construct_rs
    finish-Reported serial_nbr segs none_left = elim (Bool-cases (upper == lower)) [
      | inl same ↦ rw same (inl (ground arith, refl, none_left))
      | inr more ↦
          let h : lower < upper = ground (arith, v.ordered) in
          let k : upper < u32 = omega (arith, v.bounded, v.int_bound) in
          rw (more, construct_claim rs lower upper h (omega (arith, v.bounded, v.int_bound)))
            (inr (
              (refl, construct_rs-IsReport ctx.report_upper_bound (count + 1) h v.bounded, refl),
              λ b. ground (arith, covered-with_claim b rs lower upper v.ordered k, none_left b),
            ))
    ]
