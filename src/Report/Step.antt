-- ===== src/Report/Step.antt =====
-- The steps of the loop over the red segments: what each branch does to the claims and to the state.
use mini_ltp.Prelude.{
  ℕ, ◌+◌, ◌≤◌, ◌<◌, ◌≡◌, refl, inl, inr, [], ◌∷◌, ◌||◌, arith, ◌==◌, length, length-append,
  Bool-cases, some, if◌then◌else◌, min,
}
use mini_ltp.Sdnv.{sub32}
use mini_ltp.Claims.Cover.{covered}
use mini_ltp.Reception.{RecvSeg}
use mini_ltp.Report.{max_claims_per_rs, Rs, ReportContext, initialize_rs, construct_rs, post_claim}
use mini_ltp.Report.Scope.{ClaimsIn, ClaimsIn-upper, within, IsReport}
use mini_ltp.Report.Loop.{
  IsUnderWay, with_claim, construct_claim, covered-with_claim, with_claim-ClaimsIn,
}

-- The segment after the claim under way has been posted, unless it is empty, and the count.
abbrev pub posted : Rs → ℕ → ℕ → Rs
posted rs lower upper = if upper == lower then rs else with_claim rs lower upper

abbrev pub posted_count : ℕ → ℕ → ℕ → ℕ
posted_count lower upper count = if upper == lower then count else count + 1

module _ (ctx : ReportContext) (rs : Rs) (lower upper count : ℕ) (ds : RecvSeg) where
  abbrev pub new_upper : ℕ
  new_upper = min (ds.offset + ds.length) ctx.report_upper_bound

  module _ (lo : ℕ) (v : IsUnderWay ctx rs lower upper count lo) where
    pub post_claim_lem : post_claim rs lower upper ≡ some (posted rs lower upper)
    unfolding post_claim
    post_claim_lem = elim (Bool-cases (upper == lower)) [
      | inl same ↦ rw same
      | inr more ↦ rw (
        more,
        construct_claim rs lower upper (ground (arith, v.ordered))
            (omega (arith, v.bounded, v.int_bound)),
      )
    ]

    pub covered-posted :
        (b : ℕ)
        → covered b (posted rs lower upper).reception_claims
          ≡ (covered b rs.reception_claims || within b lower upper)
    covered-posted b = elim (Bool-cases (upper == lower)) [
      | inl same ↦ rw same (ground arith)
      | inr more ↦
          rw more
            (covered-with_claim b rs lower upper v.ordered (omega (arith, v.bounded, v.int_bound)))
    ]

    pub posted-lower_bound : (posted rs lower upper).lower_bound ≡ rs.lower_bound
    posted-lower_bound = elim (Bool-cases (upper == lower)) [
      | inl same ↦ rw same
      | inr more ↦ rw more
    ]

    posted-ClaimsIn :
        (bound : ℕ)
        → upper ≤ bound
        → ClaimsIn
            (posted rs lower upper).lower_bound
            bound
            (posted rs lower upper).reception_claims
    posted-ClaimsIn bound h = elim (Bool-cases (upper == lower)) [
      | inl same ↦ rw same (
          ClaimsIn-upper rs.lower_bound lower bound rs.reception_claims v.claims
            (omega (arith, v.ordered)))
      | inr more ↦ rw more (
          ClaimsIn-upper rs.lower_bound upper bound (with_claim rs lower upper).reception_claims
            (with_claim-ClaimsIn ctx rs lower upper count lo v (ground (arith, v.ordered))) h)
    ]

    length-posted : length (posted rs lower upper).reception_claims ≡ posted_count lower upper count
    length-posted = elim (Bool-cases (upper == lower)) [
      | inl same ↦ rw same v.counted
      | inr more ↦ rw more (
          omega (
            arith,
            v.counted,
            length-append rs.reception_claims
                (record { offset = lower; length = sub32 upper lower } ∷ []),
          ))
    ]

    -- The segment that is full, with its last claim.
    pub posted-IsReport :
        max_claims_per_rs ≤ posted_count lower upper count
        → upper ≤ ds.offset
        → IsReport
            (construct_rs ctx (posted rs lower upper) ds.offset (posted_count lower upper count))
    unfolding construct_rs
    posted-IsReport full h = record {
      some_claim = omega (arith, length-posted);
      few_claims = ground (arith, length-posted, v.few);
      claims = posted-ClaimsIn ds.offset h;
    }

    module _ (in_place : lo ≤ ds.offset) (some_data : 0 < ds.length) where
      pub skipped-IsUnderWay : IsUnderWay ctx rs lower upper count (ds.offset + ds.length)
      skipped-IsUnderWay = record {
        int_bound = v.int_bound;
        claims = v.claims;
        started = v.started;
        counted = v.counted;
        few = v.few;
        ordered = v.ordered;
        bounded = v.bounded;
        room = v.room;
        behind = elim v.behind [ inl before ↦ inl (omega arith) | inr empty ↦ inr empty ];
        fresh = v.fresh;
      }

      pub contiguous-IsUnderWay :
          lower < ds.offset + ds.length
          → ds.offset ≤ upper
          → IsUnderWay ctx rs lower new_upper count (ds.offset + ds.length)
      contiguous-IsUnderWay h k = record {
        int_bound = v.int_bound;
        claims = v.claims;
        started = v.started;
        counted = v.counted;
        few = v.few;
        ordered = omega (arith, v.room);
        bounded = omega arith;
        room = v.room;
        behind = inl (omega arith);
        fresh = λ e. omega (arith, v.room);
      }

      pub gap-IsUnderWay :
          upper < ds.offset
          → ds.offset < ctx.report_upper_bound
          → posted_count lower upper count < max_claims_per_rs
          → IsUnderWay ctx
              (posted rs lower upper)
              ds.offset
              new_upper
              (posted_count lower upper count)
              (ds.offset + ds.length)
      gap-IsUnderWay h k few = record {
        int_bound = v.int_bound;
        claims = posted-ClaimsIn ds.offset (omega arith);
        started = omega (arith, posted-lower_bound, v.started, v.ordered);
        counted = length-posted;
        few = few;
        ordered = omega arith;
        bounded = omega arith;
        room = k;
        behind = inl (omega arith);
        fresh = λ e. omega arith;
      }

      pub next_rs-IsUnderWay :
          (serial_nbr : ℕ)
          → upper < ds.offset
          → ds.offset < ctx.report_upper_bound
          → IsUnderWay ctx
              (initialize_rs ctx serial_nbr ds.offset)
              ds.offset
              new_upper
              0
              (ds.offset + ds.length)
      unfolding initialize_rs
      next_rs-IsUnderWay serial_nbr h k = record {
        int_bound = v.int_bound;
        claims = omega arith;
        started = omega arith;
        counted = refl;
        few = omega arith;
        ordered = omega arith;
        bounded = omega arith;
        room = k;
        behind = inl (omega arith);
        fresh = λ e. omega arith;
      }
