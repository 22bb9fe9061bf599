-- ===== src/Report/Round.antt =====
-- One round of the loop over the red segments, branch by branch.
use mini_ltp.Prelude.{ℕ, ◌+◌, ◌≤◌, ◌<◌, ◌≡◌, List, ◌∷◌, false, true, arith, ltb, leb, ◌==◌, some}
use mini_ltp.Sdnv.{u32}
use mini_ltp.Claims.{add32}
use mini_ltp.Reception.{RecvSeg}
use mini_ltp.Report.{
  max_claims_per_rs, Rs, ReportContext, initialize_rs, construct_rs, ship, finish_report,
  post_claim, report_loop,
}
use mini_ltp.Report.Step.{posted, posted_count, new_upper}

module _ (ctx : ReportContext) (serial_nbr : ℕ) (rs : Rs) (lower upper count : ℕ) (ds : RecvSeg)
    (segs : List RecvSeg) (no_wrap : ds.offset + ds.length < u32) where
  pub loop_skip :
      ds.offset + ds.length ≤ lower
      → report_loop ctx serial_nbr rs lower upper count (ds ∷ segs)
        ≡ report_loop ctx serial_nbr rs lower upper count segs
  unfolding report_loop
  loop_skip h = let e : leb (add32 ds.offset ds.length) lower ≡ true = ground arith in rw e

  module _ (above : lower < ds.offset + ds.length) where
    pub loop_contiguous :
        ds.offset ≤ upper
        → report_loop ctx serial_nbr rs lower upper count (ds ∷ segs)
          ≡ report_loop ctx serial_nbr rs lower (new_upper ctx rs lower upper count ds) count segs
    unfolding report_loop
    loop_contiguous h =
        let end : add32 ds.offset ds.length ≡ ds.offset + ds.length = omega arith in
        let e : leb (ds.offset + ds.length) lower ≡ false = ground arith in
        let f : leb ds.offset upper ≡ true = ground arith in rw (end, e, f)

    pub loop_break :
        upper < ds.offset
        → ctx.report_upper_bound ≤ ds.offset
        → report_loop ctx serial_nbr rs lower upper count (ds ∷ segs)
          ≡ finish_report ctx serial_nbr rs lower upper count
    unfolding report_loop
    loop_break h k =
        let end : add32 ds.offset ds.length ≡ ds.offset + ds.length = omega arith in
        let e : leb (ds.offset + ds.length) lower ≡ false = ground arith in
        let f : leb ds.offset upper ≡ false = ground arith in
        let g : leb ctx.report_upper_bound ds.offset ≡ true = ground arith in rw (end, e, f, g)

    module _ (gap : upper < ds.offset) (inside : ds.offset < ctx.report_upper_bound)
        (p : post_claim rs lower upper ≡ some (posted rs lower upper)) where
      pub loop_same_rs :
          posted_count lower upper count < max_claims_per_rs
          → report_loop ctx serial_nbr rs lower upper count (ds ∷ segs)
            ≡ report_loop ctx serial_nbr
                (posted rs lower upper)
                ds.offset
                (new_upper ctx rs lower upper count ds)
                (posted_count lower upper count)
                segs
      unfolding report_loop
      loop_same_rs h =
          let end : add32 ds.offset ds.length ≡ ds.offset + ds.length = omega arith in
          let e : leb (ds.offset + ds.length) lower ≡ false = ground arith in
          let f : leb ds.offset upper ≡ false = ground arith in
          let g : leb ctx.report_upper_bound ds.offset ≡ false = ground arith in
          let few : ltb (posted_count lower upper count) max_claims_per_rs ≡ true = ground arith in
          rw (end, e, f, g, p, few) (rw end)

      pub loop_next_rs :
          max_claims_per_rs ≤ posted_count lower upper count
          → serial_nbr + 1 < u32
          → report_loop ctx serial_nbr rs lower upper count (ds ∷ segs)
            ≡ ship
                (construct_rs ctx
                  (posted rs lower upper)
                  ds.offset
                  (posted_count lower upper count))
                (report_loop ctx
                  (serial_nbr + 1)
                  (initialize_rs ctx (serial_nbr + 1) ds.offset)
                  ds.offset
                  (new_upper ctx rs lower upper count ds)
                  0
                  segs)
      unfolding report_loop
      loop_next_rs h q =
          let end : add32 ds.offset ds.length ≡ ds.offset + ds.length = omega arith in
          let next : add32 serial_nbr 1 ≡ serial_nbr + 1 = omega arith in
          let e : leb (ds.offset + ds.length) lower ≡ false = ground arith in
          let f : leb ds.offset upper ≡ false = ground arith in
          let g : leb ctx.report_upper_bound ds.offset ≡ false = ground arith in
          let few : ltb (posted_count lower upper count) max_claims_per_rs ≡ false = ground arith in
          let more : (serial_nbr + 1 == 0) ≡ false = ground arith in
          rw (end, e, f, g, p, few, next, more) (rw end)
