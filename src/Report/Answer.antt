-- ===== src/Report/Answer.antt =====
-- The whole report: its segments claim just the bytes that have been received.
use mini_ltp.Prelude.{
  ℕ, ◌+◌, ◌^◌, ◌≤◌, ◌<◌, inl, inr, List, [], ◌∷◌, arith, ltb, leb, length, Bool-cases, ltb→lt,
  leb→le,
}
use mini_ltp.Sdnv.{u32}
use mini_ltp.Reception.{RecvSeg}
use mini_ltp.Reception.Disjoint.{Disjoint, Disjoint-le, received_below}
use mini_ltp.Report.{max_claims_per_rs, Rs, ReportContext, initialize_rs, report_loop}
use mini_ltp.Report.Loop.{IsUnderWay, Reported, finish-Reported}
use mini_ltp.Report.Step.{
  posted, posted_count, new_upper, post_claim_lem, skipped-IsUnderWay, contiguous-IsUnderWay,
  gap-IsUnderWay, next_rs-IsUnderWay,
}
use mini_ltp.Report.Transfer.{
  Reported-skipped, Reported-contiguous, Reported-same_rs, Reported-next_rs,
}
use mini_ltp.Report.Round.{loop_break, loop_contiguous, loop_next_rs, loop_same_rs, loop_skip}

module _ (ctx : ReportContext) where
  loop_end :
      (serial_nbr : ℕ) (rs : Rs) (lower upper count lo : ℕ)
      → IsUnderWay ctx rs lower upper count lo
      → Reported ctx rs lower upper [] (report_loop ctx serial_nbr rs lower upper count [])
  unfolding report_loop
  loop_end serial_nbr rs lower upper count lo v =
      finish-Reported ctx rs lower upper count lo v serial_nbr [] (λ b. ground arith)

  -- The loop over these segments reports as it should, from any state in good order.
  abbrev Answers : List RecvSeg → Type 0
  Answers segs =
      (serial_nbr : ℕ) (rs : Rs) (lower upper count lo hi : ℕ)
      → IsUnderWay ctx rs lower upper count lo
      → Disjoint lo hi segs
      → hi < 2 ^ 31
      → serial_nbr + length segs < u32
      → Reported ctx rs lower upper segs (report_loop ctx serial_nbr rs lower upper count segs)

  module _ (serial_nbr : ℕ) (rs : Rs) (lower upper count lo hi : ℕ) (ds : RecvSeg)
      (segs : List RecvSeg) (v : IsUnderWay ctx rs lower upper count lo) (a : lo ≤ ds.offset)
      (p : 0 < ds.length) (d : Disjoint (ds.offset + ds.length) hi segs) (h : hi < 2 ^ 31)
      (q : serial_nbr + 1 + length segs < u32) (fits : ds.offset + ds.length < u32)
      (rest : Answers segs) where
    answer_skip :
        ds.offset + ds.length ≤ lower
        → Reported ctx rs lower upper
            (ds ∷ segs)
            (report_loop ctx serial_nbr rs lower upper count (ds ∷ segs))
    answer_skip below = rw (loop_skip ctx serial_nbr rs lower upper count ds segs fits below) (
        Reported-skipped ctx rs lower upper count ds lo hi segs v a p d _ below (
          rest serial_nbr rs lower upper count (ds.offset + ds.length) hi
            (skipped-IsUnderWay ctx rs lower upper count ds lo v a p) d h (omega arith)))

    module _ (above : lower < ds.offset + ds.length) where
      answer_contiguous :
          ds.offset ≤ upper
          → Reported ctx rs lower upper
              (ds ∷ segs)
              (report_loop ctx serial_nbr rs lower upper count (ds ∷ segs))
      answer_contiguous near =
          rw (loop_contiguous ctx serial_nbr rs lower upper count ds segs fits above near) (
            Reported-contiguous ctx rs lower upper count ds lo hi segs v a p d _ above near (
              rest serial_nbr rs lower (new_upper ctx rs lower upper count ds) count
                (ds.offset + ds.length) hi
                (contiguous-IsUnderWay ctx rs lower upper count ds lo v a p above near) d h
                (omega arith)))

      answer_break :
          upper < ds.offset
          → ctx.report_upper_bound ≤ ds.offset
          → Reported ctx rs lower upper
              (ds ∷ segs)
              (report_loop ctx serial_nbr rs lower upper count (ds ∷ segs))
      answer_break far out =
          rw (loop_break ctx serial_nbr rs lower upper count ds segs fits above far out) (
            finish-Reported ctx rs lower upper count lo v serial_nbr (ds ∷ segs)
              λ b. ground (arith, received_below (ds.offset + ds.length) hi b segs d))

      module _ (far : upper < ds.offset) (inside : ds.offset < ctx.report_upper_bound) where
        answer_same_rs :
            posted_count lower upper count < max_claims_per_rs
            → Reported ctx rs lower upper
                (ds ∷ segs)
                (report_loop ctx serial_nbr rs lower upper count (ds ∷ segs))
        answer_same_rs few =
            rw
              (loop_same_rs ctx serial_nbr rs lower upper count ds segs fits above far inside
                (post_claim_lem ctx rs lower upper count ds lo v) few)
              (Reported-same_rs ctx rs lower upper count ds lo hi segs v a p d far inside _ (
                rest serial_nbr (posted rs lower upper) ds.offset
                  (new_upper ctx rs lower upper count ds) (posted_count lower upper count)
                  (ds.offset + ds.length) hi
                  (gap-IsUnderWay ctx rs lower upper count ds lo v a p far inside few) d h
                  (omega arith)))

        answer_next_rs :
            max_claims_per_rs ≤ posted_count lower upper count
            → Reported ctx rs lower upper
                (ds ∷ segs)
                (report_loop ctx serial_nbr rs lower upper count (ds ∷ segs))
        answer_next_rs full =
            rw
              (loop_next_rs ctx serial_nbr rs lower upper count ds segs fits above far inside
                (post_claim_lem ctx rs lower upper count ds lo v) full (omega arith))
              (Reported-next_rs ctx rs lower upper count ds lo hi segs v a p d far inside _
                (serial_nbr + 1) full
                (rest (serial_nbr + 1) (initialize_rs ctx (serial_nbr + 1) ds.offset) ds.offset
                  (new_upper ctx rs lower upper count ds) 0 (ds.offset + ds.length) hi
                  (next_rs-IsUnderWay ctx rs lower upper count ds lo v a p (serial_nbr + 1) far
                    inside)
                  d h (omega arith)))

      answer_far :
          upper < ds.offset
          → Reported ctx rs lower upper
              (ds ∷ segs)
              (report_loop ctx serial_nbr rs lower upper count (ds ∷ segs))
      answer_far far = elim (Bool-cases (leb ctx.report_upper_bound ds.offset)) [
        | inl out ↦ answer_break far (leb→le _ _ out)
        | inr inside ↦ elim (Bool-cases (ltb (posted_count lower upper count) max_claims_per_rs)) [
          | inl few ↦ answer_same_rs far (ground arith) (ltb→lt _ _ few)
          | inr full ↦ answer_next_rs far (ground arith) (ground arith)
        ]
      ]

    answer_step :
        Reported ctx rs lower upper
          (ds ∷ segs)
          (report_loop ctx serial_nbr rs lower upper count (ds ∷ segs))
    answer_step = elim (Bool-cases (leb (ds.offset + ds.length) lower)) [
      | inl below ↦ answer_skip (leb→le _ _ below)
      | inr above ↦ elim (Bool-cases (leb ds.offset upper)) [
        | inl near ↦ answer_contiguous (ground arith) (leb→le _ _ near)
        | inr far ↦ answer_far (ground arith) (ground arith)
      ]
    ]

  pub report_loop-Reported : (segs : List RecvSeg) → Answers segs
  report_loop-Reported [] serial_nbr rs lower upper count lo hi v d h q =
      loop_end serial_nbr rs lower upper count lo v
  report_loop-Reported (ds ∷ segs) serial_nbr rs lower upper count lo hi v (a, p, d) h q =
      let top : ds.offset + ds.length ≤ hi = Disjoint-le (ds.offset + ds.length) hi segs d in
      answer_step serial_nbr rs lower upper count lo hi ds segs v a p d h (omega arith)
        (omega arith) (report_loop-Reported segs)
