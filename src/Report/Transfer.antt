-- ===== src/Report/Transfer.antt =====
-- What the rest of the loop reports, seen from the step before it.
use mini_ltp.Prelude.{ℕ, ◌+◌, ◌≤◌, ◌<◌, inl, inr, List, ◌∷◌, arith}
use mini_ltp.Reception.{RecvSeg}
use mini_ltp.Reception.Disjoint.{Disjoint, received_below}
use mini_ltp.Report.{
  max_claims_per_rs, Rs, ReportContext, initialize_rs, construct_rs, Sending, ship,
}
use mini_ltp.Report.Loop.{IsUnderWay, Reported}
use mini_ltp.Report.Step.{
  posted, posted_count, new_upper, covered-posted, posted-lower_bound, posted-IsReport,
}

module _ (ctx : ReportContext) (rs : Rs) (lower upper count : ℕ) (ds : RecvSeg) where
  module _ (lo hi : ℕ) (segs : List RecvSeg) (v : IsUnderWay ctx rs lower upper count lo)
      (in_place : lo ≤ ds.offset) (some_data : 0 < ds.length)
      (d : Disjoint (ds.offset + ds.length) hi segs) where
    pub Reported-skipped :
        (r : Sending)
        → ds.offset + ds.length ≤ lower
        → Reported ctx rs lower upper segs r
        → Reported ctx rs lower upper (ds ∷ segs) r
    Reported-skipped (Sending.sent reports serial_nbr) h (inl (same, e, f)) =
        inl (same, e, λ b. ground (arith, f b))
    Reported-skipped (Sending.sent reports serial_nbr) h (inr (sc, f)) =
        inr (sc, λ b. ground (arith, f b))
    Reported-skipped (Sending.limit reports) h r = r
    Reported-skipped Sending.failed h r = r

    pub Reported-contiguous :
        (r : Sending)
        → lower < ds.offset + ds.length
        → ds.offset ≤ upper
        → Reported ctx rs lower (new_upper ctx rs lower upper count ds) segs r
        → Reported ctx rs lower upper (ds ∷ segs) r
    Reported-contiguous (Sending.sent reports serial_nbr) h k (inl (same, e, f)) =
        ground (arith, v.room)
    Reported-contiguous (Sending.sent reports serial_nbr) h k (inr (sc, f)) =
        inr (sc, λ b. ground (arith, f b, v.behind, v.bounded, v.room, v.ordered))
    Reported-contiguous (Sending.limit reports) h k r = r
    Reported-contiguous Sending.failed h k r = r

    module _ (gap : upper < ds.offset) (inside : ds.offset < ctx.report_upper_bound) where
      pub Reported-same_rs :
          (r : Sending)
          → Reported ctx
              (posted rs lower upper)
              ds.offset
              (new_upper ctx rs lower upper count ds)
              segs
              r
          → Reported ctx rs lower upper (ds ∷ segs) r
      Reported-same_rs (Sending.sent reports serial_nbr) (inl (same, e, f)) = ground arith
      Reported-same_rs (Sending.sent reports serial_nbr) (inr (sc, f)) = inr (
        rw (← posted-lower_bound ctx rs lower upper count ds lo v) sc,
        λ b. ground (
          arith,
          f b,
          covered-posted ctx rs lower upper count ds lo v b,
          received_below (ds.offset + ds.length) hi b segs d,
          v.ordered,
        ),
      )
      Reported-same_rs (Sending.limit reports) r = r
      Reported-same_rs Sending.failed r = r

      pub Reported-next_rs :
          (r : Sending) (serial_nbr : ℕ)
          → max_claims_per_rs ≤ posted_count lower upper count
          → Reported ctx
              (initialize_rs ctx serial_nbr ds.offset)
              ds.offset
              (new_upper ctx rs lower upper count ds)
              segs
              r
          → Reported ctx rs lower upper (ds ∷ segs) (
              ship
                (construct_rs ctx
                  (posted rs lower upper)
                  ds.offset
                  (posted_count lower upper count))
                r)
      unfolding ship initialize_rs construct_rs
      Reported-next_rs (Sending.sent reports last) serial_nbr full (inl (same, e, f)) = ground arith
      Reported-next_rs (Sending.sent reports last) serial_nbr full (inr (sc, f)) = inr (
        (
          posted-lower_bound ctx rs lower upper count ds lo v,
          posted-IsReport ctx rs lower upper count ds lo v full (omega arith),
          sc,
        ),
        λ b. ground (
          arith,
          f b,
          covered-posted ctx rs lower upper count ds lo v b,
          received_below (ds.offset + ds.length) hi b segs d,
          v.ordered,
        ),
      )
      Reported-next_rs (Sending.limit reports) serial_nbr full r = r
      Reported-next_rs Sending.failed serial_nbr full r = r
