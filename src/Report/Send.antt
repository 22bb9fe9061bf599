-- ===== src/Report/Send.antt =====
-- The reports in response to a checkpoint.
use mini_ltp.Prelude.{
  ℕ, ◌+◌, ◌-◌, ◌^◌, ◌<◌, ◌≡◌, ◌≢◌, refl, ◌⊎◌, inl, inr, List, [], false, true, ◌&&◌, arith, ◌==◌,
  length,
}
use mini_ltp.Sdnv.{u32}
use mini_ltp.Reception.{RecvSeg, ImportSession, is_whole}
use mini_ltp.Reception.Disjoint.{received, IsReceiving, int_limit}
use mini_ltp.Report.{
  int_lt, ReportContext, initialize_rs, Sending, Reply, noted, next_serial_nbr, report_lower_bound,
  send_gap_report, send_report,
}
use mini_ltp.Report.Scope.{reported, within, Scoped}
use mini_ltp.Report.Loop.{IsUnderWay, Reported}
use mini_ltp.Report.Answer.{report_loop-Reported}

-- The report is empty, and so is the scope; or its segments cover the scope, and claim the bytes
-- received in it and no other.
abbrev pub Answered : ℕ → ℕ → List RecvSeg → Reply → Type 0
Answered lower upper segs (Reply.reply session reports) =
    ((reports ≡ []) × ((b : ℕ) → (received b segs && within b lower upper) ≡ false))
    ⊎ (Scoped lower upper reports
        × ((b : ℕ) → reported b reports ≡ (received b segs && within b lower upper)))
Answered lower upper segs (Reply.cancel session reports) = ⊥
Answered lower upper segs Reply.failure = ⊥

first-IsUnderWay :
    (ctx : ReportContext) (serial_nbr lower : ℕ)
    → lower < ctx.report_upper_bound
    → ctx.report_upper_bound < 2 ^ 31
    → IsUnderWay ctx (initialize_rs ctx serial_nbr lower) lower lower 0 0
unfolding initialize_rs
first-IsUnderWay ctx serial_nbr lower h k = record {
  int_bound = k;
  claims = omega arith;
  started = omega arith;
  counted = refl;
  few = omega arith;
  ordered = omega arith;
  bounded = omega arith;
  room = h;
  behind = inr refl;
  fresh = λ e. refl;
}

module _ (ctx : ReportContext) (session : ImportSession) (serial_nbr lower : ℕ) where
  abbrev reply_of : Sending → Reply
  reply_of s = elim s [
    | Sending.sent reports last ↦ Reply.reply (noted session last reports) reports
    | Sending.limit reports ↦ Reply.cancel (noted session 0 reports) reports
    | Sending.failed ↦ Reply.failure
  ]

  Answered-reply_of :
      (s : Sending)
      → Reported ctx (initialize_rs ctx serial_nbr lower) lower lower session.red_segments s
      → Answered lower ctx.report_upper_bound session.red_segments (reply_of s)
  unfolding initialize_rs
  Answered-reply_of (Sending.sent reports last) (inl (same, e, f)) = inl (e, f)
  Answered-reply_of (Sending.sent reports last) (inr (sc, f)) = inr (sc, λ b. ground (arith, f b))
  Answered-reply_of (Sending.limit reports) r = r
  Answered-reply_of Sending.failed r = r

  send_gap_report-Answered :
      IsReceiving session
      → serial_nbr + length session.red_segments < u32
      → lower < ctx.report_upper_bound
      → ctx.report_upper_bound < int_limit
      → Answered lower ctx.report_upper_bound session.red_segments
          (send_gap_report ctx session serial_nbr lower)
  unfolding send_gap_report
  send_gap_report-Answered v q h k = Answered-reply_of _ (
      report_loop-Reported ctx session.red_segments serial_nbr (initialize_rs ctx serial_nbr lower)
        lower lower 0 0 (int_limit - 1) (first-IsUnderWay ctx serial_nbr lower h k) v.disjoint
        (omega arith) q)

module _ (first : ℕ) (ctx : ReportContext) (session : ImportSession) (rpt_serial_nbr : ℕ) where
  abbrev serial_used : ℕ
  serial_used = next_serial_nbr first session

  send_report_gap :
      session.last_rpt_serial_nbr ≡ 0
      → serial_used ≢ 0
      → is_whole session ≡ false
      → session.reports_count < session.max_reports
      → session.max_reports < int_limit
      → send_report first ctx session rpt_serial_nbr
        ≡ send_gap_report ctx session serial_used (report_lower_bound session rpt_serial_nbr)
  unfolding send_report
  send_report_gap l s w c m =
      let few : int_lt session.reports_count session.max_reports ≡ true = ground arith in
      let some_serial : (serial_used == 0) ≡ false = ground arith in
      let not_last : (session.last_rpt_serial_nbr == 0) ≡ true = ground arith in
      rw (not_last, some_serial, w, few) (ground arith)

  -- A checkpoint comes to a session in good order that has not sent its last report, whose red part
  -- is not complete by its count, and which has reports left; the serial numbers do not run out, and
  -- the scope is not empty. Then the report is sent: its segments cover the scope from the lower
  -- bound of the report that the checkpoint cites to the upper bound, each with 1 to 20 claims in
  -- order, and they claim each byte received in the scope and no other; nothing is sent just where
  -- no byte of the scope has been received. The scope ends within the ints.
  pub send_report-Answered :
      IsReceiving session
      → session.last_rpt_serial_nbr ≡ 0
      → 0 < serial_used
      → serial_used + length session.red_segments < u32
      → is_whole session ≡ false
      → session.reports_count < session.max_reports
      → session.max_reports < int_limit
      → report_lower_bound session rpt_serial_nbr < ctx.report_upper_bound
      → ctx.report_upper_bound < int_limit
      → Answered
          (report_lower_bound session rpt_serial_nbr)
          ctx.report_upper_bound
          session.red_segments
          (send_report first ctx session rpt_serial_nbr)
  send_report-Answered v l s q w c m h k = rw (send_report_gap l (omega arith) w c m) (
      send_gap_report-Answered ctx session serial_used (report_lower_bound session rpt_serial_nbr) v
        q h k)
