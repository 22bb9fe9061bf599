-- ===== src/Report/Content.antt =====
-- The content length of a report segment, which says where its trailer is written, and the length of
-- what serializeReportSegment writes.
pub mod Length
use mathlib.Core.Path.{subst}
use mini_ltp.Prelude.{
  refl, sym, All, Bool-cases, Option-cases, inl, inr, some, none, leb, ltb, ◌==◌, if◌then◌else◌,
  min, true, false, ◌&&◌, not, ℕ, zero, suc, ◌+◌, ◌%◌, ◌≡◌, ◌∙◌, List, [], ◌∷◌, ◌++◌, arith, length,
  length-append, ◌/◌,
}
use mini_ltp.Sdnv.{sub32, sdnv_length, encode_sdnv, fill_text}
use mini_ltp.Segment.{ReceptionClaim, Pdu, ltp_rs}
use mini_ltp.Segment.Outbound.{put_sdnv, serialize_claims, serialize_report_content}
use mini_ltp.Claims.{add32}
use mini_ltp.Reception.{RecvSeg, ReportSeg, ImportSession, is_whole}
use mini_ltp.Report.{
  Rs, ReportContext, initialize_rs, construct_rs, Sending, Reply, construct_reception_claim,
  post_claim, finish_report, ship, report_loop, send_last_report, send_gap_report, send_report,
  next_serial_nbr, report_lower_bound, noted, int_lt, max_claims_per_rs,
}
use mini_ltp.Report.Loop.{with_claim}
use mini_ltp.Report.Content.Length.{
  pdu_of, block_size, scope_size, IsMeasured, initialize_rs-IsMeasured, with_claim-IsMeasured,
  length-construct_rs,
}

-- The content length of a report segment exceeds what is serialized by as many bytes as the claims'
-- offsets take more in the block than from the segment's lower bound.
abbrev Exceeds : List ℕ → ReportSeg → Type 0
Exceeds tail r =
    length (serialize_report_content (pdu_of r) tail) + block_size r.reception_claims
    ≡ r.content_length + scope_size r.lower_bound r.reception_claims + length tail

abbrev AllExceed : List ℕ → Sending → Type 0
AllExceed tail (Sending.sent reports serial_nbr) = All (Exceeds tail) reports
AllExceed tail (Sending.limit reports) = All (Exceeds tail) reports
AllExceed tail Sending.failed = Unit {0}

-- The same of all report segments that a checkpoint leads to.
abbrev pub ReplyExceeds : List ℕ → Reply → Type 0
ReplyExceeds tail (Reply.reply session reports) = All (Exceeds tail) reports
ReplyExceeds tail (Reply.cancel session reports) = All (Exceeds tail) reports
ReplyExceeds tail Reply.failure = Unit {0}

module _ (ctx : ReportContext) (tail : List ℕ) where
  counted :
      (rs : Rs) (upper count : ℕ)
      → IsMeasured ctx rs
      → length rs.reception_claims ≡ count
      → Exceeds tail (construct_rs ctx rs upper count)
  unfolding construct_rs
  counted rs upper count m c = rw (sym c) (length-construct_rs ctx rs upper tail m)

  claimed :
      (rs rs' : Rs) (lower upper : ℕ)
      → construct_reception_claim rs lower upper ≡ some rs'
      → with_claim rs lower upper ≡ rs'
  unfolding construct_reception_claim
  claimed rs rs' lower upper e = elim (Bool-cases (int_lt lower upper)) [
    | inl ok ↦ let found : some (with_claim rs lower upper) ≡ some rs' = rw ok at e in cc
    | inr empty ↦ absurd (cc (rw empty at e))
  ]

  -- A segment under construction with a count of its claims.
  abbrev IsCounted : Rs → ℕ → Type 0
  IsCounted rs count = IsMeasured ctx rs × (length rs.reception_claims ≡ count)

  first-IsCounted : (serial_nbr lower : ℕ) → IsCounted (initialize_rs ctx serial_nbr lower) 0
  unfolding initialize_rs
  first-IsCounted serial_nbr lower = (initialize_rs-IsMeasured ctx serial_nbr lower, refl)

  claim-IsCounted :
      (rs rs' : Rs) (lower upper count : ℕ)
      → IsCounted rs count
      → construct_reception_claim rs lower upper ≡ some rs'
      → IsCounted rs' (count + 1)
  claim-IsCounted rs rs' lower upper count (m, c) e =
      let added : IsCounted (with_claim rs lower upper) (count + 1) = (
        with_claim-IsMeasured ctx rs lower upper m,
        omega (
          arith,
          c,
          length-append rs.reception_claims
              (record { offset = lower; length = sub32 upper lower } ∷ []),
        ),
      ) in
      subst (λ (r : Rs). IsCounted r (count + 1)) (claimed rs rs' lower upper e) added

  post_claim-IsCounted :
      (rs rs' : Rs) (lower upper count : ℕ)
      → IsCounted rs count
      → post_claim rs lower upper ≡ some rs'
      → IsCounted rs' (if upper == lower then count else count + 1)
  unfolding post_claim
  post_claim-IsCounted rs rs' lower upper count v e = elim (Bool-cases (upper == lower)) [
    | inl empty ↦
        let found : some rs ≡ some rs' = rw empty at e in
        let same : rs ≡ rs' = cc in rw empty (rw same at v)
    | inr some_bytes ↦
        rw some_bytes (claim-IsCounted rs rs' lower upper count v (rw some_bytes at e))
  ]

  finish_report-AllExceed :
      (serial_nbr : ℕ) (rs : Rs) (lower upper count : ℕ)
      → IsCounted rs count
      → AllExceed tail (finish_report ctx serial_nbr rs lower upper count)
  unfolding finish_report
  finish_report-AllExceed serial_nbr rs lower upper count v = elim (Bool-cases (upper == lower)) [
    | inl empty ↦ rw empty tt
    | inr some_bytes ↦ elim (Option-cases (construct_reception_claim rs lower upper)) [
      | inl n ↦ rw (some_bytes, n) tt
      | inr (rs', e) ↦
          let (m, c) = claim-IsCounted rs rs' lower upper count v e in
          rw (some_bytes, e) (counted rs' ctx.report_upper_bound (count + 1) m c, tt)
    ]
  ]

  ship-AllExceed :
      (report : ReportSeg) (s : Sending)
      → Exceeds tail report
      → AllExceed tail s
      → AllExceed tail (ship report s)
  unfolding ship
  ship-AllExceed report (Sending.sent reports serial_nbr) h k = (h, k)
  ship-AllExceed report (Sending.limit reports) h k = (h, k)
  ship-AllExceed report Sending.failed h k = tt

  report_loop-AllExceed :
      (segs : List RecvSeg) (serial_nbr : ℕ) (rs : Rs) (lower upper count : ℕ)
      → IsCounted rs count
      → AllExceed tail (report_loop ctx serial_nbr rs lower upper count segs)
  unfolding report_loop
  report_loop-AllExceed [] serial_nbr rs lower upper count v =
      finish_report-AllExceed serial_nbr rs lower upper count v
  report_loop-AllExceed (ds ∷ segs) serial_nbr rs lower upper count v =
      let end : ℕ = add32 ds.offset ds.length in
      let new_upper : ℕ = min end ctx.report_upper_bound in
      let new_count : ℕ = if upper == lower then count else count + 1 in
      let next : ℕ = add32 serial_nbr 1 in
      elim (Bool-cases (leb end lower)) [
        | inl below ↦ rw below (report_loop-AllExceed segs serial_nbr rs lower upper count v)
        | inr above ↦ elim (Bool-cases (leb ds.offset upper)) [
          | inl near ↦
              rw (above, near) (report_loop-AllExceed segs serial_nbr rs lower new_upper count v)
          | inr far ↦ elim (Bool-cases (leb ctx.report_upper_bound ds.offset)) [
            | inl out ↦
                rw (above, far, out) (finish_report-AllExceed serial_nbr rs lower upper count v)
            | inr inside ↦ elim (Option-cases (post_claim rs lower upper)) [
              | inl n ↦ rw (above, far, inside, n) tt
              | inr (rs', e) ↦
                  let w : IsCounted rs' new_count =
                    post_claim-IsCounted rs rs' lower upper count v e in
                  let shipped : Exceeds tail (construct_rs ctx rs' ds.offset new_count) =
                    counted rs' ds.offset new_count w.0 w.1 in
                  elim (Bool-cases (ltb new_count max_claims_per_rs)) [
                    | inl few ↦
                        rw (above, far, inside, e, few)
                          (report_loop-AllExceed segs serial_nbr rs' ds.offset new_upper new_count
                            w)
                    | inr full ↦ elim (Bool-cases (next == 0)) [
                      | inl used_up ↦ rw (above, far, inside, e, full, used_up) (shipped, tt)
                      | inr more ↦
                          rw (above, far, inside, e, full, more)
                            (ship-AllExceed _ _ shipped (
                              report_loop-AllExceed segs next (initialize_rs ctx next ds.offset)
                                ds.offset new_upper 0 (first-IsCounted next ds.offset)))
                    ]
                  ]
            ]
          ]
        ]
      ]

  module _ (session : ImportSession) (serial_nbr : ℕ) where
    send_last_report-Exceeds : ReplyExceeds tail (send_last_report ctx session serial_nbr)
    unfolding send_last_report
    send_last_report-Exceeds =
        elim (Option-cases
          (construct_reception_claim (initialize_rs ctx serial_nbr 0) 0 session.red_part_length)) [
            | inl n ↦ rw (n, ReplyExceeds) tt
            | inr (rs', e) ↦
                let (m, c) =
                  claim-IsCounted (initialize_rs ctx serial_nbr 0) rs' 0 session.red_part_length 0
                    (first-IsCounted serial_nbr 0) e in
                rw (e, ReplyExceeds) (counted rs' session.red_part_length 1 m c, tt)
          ]

    answers :
        (s : Sending)
        → AllExceed tail s
        → ReplyExceeds tail (elim s [
          | Sending.sent reports last ↦ Reply.reply (noted session last reports) reports
          | Sending.limit reports ↦ Reply.cancel (noted session 0 reports) reports
          | Sending.failed ↦ Reply.failure
        ])
    answers (Sending.sent reports last) h = h
    answers (Sending.limit reports) h = h
    answers Sending.failed h = h

    send_gap_report-Exceeds :
        (lower : ℕ) → ReplyExceeds tail (send_gap_report ctx session serial_nbr lower)
    unfolding send_gap_report
    send_gap_report-Exceeds lower =
        answers
          (report_loop ctx serial_nbr (initialize_rs ctx serial_nbr lower) lower lower 0
            session.red_segments)
          (report_loop-AllExceed session.red_segments serial_nbr
            (initialize_rs ctx serial_nbr lower) lower lower 0 (first-IsCounted serial_nbr lower))

-- Whatever the session and the checkpoint, and with any trailer, each report segment that sendReport
-- sends has a content length that exceeds what serializeReportSegment writes of its content by as
-- many bytes as the offsets of its claims take more in the block than from its lower bound.
pub length-serialize_report_content :
    (first : ℕ) (ctx : ReportContext) (session : ImportSession) (rpt_serial_nbr : ℕ) (tail : List ℕ)
    → ReplyExceeds tail (send_report first ctx session rpt_serial_nbr)
unfolding send_report
length-serialize_report_content first ctx session rpt_serial_nbr tail =
    let serial_nbr : ℕ = next_serial_nbr first session in
    elim (Bool-cases (session.last_rpt_serial_nbr == 0)) [
      | inr over ↦ rw over tt
      | inl going_on ↦ elim (Bool-cases (serial_nbr == 0)) [
        | inl used_up ↦ rw (going_on, used_up) tt
        | inr some_left ↦ elim (Bool-cases (int_lt 0 session.red_part_length && is_whole session)) [
          | inl whole ↦
              rw (going_on, some_left, whole) (send_last_report-Exceeds ctx tail session serial_nbr)
          | inr part ↦ elim (Bool-cases (int_lt session.reports_count session.max_reports)) [
            | inr at_limit ↦ rw (going_on, some_left, part, at_limit) tt
            | inl few ↦
                rw (going_on, some_left, part, few)
                  (send_gap_report-Exceeds ctx tail session serial_nbr
                    (report_lower_bound session rpt_serial_nbr))
          ]
        ]
      ]
    ]
