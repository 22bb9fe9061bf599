-- ===== src/Cancel/Receiver/Unanswered.antt =====
-- A session whose report is never acknowledged.
use mini_ltp.Prelude.{
  ℕ, zero, suc, ◌+◌, ◌-◌, ◌≤◌, ◌<◌, ◌≡◌, refl, sym, append-nil, append_assoc, ap, ◌∙◌, List, [],
  ◌∷◌, ◌++◌, true, false, ◌==◌, arith, none, some,
}
use mini_ltp.Segment.{ltp_rs, ltp_cr}
use mini_ltp.Timeline.{Link}
use mini_ltp.Queue.{QueuedSeg, construct_dest_cancel_req_segment, cancel_req_segment}
use mini_ltp.Queue.Contents.{queued, queued-append, is_for}
use mini_ltp.Cancel.{Notice, NoticeType, ltp_retransmit_limit_exceeded}
use mini_ltp.Cancel.Lists.{find_session, delete_session, write_session}
use mini_ltp.Cancel.Lists.Occurs.{
  occurs, occurs-delete_session, find_some, find_written, find_last, absent_none,
}
use mini_ltp.Cancel.Receiver.{
  SentRpt, ImportEntry, Importer, nbr_of, get_import_session, get_canceled_import,
  stop_import_session, import_canceled, stopped_for, cancel_session_by_receiver,
}
use mini_ltp.Cancel.Receiver.Resend.{
  rpt_nbr_of, find_rpt, write_rpt, rpt_sent_again, resend_rpt, resend_rpt_in_session,
  ltp_resend_report,
}
use mini_ltp.Cancel.Receiver.Changes.{count}
use mini_ltp.Cancel.Receiver.Partition.{IsPartitioned, Step, step-IsPartitioned}
use mini_ltp.Cancel.Receiver.Closed.{no_reports-without_reports}

-- The timer of the report runs out `times` times, and no acknowledgment comes.
abbrev pub report_runs_out : ℕ → ℕ → ℕ → ℕ → Importer → Importer
report_runs_out zero max_timeouts nbr serial st = st
report_runs_out (suc times) max_timeouts nbr serial st =
    report_runs_out times max_timeouts nbr serial (ltp_resend_report max_timeouts nbr serial st)

abbrev canceled_notice : ℕ → ImportEntry → Notice
canceled_notice reason_code session = record {
  session_nbr = session.session_nbr;
  type = NoticeType.import_session_canceled;
  reason_code = reason_code;
  sdu = 0;
}

-- The report, as often as it is sent again.
abbrev pub copies : ℕ → QueuedSeg → List QueuedSeg
copies zero seg = []
copies (suc n) seg = seg ∷ copies n seg

-- The state after the receiver has canceled the session.
abbrev pub IsAborted : ℕ → ImportEntry → Importer → Importer → Type 0
IsAborted reason_code session st st' =
    (get_import_session session.session_nbr st' ≡ none)
    × (get_canceled_import session.session_nbr st' ≡ some (stopped_for reason_code session))
    × (st'.notices ≡ st.notices ++ canceled_notice reason_code session ∷ [])
    × (queued (is_for ltp_cr session.session_nbr) st'.segments ≡ true)
    × (queued (is_for ltp_rs session.session_nbr) st'.segments ≡ false)

module _ (own nbr reason_code : ℕ) (xs : List QueuedSeg) where
  cr_queued :
      queued (is_for ltp_cr nbr) (construct_dest_cancel_req_segment own nbr reason_code xs) ≡ true
  unfolding construct_dest_cancel_req_segment cancel_req_segment
  cr_queued = ground (
    arith,
    queued-append (is_for ltp_cr nbr) xs (cancel_req_segment ltp_cr own nbr reason_code ∷ []),
  )

  no_reports_queued :
      queued (is_for ltp_rs nbr) xs ≡ false
      → queued (is_for ltp_rs nbr) (construct_dest_cancel_req_segment own nbr reason_code xs)
        ≡ false
  unfolding construct_dest_cancel_req_segment cancel_req_segment
  no_reports_queued e = ground (
    arith,
    queued-append (is_for ltp_rs nbr) xs (cancel_req_segment ltp_cr own nbr reason_code ∷ []),
  )

cancel_session_by_receiver-IsAborted :
    (st : Importer) (session : ImportEntry) (reason_code : ℕ)
    → IsPartitioned st
    → get_import_session session.session_nbr st ≡ some session
    → IsAborted reason_code session st (cancel_session_by_receiver session reason_code st)
unfolding cancel_session_by_receiver stop_import_session import_canceled get_import_session
    get_canceled_import
cancel_session_by_receiver-IsAborted st session reason_code v e =
    let nbr : ℕ = session.session_nbr in
    let there : 0 < occurs nbr_of nbr st.import_sessions =
      (find_some nbr_of nbr st.import_sessions session e).1 in
    let once : count nbr st ≤ 1 = v.1 nbr in
    let gone : occurs nbr_of nbr (delete_session nbr_of nbr st.import_sessions) ≡ 0 =
      ground (arith, occurs-delete_session nbr_of nbr nbr st.import_sessions) in
    (
      absent_none nbr_of nbr _ gone,
      find_last nbr_of nbr st.dead_imports (stopped_for reason_code session) (omega arith) refl,
      refl,
      cr_queued st.engine_id nbr reason_code _,
      no_reports_queued st.engine_id nbr reason_code _ (no_reports-without_reports nbr st.segments),
    )

module _ (link : Link) (serial : ℕ) where
  find_rpt-write_rpt :
      (rpts : List SentRpt) (rpt : SentRpt)
      → find_rpt serial rpts ≡ some rpt
      → find_rpt serial (write_rpt (rpt_sent_again rpt) rpts) ≡ some (rpt_sent_again rpt)
  unfolding find_rpt write_rpt
  find_rpt-write_rpt rpts rpt f =
      let again : SentRpt = rpt_sent_again rpt in
      let cited : rpt_nbr_of rpt ≡ serial = (find_some rpt_nbr_of serial rpts rpt f).0 in
      ap (λ k. find_session rpt_nbr_of serial (write_session rpt_nbr_of k again rpts)) cited
      ∙ find_written rpt_nbr_of serial rpts rpt again f cited

  abbrev waiting : ImportEntry → SentRpt → ImportEntry
  waiting session rpt = record session {
    rs_segments = write_rpt (rpt_sent_again rpt) session.rs_segments;
  }

  abbrev timeout : ℕ → Importer → Importer
  timeout nbr st = ltp_resend_report link.max_timeouts nbr serial st

  resent :
      (st : Importer) (session : ImportEntry) (rpt : SentRpt)
      → get_import_session session.session_nbr st ≡ some session
      → find_rpt serial session.rs_segments ≡ some rpt
      → 0 < rpt.timer.seg_arrival_time
      → rpt.timer.expiration_count < link.max_timeouts
      → (get_import_session session.session_nbr (timeout session.session_nbr st)
          ≡ some (waiting session rpt))
        × (find_rpt serial (waiting session rpt).rs_segments ≡ some (rpt_sent_again rpt))
        × ((timeout session.session_nbr st).notices ≡ st.notices)
        × ((timeout session.session_nbr st).segments ≡ st.segments ++ rpt.segment ∷ [])
  unfolding ltp_resend_report resend_rpt_in_session resend_rpt get_import_session
  resent st session rpt e f p h =
      let sent : (rpt.timer.seg_arrival_time == 0) ≡ false = ground arith in
      let more : (rpt.timer.expiration_count == link.max_timeouts) ≡ false = ground arith in
      rw (e, f, sent, more)
        (
          find_written nbr_of session.session_nbr st.import_sessions session _ e refl,
          find_rpt-write_rpt session.rs_segments rpt f,
          refl,
          refl,
        )

  given_up :
      (st : Importer) (session : ImportEntry) (rpt : SentRpt)
      → get_import_session session.session_nbr st ≡ some session
      → find_rpt serial session.rs_segments ≡ some rpt
      → 0 < rpt.timer.seg_arrival_time
      → rpt.timer.expiration_count ≡ link.max_timeouts
      → timeout session.session_nbr st
        ≡ cancel_session_by_receiver session ltp_retransmit_limit_exceeded st
  unfolding ltp_resend_report resend_rpt_in_session resend_rpt
  given_up st session rpt e f p h =
      let sent : (rpt.timer.seg_arrival_time == 0) ≡ false = ground arith in
      let last : (rpt.timer.expiration_count == link.max_timeouts) ≡ true = ground arith in
      rw (e, f, sent, last)

  -- The session after the limit.
  canceled_at_last :
      (times : ℕ) (st : Importer) (session : ImportEntry) (rpt : SentRpt)
      → IsPartitioned st
      → get_import_session session.session_nbr st ≡ some session
      → find_rpt serial session.rs_segments ≡ some rpt
      → 0 < rpt.timer.seg_arrival_time
      → rpt.timer.expiration_count + times ≡ link.max_timeouts
      → IsAborted ltp_retransmit_limit_exceeded session st
          (report_runs_out (suc times) link.max_timeouts session.session_nbr serial st)
  canceled_at_last zero st session rpt v e f p h =
      rw (given_up st session rpt e f p (omega arith))
        (cancel_session_by_receiver-IsAborted st session ltp_retransmit_limit_exceeded v e)
  canceled_at_last (suc times) st session rpt v e f p h =
      let nbr : ℕ = session.session_nbr in
      let (found, found_rpt, same, queue) = resent st session rpt e f p (omega arith) in
      let w : IsPartitioned (timeout nbr st) =
        step-IsPartitioned link 0 st (timeout nbr st) (Step.report_timeout nbr serial) v in
      let (gone, dead, noted, cr, no_rs) =
        canceled_at_last times (timeout nbr st) (waiting session rpt) (rpt_sent_again rpt) w found
          found_rpt p (omega arith) in
      (
        gone,
        dead,
        noted ∙ ap (λ l. l ++ canceled_notice ltp_retransmit_limit_exceeded session ∷ []) same,
        cr,
        no_rs,
      )

  sent_again :
      (k times : ℕ) (st : Importer) (session : ImportEntry) (rpt : SentRpt)
      → get_import_session session.session_nbr st ≡ some session
      → find_rpt serial session.rs_segments ≡ some rpt
      → 0 < rpt.timer.seg_arrival_time
      → rpt.timer.expiration_count + times ≡ link.max_timeouts
      → k ≤ times
      → (report_runs_out k link.max_timeouts session.session_nbr serial st).segments
        ≡ st.segments ++ copies k rpt.segment
  sent_again zero times st session rpt e f p h le = sym (append-nil st.segments)
  sent_again (suc k) times st session rpt e f p h le =
      let nbr : ℕ = session.session_nbr in
      let (found, found_rpt, same, queue) = resent st session rpt e f p (omega arith) in
      sent_again k (times - 1) (timeout nbr st) (waiting session rpt) (rpt_sent_again rpt) found
        found_rpt p (omega arith) (omega arith)
      ∙ ap (λ l. l ++ copies k rpt.segment) queue
      ∙ append_assoc st.segments (rpt.segment ∷ []) (copies k rpt.segment)

  -- An active import session has a report that has been sent, has timed out no more often than the
  -- limit, and is never acknowledged. The first `k` timeouts, as many as are left before the limit or
  -- fewer, queue the report `k` times at the end of the queue. With one timeout more than are left the
  -- receiver cancels the session: it is no longer active; it is found among the canceled ones, with
  -- the reason and without reports; the client gets one notice with the reason; and the queue holds a
  -- cancel segment for the session, and no report on it.
  pub report_runs_out-IsAborted :
      (k times : ℕ) (st : Importer) (session : ImportEntry) (rpt : SentRpt)
      → IsPartitioned st
      → get_import_session session.session_nbr st ≡ some session
      → find_rpt serial session.rs_segments ≡ some rpt
      → 0 < rpt.timer.seg_arrival_time
      → rpt.timer.expiration_count + times ≡ link.max_timeouts
      → k ≤ times
      → ((report_runs_out k link.max_timeouts session.session_nbr serial st).segments
          ≡ st.segments ++ copies k rpt.segment)
        × IsAborted ltp_retransmit_limit_exceeded session st
            (report_runs_out (suc times) link.max_timeouts session.session_nbr serial st)
  report_runs_out-IsAborted k times st session rpt v e f p h le = (
    sent_again k times st session rpt e f p h le,
    canceled_at_last times st session rpt v e f p h,
  )
