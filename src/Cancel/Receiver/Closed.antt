-- ===== src/Cancel/Receiver/Closed.antt =====
-- A session that the sender cancels, or whose cancellation the sender acknowledges, is closed for
-- good.
use mini_ltp.Prelude.{
  ℕ, ◌≤◌, ◌≡◌, refl, ◌∙◌, List, [], ◌∷◌, ◌++◌, true, false, ◌==◌, arith, none, some, Bool-cases,
  inl, inr,
}
use mini_ltp.Sdnv.{u32}
use mini_ltp.Segment.{ltp_rs, ltp_cas}
use mini_ltp.Timeline.{Link}
use mini_ltp.Queue.{QueuedSeg, construct_source_cancel_ack_segment, cancel_ack_segment}
use mini_ltp.Queue.Contents.{queued, queued-enqueue_ack_segment, is_for}
use mini_ltp.Closing.{note_closed_import, session_is_closed}
use mini_ltp.Closing.Order.{Falling, session_is_closed-note_closed_import}
use mini_ltp.Cancel.{NoticeType}
use mini_ltp.Cancel.Lists.{find_session, delete_session}
use mini_ltp.Cancel.Lists.Occurs.{occurs, occurs-delete_session, find_some, absent_none}
use mini_ltp.Cancel.Receiver.{
  ImportEntry, Importer, nbr_of, get_import_session, get_canceled_import, stop_import_session,
  note_closed, close_import_session, import_canceled, apply_cs, handle_cs, bury, apply_car,
  handle_car, without_reports, admit,
}
use mini_ltp.Cancel.Receiver.Changes.{count}
use mini_ltp.Cancel.Receiver.Partition.{IsPartitioned}

pub no_reports-without_reports :
    (nbr : ℕ) (xs : List QueuedSeg) → queued (is_for ltp_rs nbr) (without_reports nbr xs) ≡ false
unfolding without_reports
no_reports-without_reports nbr [] = refl
no_reports-without_reports nbr (x ∷ xs) = elim (Bool-cases (is_for ltp_rs nbr x)) [
  | inl d ↦ rw d (no_reports-without_reports nbr xs)
  | inr d ↦ rw (d, d) (no_reports-without_reports nbr xs)
]

cas-without_reports :
    (nbr : ℕ) (xs : List QueuedSeg)
    → queued (is_for ltp_cas nbr) (without_reports nbr xs) ≡ queued (is_for ltp_cas nbr) xs
unfolding without_reports
cas-without_reports nbr [] = refl
cas-without_reports nbr (x ∷ xs) = ground (arith, cas-without_reports nbr xs)

cas_queued :
    (source nbr : ℕ) (xs : List QueuedSeg)
    → queued (is_for ltp_cas nbr) (construct_source_cancel_ack_segment source nbr xs) ≡ true
unfolding construct_source_cancel_ack_segment cancel_ack_segment
cas_queued source nbr xs = ground (
  arith,
  queued-enqueue_ack_segment (is_for ltp_cas nbr) (cancel_ack_segment ltp_cas source nbr) xs,
)

noted_lem :
    (nbr : ℕ) (nbrs : List ℕ)
    → nbr ≤ u32
    → Falling u32 nbrs
    → session_is_closed nbr (note_closed_import nbr nbrs) ≡ true
noted_lem nbr nbrs h f =
    ground (arith, (session_is_closed-note_closed_import nbr nbr u32 nbrs h f).0)

closed_stays :
    (nbr : ℕ) (st : Importer) → session_is_closed nbr st.closed_imports ≡ true → admit nbr st ≡ st
unfolding admit
closed_stays nbr st e = rw e

-- The session is neither active nor canceled, and a red segment that comes late does not start it
-- again.
abbrev pub IsClosed : ℕ → Importer → Type 0
IsClosed nbr st =
    (get_import_session nbr st ≡ none)
    × (get_canceled_import nbr st ≡ none)
    × (session_is_closed nbr st.closed_imports ≡ true)
    × (admit nbr st ≡ st)

deleted :
    (nbr : ℕ) (xs : List ImportEntry)
    → occurs nbr_of nbr xs ≤ 1
    → find_session nbr_of nbr (delete_session nbr_of nbr xs) ≡ none
deleted nbr xs h =
    let same : (nbr == nbr) ≡ true = ground arith in
    absent_none nbr_of nbr _ (ground (arith, occurs-delete_session nbr_of nbr nbr xs))

module _ (link : Link) (current_time : ℕ) (st : Importer) (v : IsPartitioned st) where
  -- The sender cancels an active import session while its engine is supposed to transmit. The session
  -- is then closed, and segments that come late do not start it again; the client gets a notice with
  -- the reason; and the queue holds an acknowledgment of the cancellation, and no report on the
  -- session.
  pub handle_cs-IsClosed :
      (session : ImportEntry) (reason_code : ℕ)
      → get_import_session session.session_nbr st ≡ some session
      → IsClosed session.session_nbr
          (handle_cs link current_time true session.session_nbr reason_code st)
        × ((handle_cs link current_time true session.session_nbr reason_code st).notices
            ≡ st.notices
              ++ record {
                session_nbr = session.session_nbr;
                type = NoticeType.import_session_canceled;
                reason_code = reason_code;
                sdu = 0;
              }
                ∷ [])
        × (queued
              (is_for ltp_cas session.session_nbr)
              (handle_cs link current_time true session.session_nbr reason_code st).segments
            ≡ true)
        × (queued
              (is_for ltp_rs session.session_nbr)
              (handle_cs link current_time true session.session_nbr reason_code st).segments
            ≡ false)
  unfolding handle_cs apply_cs stop_import_session import_canceled get_import_session
      get_canceled_import close_import_session note_closed
  handle_cs-IsClosed session reason_code e =
      let nbr : ℕ = session.session_nbr in
      let (cited, there) = find_some nbr_of nbr st.import_sessions session e in
      let once : count nbr st ≤ 1 = v.1 nbr in
      let low : nbr ≤ u32 = v.0.1 nbr (omega arith) in
      let noted : session_is_closed nbr (note_closed_import nbr st.closed_imports) ≡ true =
        noted_lem nbr st.closed_imports low v.0.0 in
      rw e (
        (
          deleted nbr st.import_sessions (omega arith),
          absent_none nbr_of nbr st.dead_imports (omega arith),
          noted,
          closed_stays nbr _ noted,
        ),
        refl,
        cas-without_reports nbr _ ∙ cas_queued st.engine_id nbr st.segments,
        no_reports-without_reports nbr _,
      )

  -- The receiver has canceled an import session, and the sender acknowledges that while its engine is
  -- supposed to transmit. The session is then closed, and segments that come late do not start it
  -- again.
  handle_car-IsClosed :
      (nbr : ℕ) (dead : ImportEntry)
      → get_canceled_import nbr st ≡ some dead
      → IsClosed nbr (handle_car link current_time true nbr st)
  unfolding handle_car apply_car bury get_import_session get_canceled_import note_closed
  handle_car-IsClosed nbr dead e =
      let (cited, there) = find_some nbr_of nbr st.dead_imports dead e in
      let once : count nbr st ≤ 1 = v.1 nbr in
      let low : nbr ≤ u32 = v.0.1 nbr (omega arith) in
      let noted : session_is_closed nbr (note_closed_import nbr st.closed_imports) ≡ true =
        noted_lem nbr st.closed_imports low v.0.0 in
      rw e (
        absent_none nbr_of nbr st.import_sessions (omega arith),
        deleted nbr st.dead_imports (omega arith),
        noted,
        closed_stays nbr _ noted,
      )
