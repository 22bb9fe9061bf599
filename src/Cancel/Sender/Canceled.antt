-- ===== src/Cancel/Sender/Canceled.antt =====
-- What the cancellation of an export session leaves behind.
use mini_ltp.Prelude.{
  ℕ, ◌-◌, ◌<◌, ◌≡◌, refl, ◌∙◌, append-nil, List, [], ◌∷◌, ◌++◌, map, true, false, ltb, ◌==◌,
  if◌then◌else◌, arith, none, some, Bool-cases, inl, inr,
}
use mini_ltp.Segment.{ltp_cs, ltp_car}
use mini_ltp.Queue.{
  QueuedSeg, construct_source_cancel_req_segment, construct_dest_cancel_ack_segment,
  cancel_req_segment, cancel_ack_segment,
}
use mini_ltp.Queue.Contents.{queued, queued-append, queued-enqueue_ack_segment, is_data_of, is_for}
use mini_ltp.Cancel.{Notice, NoticeType}
use mini_ltp.Cancel.Lists.{find_session, delete_session}
use mini_ltp.Cancel.Lists.Occurs.{occurs, occurs-delete_session, find_some, absent_none, find_last}
use mini_ltp.Cancel.Sender.{
  ExportEntry, Exporter, nbr_of, get_export_session, get_canceled_export, without_data,
  stop_export_session, enqueue_notices, cancel_session_by_sender, close_export_session,
  get_session_context, cr_in_context, handle_cr, cleared,
}
use mini_ltp.Cancel.Sender.Partition.{IsPartitioned}

no_data-without_data :
    (nbr : ℕ) (xs : List QueuedSeg) → queued (is_data_of nbr) (without_data nbr xs) ≡ false
unfolding without_data
no_data-without_data nbr [] = refl
no_data-without_data nbr (x ∷ xs) = elim (Bool-cases (is_data_of nbr x)) [
  | inl d ↦ rw d (no_data-without_data nbr xs)
  | inr d ↦ rw (d, d) (no_data-without_data nbr xs)
]

-- Control segments stay in the queue.
car-without_data :
    (nbr : ℕ) (xs : List QueuedSeg)
    → queued (is_for ltp_car nbr) (without_data nbr xs) ≡ queued (is_for ltp_car nbr) xs
unfolding without_data
car-without_data nbr [] = refl
car-without_data nbr (x ∷ xs) = ground (arith, car-without_data nbr xs)

-- A notice for each service data unit of the session.
abbrev pub notices_of : ExportEntry → ℕ → List Notice
notices_of session reason_code =
    map
      (λ sdu. record {
        session_nbr = session.session_nbr;
        type = NoticeType.export_session_canceled;
        reason_code = reason_code;
        sdu = sdu;
      })
      session.svc_data_objects

-- The state after the receiver has canceled the session.
abbrev pub IsRevoked : Exporter → ExportEntry → ℕ → Exporter → Type 0
IsRevoked st session reason_code st' =
    (get_export_session session.session_nbr st' ≡ none)
    × (get_canceled_export session.session_nbr st' ≡ none)
    × (st'.notices ≡ st.notices ++ notices_of session reason_code)
    × (queued (is_for ltp_car session.session_nbr) st'.segments ≡ true)
    × (queued (is_data_of session.session_nbr) st'.segments ≡ false)

-- The state after the sender has canceled the session.
abbrev pub IsCanceled : Exporter → ExportEntry → ℕ → Exporter → Type 0
IsCanceled st session reason_code st' =
    (get_export_session session.session_nbr st' ≡ none)
    × (get_canceled_export session.session_nbr st' ≡ some (cleared reason_code session))
    × (st'.notices ≡ st.notices ++ notices_of session reason_code)
    × (queued (is_for ltp_cs session.session_nbr) st'.segments ≡ true)
    × (queued (is_data_of session.session_nbr) st'.segments ≡ false)

absent_after :
    (st : Exporter) (session : ExportEntry)
    → IsPartitioned st
    → get_export_session session.session_nbr st ≡ some session
    → (find_session nbr_of session.session_nbr
          (delete_session nbr_of session.session_nbr st.export_sessions)
        ≡ none)
      × (occurs nbr_of session.session_nbr st.dead_exports ≡ 0)
unfolding get_export_session
absent_after st session v e =
    let nbr : ℕ = session.session_nbr in
    let (once, old) = v nbr in
    let (cited, there) = find_some nbr_of nbr st.export_sessions session e in
    let gone : occurs nbr_of nbr (delete_session nbr_of nbr st.export_sessions)
        ≡ occurs nbr_of nbr st.export_sessions - (if nbr == nbr then 1 else 0) =
      occurs-delete_session nbr_of nbr nbr st.export_sessions in
    let same : (nbr == nbr) ≡ true = ground arith in
    (absent_none nbr_of nbr _ (ground (arith, gone)), omega arith)

module _ (own nbr reason_code : ℕ) (xs : List QueuedSeg) where
  cs_queued :
      queued (is_for ltp_cs nbr) (construct_source_cancel_req_segment own nbr reason_code xs) ≡ true
  unfolding construct_source_cancel_req_segment cancel_req_segment
  cs_queued = ground (
    arith,
    queued-append (is_for ltp_cs nbr) xs (cancel_req_segment ltp_cs own nbr reason_code ∷ []),
  )

  no_data_queued :
      queued (is_data_of nbr) xs ≡ false
      → queued (is_data_of nbr) (construct_source_cancel_req_segment own nbr reason_code xs) ≡ false
  unfolding construct_source_cancel_req_segment cancel_req_segment
  no_data_queued e = ground (
    arith,
    queued-append (is_data_of nbr) xs (cancel_req_segment ltp_cs own nbr reason_code ∷ []),
  )

  car_queued : queued (is_for ltp_car nbr) (construct_dest_cancel_ack_segment own nbr xs) ≡ true
  unfolding construct_dest_cancel_ack_segment cancel_ack_segment
  car_queued = ground (
    arith,
    queued-enqueue_ack_segment (is_for ltp_car nbr) (cancel_ack_segment ltp_car own nbr) xs,
  )

module _ (st : Exporter) (session : ExportEntry) (v : IsPartitioned st) where
  context_lem :
      get_export_session session.session_nbr st ≡ some session
      → 0 < session.total_length
      → get_session_context true session.session_nbr st ≡ some session
  unfolding get_session_context
  context_lem e p =
      let some_data : ltb 0 session.total_length ≡ true = ground arith in ground (arith, e)

  closed_lem :
      (reason_code : ℕ)
      → get_export_session session.session_nbr st ≡ some session
      → IsRevoked st session reason_code
          (cr_in_context session.session_nbr reason_code (some session) st)
  unfolding cr_in_context stop_export_session enqueue_notices close_export_session
      get_export_session get_canceled_export
  closed_lem reason_code e =
      let (gone, absent) = absent_after st session v e in
      (
        gone,
        absent_none nbr_of session.session_nbr st.dead_exports absent,
        append-nil _,
        car-without_data session.session_nbr _
            ∙ car_queued st.own_engine_id session.session_nbr 0 st.segments,
        no_data-without_data session.session_nbr _,
      )

  -- An active export session is canceled by the sender. It is then no longer active; it is found
  -- among the canceled ones, with the reason and without data; the client gets a notice with the
  -- reason for each service data unit; and the queue holds a cancel segment for the session, and no
  -- data segment of it.
  pub cancel_session_by_sender-IsCanceled :
      (reason_code : ℕ)
      → get_export_session session.session_nbr st ≡ some session
      → IsCanceled st session reason_code (cancel_session_by_sender session reason_code st)
  unfolding cancel_session_by_sender stop_export_session enqueue_notices get_export_session
      get_canceled_export cleared
  cancel_session_by_sender-IsCanceled reason_code e =
      let (gone, absent) = absent_after st session v e in
      (
        gone,
        find_last nbr_of session.session_nbr st.dead_exports (cleared reason_code session) absent
            refl,
        refl,
        cs_queued st.own_engine_id session.session_nbr reason_code _,
        no_data_queued st.own_engine_id session.session_nbr reason_code _
            (no_data-without_data session.session_nbr st.segments),
      )

  -- The receiver cancels an active export session whose block has been closed, while its engine is
  -- supposed to transmit. The session is then neither active nor canceled; the client gets a notice
  -- with the reason for each service data unit; and the queue holds an acknowledgment of the
  -- cancellation, and no data segment of the session.
  pub handle_cr-IsRevoked :
      (reason_code : ℕ)
      → get_export_session session.session_nbr st ≡ some session
      → 0 < session.total_length
      → IsRevoked st session reason_code (handle_cr true session.session_nbr reason_code st)
  unfolding handle_cr
  handle_cr-IsRevoked reason_code e p =
      let in_context : get_session_context true session.session_nbr st ≡ some session =
        context_lem e p in
      rw in_context (closed_lem reason_code e)
