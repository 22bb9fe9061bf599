-- ===== src/Cancel/Receiver/Partition.antt =====
-- An import session is active, canceled or closed, and in one of these states only.
use mini_ltp.Prelude.{
  ℕ, ◌≤◌, ◌<◌, ◌≡◌, ap, ◌∙◌, length, [], ◌∷◌, ◌++◌, Bool, true, false, ltb, ◌==◌, arith, some,
  Bool-cases, Option-cases, inl, inr,
}
use mini_ltp.Timeline.{Link}
use mini_ltp.Closing.{session_is_closed}
use mini_ltp.Cancel.Lists.{find_session}
use mini_ltp.Cancel.Lists.Occurs.{occurs, occurs-append, find_some}
use mini_ltp.Cancel.Receiver.{
  ImportEntry, Importer, nbr_of, get_import_session, get_canceled_import, stop_import_session,
  note_closed, close_import_session, import_canceled, cancel_session_by_receiver, apply_cs,
  handle_cs, new_session, admit, bury, apply_car, handle_car, ltp_resend_recv_cancel,
  forget_import_session,
}
use mini_ltp.Sdnv.{u32}
use mini_ltp.Cancel.Lists.Occurs.{find_none}
use mini_ltp.Cancel.Receiver.Resend.{ltp_resend_report, start_recv_cancel_timer}
use mini_ltp.Cancel.Receiver.Changes.{
  notes, no_notes, count, IsBounded, NoMore, unchanged-NoMore, cancel-NoMore, close-NoMore,
  bury-NoMore, timeout-NoMore, forget-NoMore, report_timeout-NoMore, cancel_sent-NoMore,
}

-- Each number is that of one session at most, in one of the three states; numbers are unsigned ints,
-- and the notes of closed sessions are in order.
abbrev pub IsPartitioned : Importer → Type 0
IsPartitioned st = IsBounded u32 st × ((nbr : ℕ) → count nbr st ≤ 1)

-- What can happen at the receiver.
pub data Step (link : Link) (current_time : ℕ) (st : Importer) : Importer → Type 0 where
  red_segment : (nbr : ℕ) → nbr < u32 → Step link current_time st (admit nbr st)
  cancel :
      (session : ImportEntry) (reason_code : ℕ)
      → get_import_session session.session_nbr st ≡ some session
      → Step link current_time st (cancel_session_by_receiver session reason_code st)
  close :
      (session : ImportEntry)
      → get_import_session session.session_nbr st ≡ some session
      → Step link current_time st (close_import_session link current_time session st)
  cs :
      (is_receiving : Bool) (nbr reason_code : ℕ)
      → Step link current_time st (handle_cs link current_time is_receiving nbr reason_code st)
  car :
      (is_receiving : Bool) (nbr : ℕ)
      → Step link current_time st (handle_car link current_time is_receiving nbr st)
  cancel_timeout :
      (nbr : ℕ) → Step link current_time st (ltp_resend_recv_cancel link current_time nbr st)
  report_timeout :
      (nbr serial : ℕ)
      → Step link current_time st (ltp_resend_report link.max_timeouts nbr serial st)
  cancel_sent :
      (current_sec length nbr : ℕ) (has_session : Bool)
      → Step link current_time st
          (start_recv_cancel_timer link current_sec length has_session nbr st)
  note_timeout : (nbr : ℕ) → Step link current_time st (forget_import_session nbr st)

pub data Reachable (link : Link) : Importer → Type 0 where
  empty :
      (st : Importer)
      → st.import_sessions ≡ []
      → st.dead_imports ≡ []
      → st.closed_imports ≡ []
      → Reachable link st
  step :
      (current_time : ℕ) (st st' : Importer)
      → Reachable link st
      → Step link current_time st st'
      → Reachable link st'

module _ (link : Link) (current_time : ℕ) (st : Importer) where
  cs-NoMore :
      (is_receiving : Bool) (nbr reason_code : ℕ)
      → IsBounded u32 st
      → NoMore u32 st (handle_cs link current_time is_receiving nbr reason_code st)
  unfolding handle_cs apply_cs stop_import_session import_canceled get_import_session
      close_import_session note_closed
  cs-NoMore false nbr reason_code b = unchanged-NoMore link current_time u32 st b
  cs-NoMore true nbr reason_code b =
      elim (Option-cases (find_session nbr_of nbr st.import_sessions)) [
        | inl n ↦ rw n (b.0, λ m. omega arith)
        | inr (session, s) ↦
            let cited : session.session_nbr ≡ nbr =
              (find_some nbr_of nbr st.import_sessions session s).0 in
            rw s (
              close-NoMore link current_time u32 st b session
                (ap (λ k. find_session nbr_of k st.import_sessions) cited ∙ s))
      ]

  car-NoMore :
      (is_receiving : Bool) (nbr : ℕ)
      → IsBounded u32 st
      → NoMore u32 st (handle_car link current_time is_receiving nbr st)
  unfolding handle_car apply_car bury note_closed
  car-NoMore false nbr b = unchanged-NoMore link current_time u32 st b
  car-NoMore true nbr b = elim (Option-cases (get_canceled_import nbr st)) [
    | inl n ↦ rw n (unchanged-NoMore link current_time u32 st b)
    | inr (dead, d) ↦ rw d (bury-NoMore link current_time u32 st b nbr dead d)
  ]

  NoMore-IsPartitioned : (st' : Importer) → NoMore u32 st st' → IsPartitioned st → IsPartitioned st'
  NoMore-IsPartitioned st' (f, g) (b, once) =
      ((f, λ nbr p. b.1 nbr (omega (arith, g nbr))), λ nbr. omega (arith, g nbr, once nbr))

  abbrev admitted : ℕ → Importer
  admitted nbr = record st { import_sessions = st.import_sessions ++ new_session nbr ∷ [] }

  admitted-IsPartitioned :
      (nbr : ℕ)
      → nbr < u32
      → notes nbr st.closed_imports ≡ 0
      → occurs nbr_of nbr st.import_sessions ≡ 0
      → occurs nbr_of nbr st.dead_imports ≡ 0
      → IsPartitioned st
      → IsPartitioned (admitted nbr)
  admitted-IsPartitioned nbr h closed active dead (b, once) = (
    (
      b.0,
      λ m p.
          let added = occurs-append nbr_of m st.import_sessions (new_session nbr ∷ []) in
          elim (Bool-cases (nbr == m)) [
            | inl same ↦ ground arith
            | inr other ↦ b.1 m (ground (arith, added))
          ],
    ),
    λ m. ground (arith, occurs-append nbr_of m st.import_sessions (new_session nbr ∷ []), once m),
  )

  admit-IsPartitioned : (nbr : ℕ) → nbr < u32 → IsPartitioned st → IsPartitioned (admit nbr st)
  unfolding admit get_import_session get_canceled_import
  admit-IsPartitioned nbr h v = elim (Bool-cases (session_is_closed nbr st.closed_imports)) [
    | inl closed ↦ rw closed v
    | inr not_closed ↦ elim (Option-cases (find_session nbr_of nbr st.import_sessions)) [
      | inr (session, s) ↦ rw (not_closed, s) v
      | inl n ↦ elim (Option-cases (find_session nbr_of nbr st.dead_imports)) [
        | inr (dead, d) ↦ rw (not_closed, n, d) v
        | inl d ↦ elim (Bool-cases (ltb (length st.import_sessions) st.max_import_sessions)) [
          | inr full ↦ rw (not_closed, n, d, full) v
          | inl room ↦
              rw (not_closed, n, d, room)
                (admitted-IsPartitioned nbr h (no_notes nbr u32 st.closed_imports v.0.0 not_closed)
                  (find_none nbr_of nbr st.import_sessions n)
                  (find_none nbr_of nbr st.dead_imports d) v)
        ]
      ]
    ]
  ]

module _ (link : Link) where
  pub step-IsPartitioned :
      (t : ℕ) (st st' : Importer) → Step link t st st' → IsPartitioned st → IsPartitioned st'
  step-IsPartitioned t st _ (red_segment nbr h) v = admit-IsPartitioned link t st nbr h v
  step-IsPartitioned t st _ (cancel session reason_code e) v =
      NoMore-IsPartitioned link t st (cancel_session_by_receiver session reason_code st)
        (cancel-NoMore link t u32 st v.0 session reason_code e) v
  step-IsPartitioned t st _ (close session e) v =
      NoMore-IsPartitioned link t st (close_import_session link t session st)
        (close-NoMore link t u32 st v.0 session e) v
  step-IsPartitioned t st _ (cs is_receiving nbr reason_code) v =
      NoMore-IsPartitioned link t st (handle_cs link t is_receiving nbr reason_code st)
        (cs-NoMore link t st is_receiving nbr reason_code v.0) v
  step-IsPartitioned t st _ (car is_receiving nbr) v =
      NoMore-IsPartitioned link t st (handle_car link t is_receiving nbr st)
        (car-NoMore link t st is_receiving nbr v.0) v
  step-IsPartitioned t st _ (cancel_timeout nbr) v =
      NoMore-IsPartitioned link t st (ltp_resend_recv_cancel link t nbr st)
        (timeout-NoMore link t u32 st v.0 nbr) v
  step-IsPartitioned t st _ (report_timeout nbr serial) v =
      NoMore-IsPartitioned link t st (ltp_resend_report link.max_timeouts nbr serial st)
        (report_timeout-NoMore link t u32 st v.0 nbr serial) v
  step-IsPartitioned t st _ (cancel_sent current_sec n nbr has_session) v =
      NoMore-IsPartitioned link t st (start_recv_cancel_timer link current_sec n has_session nbr st)
        (cancel_sent-NoMore link t u32 st v.0 current_sec n nbr has_session) v
  step-IsPartitioned t st _ (note_timeout nbr) v =
      NoMore-IsPartitioned link t st (forget_import_session nbr st)
        (forget-NoMore link t u32 st v.0 nbr) v

  -- At a receiver that has started with no sessions, each number belongs to one import session at
  -- most, and this session is either active or canceled or noted as closed, whatever segments have
  -- come and whatever has been canceled, closed, timed out or forgotten; the notes of closed sessions
  -- are in order.
  pub imports-IsPartitioned : (st : Importer) → Reachable link st → IsPartitioned st
  imports-IsPartitioned st (empty _ a d c) =
      rw (a, d, c) ((tt, λ nbr p. absurd (omega arith)), λ nbr. omega arith)
  imports-IsPartitioned st' (step t st _ before s) =
      step-IsPartitioned t st st' s (imports-IsPartitioned st before)
