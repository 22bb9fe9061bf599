-- ===== src/Cancel/Receiver/Changes.antt =====
-- No operation of the receiver but the start of a session adds to the occurrences of a number.
use mini_ltp.Prelude.{
  ℕ, ◌+◌, ◌≤◌, ◌<◌, ◌≡◌, refl, ap, ◌∙◌, List, Bool, true, Option, none, [], ◌∷◌, false, ◌==◌,
  if◌then◌else◌, arith, some, Bool-cases, Option-cases, inl, inr,
}
use mini_ltp.Timeline.{Link}
use mini_ltp.Closing.{note_closed_import, session_is_closed}
use mini_ltp.Closing.Order.{Falling, note_closed_import-Falling}
use mini_ltp.Cancel.Lists.Occurs.{
  occurs, occurs-append, occurs-delete_session, occurs-write_session, find_some,
}
use mini_ltp.Cancel.Lists.{find_session}
use mini_ltp.Cancel.Receiver.Resend.{
  resend_rpt, resend_rpt_in_session, ltp_resend_report, start_timer_of, start_recv_cancel_timer,
}
use mini_ltp.Cancel.Receiver.{
  SentRpt, ImportEntry, Importer, nbr_of, get_import_session, get_canceled_import,
  stop_import_session, note_closed, close_import_session, import_canceled, stopped_for,
  cancel_session_by_receiver, bury, resend_cancel, ltp_resend_recv_cancel, delete_note,
  forget_import_session,
}

abbrev pub notes : ℕ → List ℕ → ℕ
notes nbr [] = 0
notes nbr (closed ∷ nbrs) = (if closed == nbr then 1 else 0) + notes nbr nbrs

notes-note_closed_import :
    (m nbr : ℕ) (nbrs : List ℕ)
    → notes m (note_closed_import nbr nbrs) ≡ (if nbr == m then 1 else 0) + notes m nbrs
unfolding note_closed_import
notes-note_closed_import m nbr [] = omega arith
notes-note_closed_import m nbr (closed ∷ nbrs) = ground (arith, notes-note_closed_import m nbr nbrs)

notes-delete_note : (m nbr : ℕ) (nbrs : List ℕ) → notes m (delete_note nbr nbrs) ≤ notes m nbrs
unfolding delete_note
notes-delete_note m nbr [] = omega arith
notes-delete_note m nbr (closed ∷ nbrs) = ground (arith, notes-delete_note m nbr nbrs)

Falling-up : (low top : ℕ) (nbrs : List ℕ) → low ≤ top → Falling low nbrs → Falling top nbrs
Falling-up low top [] h f = tt
Falling-up low top (closed ∷ nbrs) h (a, f) = (omega arith, f)

delete_note-Falling :
    (nbr top : ℕ) (nbrs : List ℕ) → Falling top nbrs → Falling top (delete_note nbr nbrs)
unfolding delete_note
delete_note-Falling nbr top [] f = tt
delete_note-Falling nbr top (closed ∷ nbrs) (a, f) = elim (Bool-cases (closed == nbr)) [
  | inl same ↦ rw same (Falling-up closed top nbrs a f)
  | inr other ↦ rw other (a, delete_note-Falling nbr closed nbrs f)
]

notes_above : (nbr top : ℕ) (nbrs : List ℕ) → Falling top nbrs → top < nbr → notes nbr nbrs ≡ 0
notes_above nbr top [] f h = refl
notes_above nbr top (closed ∷ nbrs) (a, f) h = ground (arith, notes_above nbr closed nbrs f)

pub no_notes :
    (nbr top : ℕ) (nbrs : List ℕ)
    → Falling top nbrs
    → session_is_closed nbr nbrs ≡ false
    → notes nbr nbrs ≡ 0
unfolding session_is_closed
no_notes nbr top [] f e = refl
no_notes nbr top (closed ∷ nbrs) (a, f) e =
    ground (arith, no_notes nbr closed nbrs f, notes_above nbr closed nbrs f)

abbrev pub count : ℕ → Importer → ℕ
count nbr st =
    occurs nbr_of nbr st.import_sessions
    + occurs nbr_of nbr st.dead_imports
    + notes nbr st.closed_imports

-- Numbers are at most `top`, and the notes are in order.
abbrev pub IsBounded : ℕ → Importer → Type 0
IsBounded top st = Falling top st.closed_imports × ((nbr : ℕ) → 0 < count nbr st → nbr ≤ top)

abbrev pub NoMore : ℕ → Importer → Importer → Type 0
NoMore top st st' = Falling top st'.closed_imports × ((nbr : ℕ) → count nbr st' ≤ count nbr st)

module _ (link : Link) (current_time top : ℕ) (st : Importer) (b : IsBounded top st) where
  pub unchanged-NoMore : NoMore top st st
  unchanged-NoMore = (b.0, λ m. omega arith)

  active_count :
      (session : ImportEntry)
      → get_import_session session.session_nbr st ≡ some session
      → (0 < occurs nbr_of session.session_nbr st.import_sessions) × (session.session_nbr ≤ top)
  unfolding get_import_session
  active_count session e =
      let (cited, there) = find_some nbr_of session.session_nbr st.import_sessions session e in
      (there, b.1 session.session_nbr (omega arith))

  dead_count :
      (nbr : ℕ) (dead : ImportEntry)
      → get_canceled_import nbr st ≡ some dead
      → (nbr_of dead ≡ nbr) × (0 < occurs nbr_of nbr st.dead_imports) × (nbr ≤ top)
  unfolding get_canceled_import
  dead_count nbr dead e =
      let (cited, there) = find_some nbr_of nbr st.dead_imports dead e in
      (cited, there, b.1 nbr (omega arith))

  pub cancel-NoMore :
      (session : ImportEntry) (reason_code : ℕ)
      → get_import_session session.session_nbr st ≡ some session
      → NoMore top st (cancel_session_by_receiver session reason_code st)
  unfolding cancel_session_by_receiver stop_import_session import_canceled
  cancel-NoMore session reason_code e = (
    b.0,
    λ m. ground (
      arith,
      occurs-append nbr_of m st.dead_imports (stopped_for reason_code session ∷ []),
      occurs-delete_session nbr_of m session.session_nbr st.import_sessions,
      active_count session e,
    ),
  )

  pub close-NoMore :
      (session : ImportEntry)
      → get_import_session session.session_nbr st ≡ some session
      → NoMore top st (close_import_session link current_time session st)
  unfolding close_import_session note_closed
  close-NoMore session e =
      let (there, low) = active_count session e in
      (
        note_closed_import-Falling session.session_nbr top st.closed_imports low b.0,
        λ m. ground (
          arith,
          occurs-delete_session nbr_of m session.session_nbr st.import_sessions,
          notes-note_closed_import m session.session_nbr st.closed_imports,
        ),
      )

  pub bury-NoMore :
      (nbr : ℕ) (dead : ImportEntry)
      → get_canceled_import nbr st ≡ some dead
      → NoMore top st (bury link current_time nbr st)
  unfolding bury note_closed
  bury-NoMore nbr dead e =
      let (cited, there, low) = dead_count nbr dead e in
      (
        note_closed_import-Falling nbr top st.closed_imports low b.0,
        λ m. ground (
          arith,
          occurs-delete_session nbr_of m nbr st.dead_imports,
          notes-note_closed_import m nbr st.closed_imports,
        ),
      )

  pub timeout-NoMore : (nbr : ℕ) → NoMore top st (ltp_resend_recv_cancel link current_time nbr st)
  unfolding ltp_resend_recv_cancel resend_cancel
  timeout-NoMore nbr = elim (Option-cases (get_canceled_import nbr st)) [
    | inl n ↦ rw n unchanged-NoMore
    | inr (dead, d) ↦ elim (Bool-cases (dead.timer.expiration_count == link.max_timeouts)) [
      | inl last ↦ rw (d, last) (bury-NoMore nbr dead d)
      | inr more ↦
          rw (d, more)
            (
              b.0,
              λ m. omega (
                arith,
                occurs-write_session nbr_of m nbr _ st.dead_imports (dead_count nbr dead d).0,
              ),
            )
    ]
  ]

  pub forget-NoMore : (nbr : ℕ) → NoMore top st (forget_import_session nbr st)
  unfolding forget_import_session
  forget-NoMore nbr = (
    delete_note-Falling nbr top st.closed_imports b.0,
    λ m. omega (arith, notes-delete_note m nbr st.closed_imports),
  )

  resend_rpt-NoMore :
      (max_timeouts : ℕ) (session : ImportEntry) (o : Option SentRpt)
      → get_import_session session.session_nbr st ≡ some session
      → NoMore top st (resend_rpt max_timeouts session o st)
  unfolding resend_rpt
  resend_rpt-NoMore max_timeouts session none e = unchanged-NoMore
  resend_rpt-NoMore max_timeouts session (some rpt) e =
      elim (Bool-cases (rpt.timer.seg_arrival_time == 0)) [
        | inl acked ↦ rw acked unchanged-NoMore
        | inr waiting ↦ elim (Bool-cases (rpt.timer.expiration_count == max_timeouts)) [
          | inl last ↦ rw (waiting, last) (cancel-NoMore session _ e)
          | inr more ↦
              rw (waiting, more)
                (
                  b.0,
                  λ m. omega (
                    arith,
                    occurs-write_session nbr_of m session.session_nbr _ st.import_sessions refl,
                  ),
                )
        ]
      ]

  pub report_timeout-NoMore :
      (nbr serial : ℕ) → NoMore top st (ltp_resend_report link.max_timeouts nbr serial st)
  unfolding ltp_resend_report resend_rpt_in_session get_import_session
  report_timeout-NoMore nbr serial =
      elim (Option-cases (find_session nbr_of nbr st.import_sessions)) [
        | inl n ↦ rw n unchanged-NoMore
        | inr (session, s) ↦
            let cited : session.session_nbr ≡ nbr =
              (find_some nbr_of nbr st.import_sessions session s).0 in
            rw s (
              resend_rpt-NoMore link.max_timeouts session _
                (ap (λ k. find_session nbr_of k st.import_sessions) cited ∙ s))
      ]

  pub cancel_sent-NoMore :
      (current_sec length nbr : ℕ) (has_session : Bool)
      → NoMore top st (start_recv_cancel_timer link current_sec length has_session nbr st)
  unfolding start_recv_cancel_timer start_timer_of
  cancel_sent-NoMore current_sec length nbr false = unchanged-NoMore
  cancel_sent-NoMore current_sec length nbr true =
      elim (Option-cases (get_canceled_import nbr st)) [
        | inl n ↦ rw n unchanged-NoMore
        | inr (dead, d) ↦ rw d (
          b.0,
          λ m. omega (
            arith,
            occurs-write_session nbr_of m nbr _ st.dead_imports (dead_count nbr dead d).0,
          ),
        )
      ]
