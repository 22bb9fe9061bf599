-- ===== src/Cancel/Sender/Changes.antt =====
-- No operation of the sender duplicates a session.
use mini_ltp.Prelude.{
  ℕ, ◌+◌, ◌≤◌, ◌<◌, ◌≡◌, refl, ap, ◌∙◌, [], ◌∷◌, Bool, ◌==◌, arith, Option, none, some, Bool-cases,
  Option-cases, inl, inr,
}
use mini_ltp.Timeline.{Link}
use mini_ltp.Cancel.Lists.{find_session}
use mini_ltp.Cancel.Lists.Occurs.{
  occurs, occurs-append, occurs-delete_session, occurs-write_session, find_some,
}
use mini_ltp.Cancel.Sender.{
  SentCkpt, ExportEntry, Exporter, nbr_of, get_export_session, get_canceled_export,
  stop_export_session, enqueue_notices, cancel_session_by_sender, close_export_session,
  get_session_context, apply_cancel_ack, cas_in_context, handle_cas, cr_in_context, handle_cr,
  resend_cancel, ltp_resend_xmit_cancel, start_cancel_timer, cleared,
}
use mini_ltp.Cancel.Sender.Resend.{resend_ckpt, resend_in_session, ltp_resend_checkpoint}

-- How the number of occurrences changes.
abbrev pub count : ℕ → Exporter → ℕ
count nbr st = occurs nbr_of nbr st.export_sessions + occurs nbr_of nbr st.dead_exports

-- No number occurs more often than before.
abbrev pub NoMore : Exporter → Exporter → Type 0
NoMore st st' = (st'.session_count ≡ st.session_count) × ((nbr : ℕ) → count nbr st' ≤ count nbr st)

found_count :
    (session : ExportEntry) (st : Exporter)
    → get_export_session session.session_nbr st ≡ some session
    → 0 < occurs nbr_of session.session_nbr st.export_sessions
unfolding get_export_session
found_count session st e = (find_some nbr_of session.session_nbr st.export_sessions session e).1

pub cancel-NoMore :
    (session : ExportEntry) (reason_code : ℕ) (st : Exporter)
    → get_export_session session.session_nbr st ≡ some session
    → NoMore st (cancel_session_by_sender session reason_code st)
unfolding cancel_session_by_sender stop_export_session enqueue_notices cleared
cancel-NoMore session reason_code st e = (
  refl,
  λ nbr. ground (
    arith,
    occurs-append nbr_of nbr st.dead_exports (cleared reason_code session ∷ []),
    occurs-delete_session nbr_of nbr session.session_nbr st.export_sessions,
    found_count session st e,
  ),
)

pub close-NoMore :
    (session : ExportEntry) (st : Exporter) → NoMore st (close_export_session session st)
unfolding close_export_session enqueue_notices
close-NoMore session st = (
  refl,
  λ nbr. ground (arith, occurs-delete_session nbr_of nbr session.session_nbr st.export_sessions),
)

pub cas-NoMore :
    (is_receiving : Bool) (nbr : ℕ) (st : Exporter) → NoMore st (handle_cas is_receiving nbr st)
unfolding handle_cas cas_in_context apply_cancel_ack
cas-NoMore is_receiving nbr st = elim (Option-cases (get_session_context is_receiving nbr st)) [
  | inl n ↦ rw n (refl, λ m. omega arith)
  | inr (session, s) ↦ elim (Option-cases (get_canceled_export nbr st)) [
    | inl n ↦ rw (s, n) (refl, λ m. omega arith)
    | inr (dead, d) ↦
        rw (s, d) (refl, λ m. ground (arith, occurs-delete_session nbr_of m nbr st.dead_exports))
  ]
]

pub cr-NoMore :
    (is_receiving : Bool) (nbr reason_code : ℕ) (st : Exporter)
    → NoMore st (handle_cr is_receiving nbr reason_code st)
unfolding handle_cr cr_in_context enqueue_notices stop_export_session close_export_session
cr-NoMore is_receiving nbr reason_code st =
    elim (Option-cases (get_session_context is_receiving nbr st)) [
      | inl n ↦ rw n (refl, λ m. omega arith)
      | inr (session, s) ↦ rw s (
        refl,
        λ m. ground (arith, occurs-delete_session nbr_of m session.session_nbr st.export_sessions),
      )
    ]

pub cancel_timeout-NoMore :
    (max_timeouts nbr : ℕ) (st : Exporter) → NoMore st (ltp_resend_xmit_cancel max_timeouts nbr st)
unfolding ltp_resend_xmit_cancel resend_cancel get_canceled_export
cancel_timeout-NoMore max_timeouts nbr st =
    elim (Option-cases (find_session nbr_of nbr st.dead_exports)) [
      | inl n ↦ rw n (refl, λ m. omega arith)
      | inr (dead, d) ↦
          let cited : nbr_of dead ≡ nbr = (find_some nbr_of nbr st.dead_exports dead d).0 in
          elim (Bool-cases (dead.timer.expiration_count == max_timeouts)) [
            | inl last ↦
                rw (d, last)
                  (refl, λ m. ground (arith, occurs-delete_session nbr_of m nbr st.dead_exports))
            | inr more ↦
                rw (d, more)
                  (
                    refl,
                    λ m. omega (arith, occurs-write_session nbr_of m nbr _ st.dead_exports cited),
                  )
          ]
    ]

resend_ckpt-NoMore :
    (max_timeouts : ℕ) (session : ExportEntry) (o : Option SentCkpt) (st : Exporter)
    → get_export_session session.session_nbr st ≡ some session
    → NoMore st (resend_ckpt max_timeouts session o st)
unfolding resend_ckpt
resend_ckpt-NoMore max_timeouts session none st e = (refl, λ m. omega arith)
resend_ckpt-NoMore max_timeouts session (some ckpt) st e =
    elim (Bool-cases (ckpt.timer.seg_arrival_time == 0)) [
      | inl acked ↦ rw acked (refl, λ m. omega arith)
      | inr waiting ↦ elim (Bool-cases (ckpt.timer.expiration_count == max_timeouts)) [
        | inl last ↦ rw (waiting, last) (cancel-NoMore session _ st e)
        | inr more ↦
            rw (waiting, more)
              (
                refl,
                λ m. omega (
                  arith,
                  occurs-write_session nbr_of m session.session_nbr _ st.export_sessions refl,
                ),
              )
      ]
    ]

pub checkpoint_timeout-NoMore :
    (max_timeouts nbr serial : ℕ) (st : Exporter)
    → NoMore st (ltp_resend_checkpoint max_timeouts nbr serial st)
unfolding ltp_resend_checkpoint resend_in_session get_export_session
checkpoint_timeout-NoMore max_timeouts nbr serial st =
    elim (Option-cases (find_session nbr_of nbr st.export_sessions)) [
      | inl n ↦ rw n (refl, λ m. omega arith)
      | inr (session, s) ↦
          let cited : session.session_nbr ≡ nbr =
            (find_some nbr_of nbr st.export_sessions session s).0 in
          rw s (
            resend_ckpt-NoMore max_timeouts session _ st
              (ap (λ k. find_session nbr_of k st.export_sessions) cited ∙ s))
    ]

pub cancel_sent-NoMore :
    (link : Link) (current_sec length nbr : ℕ) (st : Exporter)
    → NoMore st (start_cancel_timer link current_sec length nbr (get_canceled_export nbr st) st)
unfolding start_cancel_timer get_canceled_export
cancel_sent-NoMore link current_sec length nbr st =
    elim (Option-cases (find_session nbr_of nbr st.dead_exports)) [
      | inl n ↦ rw n (refl, λ m. omega arith)
      | inr (dead, d) ↦
          let cited : nbr_of dead ≡ nbr = (find_some nbr_of nbr st.dead_exports dead d).0 in
          rw d (refl, λ m. omega (arith, occurs-write_session nbr_of m nbr _ st.dead_exports cited))
    ]
