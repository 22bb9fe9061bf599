-- ===== src/Cancel/Sender/Unanswered.antt =====
-- A session whose checkpoint is never acknowledged.
use mini_ltp.Prelude.{
  ℕ, zero, suc, ◌+◌, ◌<◌, ◌≡◌, refl, ap, ◌∙◌, List, [], ◌∷◌, ◌++◌, true, false, ltb, ◌==◌, arith,
  none, some, Bool-cases, Option-cases, inl, inr,
}
use mini_ltp.Timeline.{Link}
use mini_ltp.Cancel.{ltp_retransmit_limit_exceeded}
use mini_ltp.Cancel.Lists.Occurs.{find_written}
use mini_ltp.Cancel.Sender.{
  SentCkpt, ExportEntry, Exporter, nbr_of, get_export_session, get_canceled_export, cleared,
  cancel_session_by_sender, resend_cancel, ltp_resend_xmit_cancel,
}
use mini_ltp.Cancel.Sender.Resend.{
  find_sent_ckpt, write_ckpt, sent_again, resend_ckpt, resend_in_session, ltp_resend_checkpoint,
}
use mini_ltp.Cancel.Sender.Partition.{IsPartitioned, Step, step-IsPartitioned}
use mini_ltp.Cancel.Sender.Canceled.{IsCanceled, notices_of, cancel_session_by_sender-IsCanceled}
use mini_ltp.Cancel.Sender.Retries.{run_out, run_out-none}

-- The timer of the checkpoint runs out `times` times, and no report comes.
abbrev pub checkpoint_runs_out : ℕ → ℕ → ℕ → ℕ → Exporter → Exporter
checkpoint_runs_out zero max_timeouts nbr serial st = st
checkpoint_runs_out (suc times) max_timeouts nbr serial st =
    checkpoint_runs_out times max_timeouts nbr serial
      (ltp_resend_checkpoint max_timeouts nbr serial st)

ckpt_cited :
    (serial : ℕ) (ckpts : List SentCkpt) (ckpt : SentCkpt)
    → find_sent_ckpt serial ckpts ≡ some ckpt
    → ckpt.segment.serial_nbr ≡ serial
unfolding find_sent_ckpt
ckpt_cited serial [] ckpt f = absurd (cc f)
ckpt_cited serial (x ∷ ckpts) ckpt f = elim (Bool-cases (ltb x.segment.serial_nbr serial)) [
  | inl before ↦ ckpt_cited serial ckpts ckpt (rw before at f)
  | inr behind ↦ elim (Bool-cases (x.segment.serial_nbr == serial)) [
    | inl same ↦
        let found : some x ≡ some ckpt = rw (behind, same) at f in
        let eq : x ≡ ckpt = cc found in
        let cited : x.segment.serial_nbr ≡ serial = ground arith in rw eq at cited
    | inr other ↦ absurd (cc (rw (behind, other) at f))
  ]
]

module _ (serial : ℕ) (new : SentCkpt) (cited : new.segment.serial_nbr ≡ serial) where
  find_sent_ckpt-write_ckpt :
      (ckpts : List SentCkpt) (ckpt : SentCkpt)
      → find_sent_ckpt serial ckpts ≡ some ckpt
      → find_sent_ckpt serial (write_ckpt new ckpts) ≡ some new
  unfolding find_sent_ckpt write_ckpt
  find_sent_ckpt-write_ckpt [] ckpt f = absurd (cc f)
  find_sent_ckpt-write_ckpt (x ∷ ckpts) ckpt f =
      elim (Bool-cases (ltb x.segment.serial_nbr serial)) [
        | inl before ↦
            let other : (x.segment.serial_nbr == new.segment.serial_nbr) ≡ false = ground arith in
            rw (other, before) (find_sent_ckpt-write_ckpt ckpts ckpt (rw before at f))
        | inr behind ↦ elim (Bool-cases (x.segment.serial_nbr == serial)) [
          | inl same ↦
              let at_new : (x.segment.serial_nbr == new.segment.serial_nbr) ≡ true = ground arith in
              let not_before : ltb new.segment.serial_nbr serial ≡ false = ground arith in
              let found : (new.segment.serial_nbr == serial) ≡ true = ground arith in
              rw (at_new, not_before, found)
          | inr other ↦ absurd (cc (rw (behind, other) at f))
        ]
      ]

module _ (link : Link) (serial : ℕ) where
  abbrev waiting : ExportEntry → SentCkpt → ExportEntry
  waiting session ckpt = record session {
    checkpoints = write_ckpt (sent_again ckpt) session.checkpoints;
  }

  abbrev timeout : ℕ → Exporter → Exporter
  timeout nbr st = ltp_resend_checkpoint link.max_timeouts nbr serial st

  resent :
      (st : Exporter) (session : ExportEntry) (ckpt : SentCkpt)
      → get_export_session session.session_nbr st ≡ some session
      → find_sent_ckpt serial session.checkpoints ≡ some ckpt
      → 0 < ckpt.timer.seg_arrival_time
      → ckpt.timer.expiration_count < link.max_timeouts
      → (get_export_session session.session_nbr (timeout session.session_nbr st)
          ≡ some (waiting session ckpt))
        × (find_sent_ckpt serial (waiting session ckpt).checkpoints ≡ some (sent_again ckpt))
        × ((timeout session.session_nbr st).notices ≡ st.notices)
  unfolding ltp_resend_checkpoint resend_in_session resend_ckpt get_export_session
  resent st session ckpt e f p h =
      let sent : (ckpt.timer.seg_arrival_time == 0) ≡ false = ground arith in
      let more : (ckpt.timer.expiration_count == link.max_timeouts) ≡ false = ground arith in
      rw (e, f, sent, more)
        (
          find_written nbr_of session.session_nbr st.export_sessions session _ e refl,
          find_sent_ckpt-write_ckpt serial (sent_again ckpt)
              (ckpt_cited serial session.checkpoints ckpt f) session.checkpoints ckpt f,
          refl,
        )

  given_up :
      (st : Exporter) (session : ExportEntry) (ckpt : SentCkpt)
      → get_export_session session.session_nbr st ≡ some session
      → find_sent_ckpt serial session.checkpoints ≡ some ckpt
      → 0 < ckpt.timer.seg_arrival_time
      → ckpt.timer.expiration_count ≡ link.max_timeouts
      → timeout session.session_nbr st
        ≡ cancel_session_by_sender session ltp_retransmit_limit_exceeded st
  unfolding ltp_resend_checkpoint resend_in_session resend_ckpt
  given_up st session ckpt e f p h =
      let sent : (ckpt.timer.seg_arrival_time == 0) ≡ false = ground arith in
      let last : (ckpt.timer.expiration_count == link.max_timeouts) ≡ true = ground arith in
      rw (e, f, sent, last)

  checkpoint_runs_out-IsCanceled :
      (times : ℕ) (st : Exporter) (session : ExportEntry) (ckpt : SentCkpt)
      → IsPartitioned st
      → get_export_session session.session_nbr st ≡ some session
      → find_sent_ckpt serial session.checkpoints ≡ some ckpt
      → 0 < ckpt.timer.seg_arrival_time
      → ckpt.timer.expiration_count + times ≡ link.max_timeouts
      → IsPartitioned
          (checkpoint_runs_out (suc times) link.max_timeouts session.session_nbr serial st)
        × IsCanceled st session ltp_retransmit_limit_exceeded
            (checkpoint_runs_out (suc times) link.max_timeouts session.session_nbr serial st)
  unfolding cleared
  checkpoint_runs_out-IsCanceled zero st session ckpt v e f p h =
      let nbr : ℕ = session.session_nbr in
      let w : IsPartitioned (timeout nbr st) =
        step-IsPartitioned link st (timeout nbr st) (Step.checkpoint_timeout nbr serial) v in
      let end : IsCanceled st session ltp_retransmit_limit_exceeded (timeout nbr st) =
        rw (given_up st session ckpt e f p (omega arith))
          (cancel_session_by_sender-IsCanceled st session v ltp_retransmit_limit_exceeded e) in
      (w, end)
  checkpoint_runs_out-IsCanceled (suc times) st session ckpt v e f p h =
      let nbr : ℕ = session.session_nbr in
      let (found, found_ckpt, same) = resent st session ckpt e f p (omega arith) in
      let w : IsPartitioned (timeout nbr st) =
        step-IsPartitioned link st (timeout nbr st) (Step.checkpoint_timeout nbr serial) v in
      let (u, end) =
        checkpoint_runs_out-IsCanceled times (timeout nbr st) (waiting session ckpt)
          (sent_again ckpt) w found found_ckpt p (omega arith) in
      let (gone, dead, noted, cs, no_data) = end in
      let told = noted ∙ ap (λ l. l ++ notices_of session ltp_retransmit_limit_exceeded) same in
      (u, (gone, dead, told, cs, no_data))

module _ (max_timeouts nbr : ℕ) where
  same_active :
      (st : Exporter)
      → get_export_session nbr (ltp_resend_xmit_cancel max_timeouts nbr st)
        ≡ get_export_session nbr st
  unfolding ltp_resend_xmit_cancel resend_cancel get_export_session
  same_active st = elim (Option-cases (get_canceled_export nbr st)) [
    | inl n ↦ rw n
    | inr (dead, d) ↦ elim (Bool-cases (dead.timer.expiration_count == max_timeouts)) [
      | inl last ↦ rw (d, last)
      | inr more ↦ rw (d, more)
    ]
  ]

  not_active :
      (times : ℕ) (st : Exporter)
      → get_export_session nbr st ≡ none
      → get_export_session nbr (run_out times max_timeouts nbr st) ≡ none
  not_active zero st e = e
  not_active (suc times) st e =
      not_active times (ltp_resend_xmit_cancel max_timeouts nbr st) (same_active st ∙ e)

-- The link is lost for good while an active export session has a checkpoint that has been sent and
-- has timed out no more often than the limit, and the timer for its cancellation has not run. After
-- the timeouts that are left for the checkpoint and one more, the sender has canceled the session,
-- with a notice for each service data unit; after as many timeouts of the cancellation as the limit
-- and one more, no session has the number any more, active or canceled.
pub run_out-ends :
    (link : Link) (serial times : ℕ) (st : Exporter) (session : ExportEntry) (ckpt : SentCkpt)
    → IsPartitioned st
    → get_export_session session.session_nbr st ≡ some session
    → find_sent_ckpt serial session.checkpoints ≡ some ckpt
    → 0 < ckpt.timer.seg_arrival_time
    → ckpt.timer.expiration_count + times ≡ link.max_timeouts
    → session.timer.expiration_count ≡ 0
    → IsCanceled st session ltp_retransmit_limit_exceeded
        (checkpoint_runs_out (suc times) link.max_timeouts session.session_nbr serial st)
      × (get_export_session session.session_nbr (
            run_out
              (suc link.max_timeouts)
              link.max_timeouts
              session.session_nbr
              (checkpoint_runs_out (suc times) link.max_timeouts session.session_nbr serial st))
          ≡ none)
      × (get_canceled_export session.session_nbr (
            run_out
              (suc link.max_timeouts)
              link.max_timeouts
              session.session_nbr
              (checkpoint_runs_out (suc times) link.max_timeouts session.session_nbr serial st))
          ≡ none)
unfolding cleared
run_out-ends link serial times st session ckpt v e f p h fresh =
    let nbr : ℕ = session.session_nbr in
    let (w, end) = checkpoint_runs_out-IsCanceled link serial times st session ckpt v e f p h in
    let (gone, dead, noted, cs, no_data) = end in
    (
      end,
      not_active link.max_timeouts nbr (suc link.max_timeouts) _ gone,
      (run_out-none link.max_timeouts nbr _ (cleared ltp_retransmit_limit_exceeded session)
          link.max_timeouts w dead (omega arith)).0,
    )
