-- ===== src/Cancel/Sender/Retries.antt =====
-- How often a cancellation is sent again.
use mini_ltp.Prelude.{
  ℕ, zero, suc, ◌+◌, ◌≤◌, ◌<◌, ◌≡◌, refl, ◌==◌, arith, none, some, length, length-append, false,
  true,
}
use mini_ltp.Queue.{construct_source_cancel_req_segment}
use mini_ltp.Cancel.Lists.{delete_session}
use mini_ltp.Cancel.Lists.Occurs.{
  occurs, occurs-delete_session, occurs-write_session, find_some, find_written, absent_none,
}
use mini_ltp.Cancel.Sender.{
  ExportEntry, Exporter, nbr_of, get_canceled_export, expired_again, resend_cancel,
  ltp_resend_xmit_cancel,
}
use mini_ltp.Cancel.Sender.Partition.{IsPartitioned}

-- The timer of the cancellation runs out `times` times, and no acknowledgment comes.
abbrev pub run_out : ℕ → ℕ → ℕ → Exporter → Exporter
run_out zero max_timeouts nbr st = st
run_out (suc times) max_timeouts nbr st =
    run_out times max_timeouts nbr (ltp_resend_xmit_cancel max_timeouts nbr st)

module _ (max_timeouts nbr : ℕ) where
  resent :
      (st : Exporter) (dead : ExportEntry)
      → get_canceled_export nbr st ≡ some dead
      → dead.timer.expiration_count < max_timeouts
      → (get_canceled_export nbr (ltp_resend_xmit_cancel max_timeouts nbr st)
          ≡ some (expired_again dead))
        × (length (ltp_resend_xmit_cancel max_timeouts nbr st).segments ≡ length st.segments + 1)
        × ((m : ℕ)
            → occurs nbr_of m (ltp_resend_xmit_cancel max_timeouts nbr st).dead_exports
              ≡ occurs nbr_of m st.dead_exports)
  unfolding get_canceled_export ltp_resend_xmit_cancel resend_cancel
      construct_source_cancel_req_segment
  resent st dead e h =
      let more : (dead.timer.expiration_count == max_timeouts) ≡ false = ground arith in
      let cited : nbr_of dead ≡ nbr = (find_some nbr_of nbr st.dead_exports dead e).0 in
      rw (e, more)
        (
          find_written nbr_of nbr st.dead_exports dead (expired_again dead) e cited,
          length-append st.segments _,
          λ m. occurs-write_session nbr_of m nbr (expired_again dead) st.dead_exports cited,
        )

  given_up :
      (st : Exporter) (dead : ExportEntry)
      → get_canceled_export nbr st ≡ some dead
      → dead.timer.expiration_count ≡ max_timeouts
      → occurs nbr_of nbr st.dead_exports ≤ 1
      → (get_canceled_export nbr (ltp_resend_xmit_cancel max_timeouts nbr st) ≡ none)
        × ((ltp_resend_xmit_cancel max_timeouts nbr st).segments ≡ st.segments)
  unfolding get_canceled_export ltp_resend_xmit_cancel resend_cancel
  given_up st dead e h once =
      let last : (dead.timer.expiration_count == max_timeouts) ≡ true = ground arith in
      let gone : occurs nbr_of nbr (delete_session nbr_of nbr st.dead_exports) ≡ 0 =
        ground (arith, occurs-delete_session nbr_of nbr nbr st.dead_exports) in
      rw (e, last) (absent_none nbr_of nbr _ gone, refl)

  run_out_lem :
      (times : ℕ) (st : Exporter) (dead : ExportEntry)
      → get_canceled_export nbr st ≡ some dead
      → occurs nbr_of nbr st.dead_exports ≤ 1
      → dead.timer.expiration_count + times ≡ max_timeouts
      → (get_canceled_export nbr (run_out (suc times) max_timeouts nbr st) ≡ none)
        × (length (run_out (suc times) max_timeouts nbr st).segments ≡ length st.segments + times)
  run_out_lem zero st dead e once h =
      let (gone, same) = given_up st dead e (omega arith) once in (gone, rw same (omega arith))
  run_out_lem (suc times) st dead e once h =
      let (found, longer, kept) = resent st dead e (omega arith) in
      let (gone, all) =
        run_out_lem times (ltp_resend_xmit_cancel max_timeouts nbr st) (expired_again dead) found
          (omega (arith, kept nbr)) (omega arith) in
      (gone, omega (arith, all, longer))

  -- A session has been canceled, its cancellation has timed out no more often than the limit, and no
  -- acknowledgment comes. Each of the timeouts that are left queues the cancel segment once more, and
  -- the one after the limit removes the session without another segment.
  pub run_out-none :
      (st : Exporter) (dead : ExportEntry) (times : ℕ)
      → IsPartitioned st
      → get_canceled_export nbr st ≡ some dead
      → dead.timer.expiration_count + times ≡ max_timeouts
      → (get_canceled_export nbr (run_out (suc times) max_timeouts nbr st) ≡ none)
        × (length (run_out (suc times) max_timeouts nbr st).segments ≡ length st.segments + times)
  run_out-none st dead times v e h = run_out_lem times st dead e (omega (arith, (v nbr).0)) h
