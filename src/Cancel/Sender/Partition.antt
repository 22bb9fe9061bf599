-- ===== src/Cancel/Sender/Partition.antt =====
-- An export session is active or canceled, never both, whatever happens.
use mini_ltp.Prelude.{ℕ, ◌+◌, ◌%◌, ◌≤◌, ◌<◌, ◌≡◌, [], ◌∷◌, ◌++◌, Bool, arith, some}
use mini_ltp.Sdnv.{u32}
use mini_ltp.Timeline.{Link}
use mini_ltp.Cancel.Lists.Occurs.{occurs, occurs-append}
use mini_ltp.Cancel.Sender.{
  ExportEntry, Exporter, nbr_of, get_export_session, get_canceled_export, cancel_session_by_sender,
  close_export_session, handle_cas, handle_cr, ltp_resend_xmit_cancel, start_cancel_timer,
}
use mini_ltp.Cancel.Sender.Resend.{new_session, start_export_session, ltp_resend_checkpoint}
use mini_ltp.Cancel.Sender.Changes.{
  NoMore, cancel-NoMore, close-NoMore, cas-NoMore, cr-NoMore, cancel_timeout-NoMore,
  checkpoint_timeout-NoMore, cancel_sent-NoMore,
}

-- Each number stands in one of the two lists, once, and none has been given out yet that is greater
-- than the count.
abbrev pub IsPartitioned : Exporter → Type 0
IsPartitioned st =
    (nbr : ℕ)
    → (occurs nbr_of nbr st.export_sessions + occurs nbr_of nbr st.dead_exports ≤ 1)
      × (0 < occurs nbr_of nbr st.export_sessions + occurs nbr_of nbr st.dead_exports
          → nbr ≤ st.session_count)

-- What can happen at the sender.
pub data Step (link : Link) (st : Exporter) : Exporter → Type 0 where
  start : st.session_count + 1 < u32 → Step link st (start_export_session st)
  cancel :
      (session : ExportEntry) (reason_code : ℕ)
      → get_export_session session.session_nbr st ≡ some session
      → Step link st (cancel_session_by_sender session reason_code st)
  close :
      (session : ExportEntry)
      → get_export_session session.session_nbr st ≡ some session
      → Step link st (close_export_session session st)
  cas : (is_receiving : Bool) (nbr : ℕ) → Step link st (handle_cas is_receiving nbr st)
  cr :
      (is_receiving : Bool) (nbr reason_code : ℕ)
      → Step link st (handle_cr is_receiving nbr reason_code st)
  cancel_timeout : (nbr : ℕ) → Step link st (ltp_resend_xmit_cancel link.max_timeouts nbr st)
  checkpoint_timeout :
      (nbr serial : ℕ) → Step link st (ltp_resend_checkpoint link.max_timeouts nbr serial st)
  cancel_sent :
      (current_sec length nbr : ℕ)
      → Step link st
          (start_cancel_timer link current_sec length nbr (get_canceled_export nbr st) st)

-- The states that are reached from a sender without sessions.
pub data Reachable (link : Link) : Exporter → Type 0 where
  empty : (st : Exporter) → st.export_sessions ≡ [] → st.dead_exports ≡ [] → Reachable link st
  step : (st st' : Exporter) → Reachable link st → Step link st st' → Reachable link st'

NoMore-IsPartitioned : (st st' : Exporter) → NoMore st st' → IsPartitioned st → IsPartitioned st'
NoMore-IsPartitioned st st' (c, f) v nbr =
    (omega (arith, f nbr, (v nbr).0), λ p. omega (arith, c, (v nbr).1 (omega (arith, f nbr))))

start-IsPartitioned :
    (st : Exporter)
    → st.session_count + 1 < u32
    → IsPartitioned st
    → IsPartitioned (start_export_session st)
unfolding start_export_session
start-IsPartitioned st h v nbr =
    let (once, old) = v nbr in
    let small : (st.session_count + 1) % u32 ≡ st.session_count + 1 = omega arith in
    let added : occurs nbr_of nbr (st.export_sessions ++ new_session (st.session_count + 1) ∷ [])
        ≡ occurs nbr_of nbr st.export_sessions
          + occurs nbr_of nbr (new_session (st.session_count + 1) ∷ []) =
      occurs-append nbr_of nbr st.export_sessions (new_session (st.session_count + 1) ∷ []) in
    rw small (ground (arith, added), ground (arith, added))

module _ (link : Link) where
  pub step-IsPartitioned :
      (st st' : Exporter) → Step link st st' → IsPartitioned st → IsPartitioned st'
  step-IsPartitioned st _ (start h) v = start-IsPartitioned st h v
  step-IsPartitioned st _ (cancel session reason_code e) v =
      NoMore-IsPartitioned st (cancel_session_by_sender session reason_code st)
        (cancel-NoMore session reason_code st e) v
  step-IsPartitioned st _ (close session e) v =
      NoMore-IsPartitioned st (close_export_session session st) (close-NoMore session st) v
  step-IsPartitioned st _ (cas is_receiving nbr) v =
      NoMore-IsPartitioned st (handle_cas is_receiving nbr st) (cas-NoMore is_receiving nbr st) v
  step-IsPartitioned st _ (cr is_receiving nbr reason_code) v =
      NoMore-IsPartitioned st (handle_cr is_receiving nbr reason_code st)
        (cr-NoMore is_receiving nbr reason_code st) v
  step-IsPartitioned st _ (cancel_timeout nbr) v =
      NoMore-IsPartitioned st (ltp_resend_xmit_cancel link.max_timeouts nbr st)
        (cancel_timeout-NoMore link.max_timeouts nbr st) v
  step-IsPartitioned st _ (checkpoint_timeout nbr serial) v =
      NoMore-IsPartitioned st (ltp_resend_checkpoint link.max_timeouts nbr serial st)
        (checkpoint_timeout-NoMore link.max_timeouts nbr serial st) v
  step-IsPartitioned st _ (cancel_sent current_sec length nbr) v =
      NoMore-IsPartitioned st
        (start_cancel_timer link current_sec length nbr (get_canceled_export nbr st) st)
        (cancel_sent-NoMore link current_sec length nbr st) v

  -- At a sender that has started with no sessions and has not used up the session numbers, each
  -- number belongs to one export session at most, which is either active or canceled, and no session
  -- has a number that has not been given out: whatever sessions have been started, canceled, closed
  -- or timed out, and whatever cancellations or acknowledgments have come, with any numbers.
  pub exports-IsPartitioned : (st : Exporter) → Reachable link st → IsPartitioned st
  exports-IsPartitioned st (empty _ a d) = λ nbr. rw (a, d) (omega arith, λ p. absurd (omega arith))
  exports-IsPartitioned st' (step st _ before s) =
      step-IsPartitioned st st' s (exports-IsPartitioned st before)
