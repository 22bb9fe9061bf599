-- ===== src/Cancel/Sender/Stranded.antt =====
-- A canceled session whose cancellation is acknowledged.
use mini_ltp.Prelude.{ℕ, ◌≡◌, refl, Bool, arith, none, some}
use mini_ltp.Timeline.{LtpEventType, cancel_event}
use mini_ltp.Cancel.Lists.{find_session}
use mini_ltp.Cancel.Lists.Occurs.{find_some, absent_none}
use mini_ltp.Cancel.Sender.{
  ExportEntry, Exporter, nbr_of, get_export_session, get_canceled_export, get_session_context,
  cas_in_context, handle_cas,
}
use mini_ltp.Cancel.Sender.Partition.{IsPartitioned}

module _ (st : Exporter) (v : IsPartitioned st) (nbr : ℕ) (dead : ExportEntry) where
  no_context :
      (is_receiving : Bool)
      → get_canceled_export nbr st ≡ some dead
      → get_session_context is_receiving nbr st ≡ none
  unfolding get_canceled_export get_session_context get_export_session
  no_context is_receiving e =
      let (cited, there) = find_some nbr_of nbr st.dead_exports dead e in
      let (once, old) = v nbr in
      let gone : find_session nbr_of nbr st.export_sessions ≡ none =
        absent_none nbr_of nbr st.export_sessions (omega arith) in
      ground (arith, gone)

  -- The sender has canceled a session, and the receiver acknowledges that. The event that would send
  -- the cancellation again is canceled, but the session is not removed: it is still found among the
  -- canceled ones, which are unchanged.
  pub handle_cas_strands :
      (is_receiving : Bool)
      → get_canceled_export nbr st ≡ some dead
      → (get_canceled_export nbr (handle_cas is_receiving nbr st) ≡ some dead)
        × ((handle_cas is_receiving nbr st).dead_exports ≡ st.dead_exports)
        × ((handle_cas is_receiving nbr st).timeline
            ≡ cancel_event LtpEventType.resend_xmit_cancel 0 nbr 0 st.timeline)
  unfolding handle_cas cas_in_context get_canceled_export
  handle_cas_strands is_receiving e = rw (no_context is_receiving e) (e, refl, refl)
