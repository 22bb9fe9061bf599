-- ===== src/Late/Dangling.antt =====
-- A closed session that is forgotten before its time.
use mini_ltp.Prelude.{ℕ, suc, ◌+◌, ◌≡◌, refl, List, [], ◌∷◌, length, true, ◌==◌, arith, none, some}
use mini_ltp.Timeline.{Link, insert_ltp_timeline_event}
use mini_ltp.Cancel.Lists.{find_session}
use mini_ltp.Cancel.Lists.Occurs.{occurs, absent_none}
use mini_ltp.Late.{
  ClosedExport, ClosedExports, nbr_of, elt_of, note_closed_export, forget_export_event,
  forget_found, ltp_forget_closed_export,
}
use mini_ltp.Late.Answers.{IsAt, late_reports, late_reports_lem}

module _ (nbr elt : ℕ) where
  absent-IsAt :
      (xs : List ClosedExport)
      → occurs nbr_of nbr xs ≡ 0
      → occurs elt_of elt xs ≡ 0
      → IsAt nbr elt xs
  absent-IsAt [] a b = tt
  absent-IsAt (x ∷ xs) a b = (ground arith, absent-IsAt xs (ground arith) (ground arith))

  forget_absent :
      (st : ClosedExports)
      → occurs elt_of elt st.closed_exports ≡ 0
      → ltp_forget_closed_export elt st ≡ none
  unfolding ltp_forget_closed_export forget_found
  forget_absent st e = rw (absent_none elt_of elt st.closed_exports e)

  -- An export session with a new number is noted as closed, at a new list element, and then as many
  -- late reports come as timeouts are allowed, at least one. Each is acknowledged, and the session is
  -- forgotten. The event that was to forget it is still in the timeline, and when it comes, it refers
  -- to a list element that does not exist any more.
  pub ltp_forget_closed_export_dangles :
      (link : Link) (current_time serial n : ℕ) (st : ClosedExports)
      → link.max_timeouts ≡ suc n
      → occurs nbr_of nbr st.closed_exports ≡ 0
      → occurs elt_of elt st.closed_exports ≡ 0
      → (length
            (late_reports
              (suc n)
              nbr
              serial
              (note_closed_export link current_time elt nbr st)).segments
          ≡ length st.segments + suc n)
        × ((late_reports
              (suc n)
              nbr
              serial
              (note_closed_export link current_time elt nbr st)).timeline
            ≡ insert_ltp_timeline_event (forget_export_event link current_time elt) st.timeline)
        × (ltp_forget_closed_export elt
              (late_reports (suc n) nbr serial (note_closed_export link current_time elt nbr st))
            ≡ none)
  unfolding note_closed_export find_session
  ltp_forget_closed_export_dangles link current_time serial n st l a b =
      let noted : ClosedExports = note_closed_export link current_time elt nbr st in
      let same : (nbr == nbr) ≡ true = ground arith in
      let same_elt : (elt == elt) ≡ true = ground arith in
      let closed : ClosedExport = record {
        elt = elt;
        session_nbr = nbr;
        response_limit = link.max_timeouts;
      } in
      let found : find_session nbr_of nbr noted.closed_exports ≡ some closed = rw same in
      let once : occurs nbr_of nbr noted.closed_exports ≡ 1 = ground arith in
      let at : IsAt nbr elt noted.closed_exports =
        (rw (same, same_elt), absent-IsAt st.closed_exports a b) in
      let (gone, forgotten, len, time) =
        late_reports_lem nbr elt n serial noted closed found l refl (omega arith) at in
      (len, time, forget_absent _ gone)
