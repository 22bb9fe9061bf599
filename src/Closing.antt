-- ===== src/Closing.antt =====
-- Closing an import session: handleRA of ltp/library/libltpP.c for a session that exists,
-- closeImportSession, noteClosedImport and sessionIsClosed.
-- The list of closed sessions is written from its end, where the code starts its searches: session
-- numbers fall along it.
pub mod Order
mod Tests
use mini_ltp.Prelude.{
  ℕ, List, [], ◌∷◌, Bool, true, false, ltb, ◌==◌, if◌then◌else◌, Option, none, some,
}
use mini_ltp.Reception.{ReportSeg, ImportSession}
use mini_ltp.Report.{find_report}

unfoldable pub session_is_closed : ℕ → List ℕ → Bool
session_is_closed nbr [] = false
session_is_closed nbr (closed ∷ nbrs) =
    let further = session_is_closed nbr nbrs in if ltb nbr closed then further else closed == nbr

-- The number goes behind, in the list's order, the first one from the end that is not greater.
unfoldable pub note_closed_import : ℕ → List ℕ → List ℕ
note_closed_import nbr [] = nbr ∷ []
note_closed_import nbr (closed ∷ nbrs) =
    let further = closed ∷ note_closed_import nbr nbrs in
    if ltb nbr closed then further else nbr ∷ closed ∷ nbrs

-- How a report acknowledgment ends: the report is unknown, its timer is switched off, or the session
-- is closed, with the list of closed sessions that results.
pub data RaOutcome : Type 0 where
  unknown_report : RaOutcome
  deactivated : ReportSeg → RaOutcome
  closed_session : List ℕ → RaOutcome

unfoldable pub apply_ack : ImportSession → List ℕ → Option ReportSeg → RaOutcome
apply_ack session nbrs none = unknown_report
apply_ack session nbrs (some rs) =
    if rs.rpt_serial_nbr == session.last_rpt_serial_nbr
    then closed_session (note_closed_import session.session_nbr nbrs)
    else deactivated rs

unfoldable pub handle_ra : ImportSession → List ℕ → ℕ → RaOutcome
handle_ra session nbrs rpt_serial_nbr =
    apply_ack session nbrs (find_report rpt_serial_nbr session.rs_segments)
