-- ===== src/Late/Answers.antt =====
-- How many late reports are answered.
use mini_ltp.Prelude.{
  ℕ, zero, suc, ◌+◌, ◌-◌, ◌≤◌, ◌<◌, ◌≡◌, refl, List, [], ◌∷◌, length, true, false, ltb, ◌==◌,
  if◌then◌else◌, arith, Option, none, some, All, ap, ◌∙◌, Bool-cases, inl, inr,
}
use mini_ltp.Queue.{QueuedSeg, construct_report_ack_segment}
use mini_ltp.Queue.Contents.{length-enqueue_ack_segment}
use mini_ltp.Cancel.Lists.{find_session, delete_session, write_session}
use mini_ltp.Cancel.Lists.Occurs.{
  occurs, occurs-delete_session, occurs-write_session, find_some, find_written,
}
use mini_ltp.Late.{
  ClosedExport, ClosedExports, nbr_of, elt_of, answered, answer_late, acknowledge_late_report,
}

-- A report comes, and then another, until there is no closed session any more.
abbrev or_unchanged : ClosedExports → Option ClosedExports → ClosedExports
or_unchanged st none = st
or_unchanged st (some st') = st'

abbrev late_report : ℕ → ℕ → ClosedExports → ClosedExports
late_report nbr rpt_serial_nbr st = or_unchanged st (acknowledge_late_report nbr rpt_serial_nbr st)

abbrev pub late_reports : ℕ → ℕ → ℕ → ClosedExports → ClosedExports
late_reports zero nbr rpt_serial_nbr st = st
late_reports (suc n) nbr rpt_serial_nbr st =
    late_reports n nbr rpt_serial_nbr (late_report nbr rpt_serial_nbr st)

length-report_ack :
    (own nbr serial : ℕ) (xs : List QueuedSeg)
    → length (construct_report_ack_segment own nbr serial xs) ≡ length xs + 1
unfolding construct_report_ack_segment
length-report_ack own nbr serial xs = length-enqueue_ack_segment _ xs

module _ (nbr serial : ℕ) where
  -- What a report leaves behind, whether it was the last one or not.
  abbrev Answered : ClosedExports → List ClosedExport → Type 0
  Answered st closed' =
      ((late_report nbr serial st).closed_exports ≡ closed')
      × (length (late_report nbr serial st).segments ≡ length st.segments + 1)
      × ((late_report nbr serial st).timeline ≡ st.timeline)

  answered_more :
      (st : ClosedExports) (closed : ClosedExport)
      → find_session nbr_of nbr st.closed_exports ≡ some closed
      → 1 < closed.response_limit
      → Answered st (write_session nbr_of nbr (answered closed) st.closed_exports)
  unfolding acknowledge_late_report answer_late
  answered_more st closed e h =
      let more : ltb (closed.response_limit - 1) 1 ≡ false = ground arith in
      rw (e, more) (refl, length-report_ack st.own_engine_id nbr serial st.segments, refl)

  final_report :
      (st : ClosedExports) (closed : ClosedExport)
      → find_session nbr_of nbr st.closed_exports ≡ some closed
      → closed.response_limit ≤ 1
      → Answered st (delete_session nbr_of nbr st.closed_exports)
  unfolding acknowledge_late_report answer_late
  final_report st closed e h =
      let last : ltb (closed.response_limit - 1) 1 ≡ true = ground arith in
      rw (e, last) (refl, length-report_ack st.own_engine_id nbr serial st.segments, refl)

-- The closed session with that number is the one at that address.
abbrev pub IsAt : ℕ → ℕ → List ClosedExport → Type 0
IsAt nbr elt = All (λ closed. (closed.elt == elt) ≡ (closed.session_nbr == nbr))

module _ (nbr elt : ℕ) where
  occurs-IsAt :
      (xs : List ClosedExport) → IsAt nbr elt xs → occurs elt_of elt xs ≡ occurs nbr_of nbr xs
  occurs-IsAt [] v = refl
  occurs-IsAt (x ∷ xs) (e, v) =
      rw e (ap (λ n. (if x.session_nbr == nbr then 1 else 0) + n) (occurs-IsAt xs v))

  delete-IsAt :
      (xs : List ClosedExport) → IsAt nbr elt xs → IsAt nbr elt (delete_session nbr_of nbr xs)
  unfolding delete_session
  delete-IsAt [] v = tt
  delete-IsAt (x ∷ xs) (e, v) = elim (Bool-cases (x.session_nbr == nbr)) [
    | inl same ↦ rw same v
    | inr other ↦ rw other (e, delete-IsAt xs v)
  ]

  write-IsAt :
      (new : ClosedExport) (xs : List ClosedExport)
      → (new.elt == elt) ≡ (new.session_nbr == nbr)
      → IsAt nbr elt xs
      → IsAt nbr elt (write_session nbr_of nbr new xs)
  unfolding write_session
  write-IsAt new [] n v = tt
  write-IsAt new (x ∷ xs) n (e, v) = elim (Bool-cases (x.session_nbr == nbr)) [
    | inl same ↦ rw same (n, v)
    | inr other ↦ rw other (e, write-IsAt new xs n v)
  ]

  -- After as many late reports as the limit allows, there is no closed session with the number, each
  -- report has been acknowledged, and the timeline is as it was.
  pub late_reports_lem :
      (n serial : ℕ) (st : ClosedExports) (closed : ClosedExport)
      → find_session nbr_of nbr st.closed_exports ≡ some closed
      → closed.response_limit ≡ suc n
      → closed.elt ≡ elt
      → occurs nbr_of nbr st.closed_exports ≤ 1
      → IsAt nbr elt st.closed_exports
      → (occurs elt_of elt (late_reports (suc n) nbr serial st).closed_exports ≡ 0)
        × (occurs nbr_of nbr (late_reports (suc n) nbr serial st).closed_exports ≡ 0)
        × (length (late_reports (suc n) nbr serial st).segments ≡ length st.segments + suc n)
        × ((late_reports (suc n) nbr serial st).timeline ≡ st.timeline)
  late_reports_lem zero serial st closed e l k once v =
      let (c, q, t) = final_report nbr serial st closed e (omega arith) in
      let same : (nbr == nbr) ≡ true = ground arith in
      let gone : occurs nbr_of nbr (delete_session nbr_of nbr st.closed_exports) ≡ 0 =
        ground (arith, occurs-delete_session nbr_of nbr nbr st.closed_exports) in
      (rw c (occurs-IsAt _ (delete-IsAt st.closed_exports v) ∙ gone), rw c gone, q, t)
  late_reports_lem (suc n) serial st closed e l k once v =
      let (c, q, t) = answered_more nbr serial st closed e (omega arith) in
      let cited : closed.session_nbr ≡ nbr = (find_some nbr_of nbr st.closed_exports closed e).0 in
      let st' : ClosedExports = late_report nbr serial st in
      let found : find_session nbr_of nbr st'.closed_exports ≡ some (answered closed) =
        rw c (find_written nbr_of nbr st.closed_exports closed (answered closed) e cited) in
      let kept : occurs nbr_of nbr st'.closed_exports ≡ occurs nbr_of nbr st.closed_exports =
        rw c (occurs-write_session nbr_of nbr nbr (answered closed) st.closed_exports cited) in
      let at : IsAt nbr elt st'.closed_exports =
        rw c (write-IsAt (answered closed) st.closed_exports (ground arith) v) in
      let (a, b, len, time) =
        late_reports_lem n serial st' (answered closed) found (omega arith) k (omega arith) at in
      (a, b, omega arith, time ∙ t)
