-- ===== src/Closing/Order.antt =====
-- The list of closed sessions: its order is kept, and the search finds just what has been noted.
use mini_ltp.Prelude.{
  ℕ, ◌≤◌, ◌<◌, ◌≡◌, ◌≢◌, refl, inl, inr, List, [], ◌∷◌, Bool, false, ◌||◌, ltb, ◌==◌, arith, Option,
  none, some, Bool-cases,
}
use mini_ltp.Reception.{ReportSeg, ImportSession}
use mini_ltp.Report.{find_report}
use mini_ltp.Closing.{session_is_closed, note_closed_import, RaOutcome, apply_ack, handle_ra}

-- Numbers that fall, from `top` on.
abbrev pub Falling : ℕ → List ℕ → Type 0
Falling top [] = Unit {0}
Falling top (n ∷ ns) = (n ≤ top) × Falling n ns

abbrev is_noted : ℕ → List ℕ → Bool
is_noted nbr [] = false
is_noted nbr (n ∷ ns) = n == nbr || is_noted nbr ns

not_noted_above : (nbr top : ℕ) (ns : List ℕ) → Falling top ns → top < nbr → is_noted nbr ns ≡ false
not_noted_above nbr top [] f h = ground arith
not_noted_above nbr top (n ∷ ns) (a, f) h = ground (arith, not_noted_above nbr n ns f)

-- The search, which stops early, finds a session just if it has been noted.
session_is_closed-is_noted :
    (nbr top : ℕ) (ns : List ℕ) → Falling top ns → session_is_closed nbr ns ≡ is_noted nbr ns
unfolding session_is_closed
session_is_closed-is_noted nbr top [] f = refl
session_is_closed-is_noted nbr top (n ∷ ns) (a, f) =
    ground (arith, session_is_closed-is_noted nbr n ns f, not_noted_above nbr n ns f)

pub note_closed_import-Falling :
    (nbr top : ℕ) (ns : List ℕ)
    → nbr ≤ top
    → Falling top ns
    → Falling top (note_closed_import nbr ns)
unfolding note_closed_import
note_closed_import-Falling nbr top [] h f = (h, tt)
note_closed_import-Falling nbr top (n ∷ ns) h (a, f) = elim (Bool-cases (ltb nbr n)) [
  | inl below ↦ rw below (a, note_closed_import-Falling nbr n ns (ground arith) f)
  | inr above ↦ rw above (h, (ground arith, f))
]

is_noted-note_closed_import :
    (m nbr : ℕ) (ns : List ℕ) → is_noted m (note_closed_import nbr ns) ≡ (nbr == m || is_noted m ns)
unfolding note_closed_import
is_noted-note_closed_import m nbr [] = ground arith
is_noted-note_closed_import m nbr (n ∷ ns) = ground (arith, is_noted-note_closed_import m nbr ns)

-- Once an import session has been noted as closed in a list whose numbers fall, the search finds that
-- session, and of the others just those that it found before; the numbers still fall.
pub session_is_closed-note_closed_import :
    (m nbr top : ℕ) (ns : List ℕ)
    → nbr ≤ top
    → Falling top ns
    → (session_is_closed m (note_closed_import nbr ns) ≡ (nbr == m || session_is_closed m ns))
      × Falling top (note_closed_import nbr ns)
session_is_closed-note_closed_import m nbr top ns h f =
    let f' : Falling top (note_closed_import nbr ns) = note_closed_import-Falling nbr top ns h f in
    (
      rw (
        session_is_closed-is_noted m top (note_closed_import nbr ns) f',
        session_is_closed-is_noted m top ns f,
        is_noted-note_closed_import m nbr ns,
      ),
      f',
    )

-- What a report acknowledgment does to the session.
abbrev pub Acknowledged : ImportSession → List ℕ → ℕ → RaOutcome → Type 0
Acknowledged session ns nbr RaOutcome.unknown_report = find_report nbr session.rs_segments ≡ none
Acknowledged session ns nbr (RaOutcome.deactivated rs) =
    (find_report nbr session.rs_segments ≡ some rs)
    × (rs.rpt_serial_nbr ≡ nbr)
    × (session.last_rpt_serial_nbr ≢ nbr)
Acknowledged session ns nbr (RaOutcome.closed_session ns') =
    ((rs : ReportSeg) × (find_report nbr session.rs_segments ≡ some rs))
    × (session.last_rpt_serial_nbr ≡ nbr)
    × ((m : ℕ) → session_is_closed m ns' ≡ (session.session_nbr == m || session_is_closed m ns))

find_report_lem :
    (nbr : ℕ) (reports : List ReportSeg) (rs : ReportSeg)
    → find_report nbr reports ≡ some rs
    → rs.rpt_serial_nbr ≡ nbr
unfolding find_report
find_report_lem nbr [] rs e = cc
find_report_lem nbr (r ∷ reports) rs e = elim (Bool-cases (r.rpt_serial_nbr == nbr)) [
  | inl same ↦
      let found : some r ≡ some rs = rw same at e in
      let eq : r ≡ rs = cc in let nbr_of : r.rpt_serial_nbr ≡ nbr = ground arith in rw eq at nbr_of
  | inr other ↦ find_report_lem nbr reports rs (rw other at e)
]

module _ (session : ImportSession) (ns : List ℕ) where
  apply_ack-Acknowledged :
      (nbr top : ℕ) (o : Option ReportSeg)
      → session.session_nbr ≤ top
      → Falling top ns
      → find_report nbr session.rs_segments ≡ o
      → Acknowledged session ns nbr (apply_ack session ns o)
  unfolding apply_ack
  apply_ack-Acknowledged nbr top none h f e = e
  apply_ack-Acknowledged nbr top (some rs) h f e =
      let cited : rs.rpt_serial_nbr ≡ nbr = find_report_lem nbr session.rs_segments rs e in
      let noted : (m : ℕ)
          → session_is_closed m (note_closed_import session.session_nbr ns)
            ≡ (session.session_nbr == m || session_is_closed m ns) =
        λ m. (session_is_closed-note_closed_import m session.session_nbr top ns h f).0 in
      elim (Bool-cases (rs.rpt_serial_nbr == session.last_rpt_serial_nbr)) [
        | inl last ↦ rw last ((rs, e), ground arith, noted)
        | inr other ↦ rw other (e, cited, λ l. ground arith)
      ]

  -- A report acknowledgment comes to an import session whose span has noted closed sessions in
  -- order. It has no effect just where no report has the serial number that it cites. Where one has
  -- it, and it is not the last report of the session, the timer of that report is switched off; where
  -- it is the last one, the session is closed, and then the search finds its number and of the others
  -- just those that it found before.
  pub handle_ra-Acknowledged :
      (nbr top : ℕ)
      → session.session_nbr ≤ top
      → Falling top ns
      → Acknowledged session ns nbr (handle_ra session ns nbr)
  unfolding handle_ra
  handle_ra-Acknowledged nbr top h f =
      apply_ack-Acknowledged nbr top (find_report nbr session.rs_segments) h f refl
