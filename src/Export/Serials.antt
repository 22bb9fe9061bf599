-- ===== src/Export/Serials.antt =====
-- The serial numbers of the reports that have come: their order, and the search among them.
use mini_ltp.Prelude.{
  ℕ, ◌+◌, ◌≤◌, ◌<◌, ◌≡◌, inl, inr, List, [], ◌∷◌, Bool, true, false, ◌||◌, ltb, ◌==◌, Option, none,
  some, arith, Bool-cases, Option-cases,
}
use mini_ltp.Export.{note_serial_nbr}

-- Serial numbers that rise, from `low` on.
abbrev pub Rising : ℕ → List ℕ → Type 0
Rising low [] = Unit {0}
Rising low (n ∷ ns) = (low ≤ n) × Rising (n + 1) ns

-- Has a report with that serial number come before?
abbrev pub is_seen : ℕ → List ℕ → Bool
is_seen nbr [] = false
is_seen nbr (n ∷ ns) = n == nbr || is_seen nbr ns

unseen_below : (nbr low : ℕ) (ns : List ℕ) → Rising low ns → nbr < low → is_seen nbr ns ≡ false
unseen_below nbr low [] r h = ground arith
unseen_below nbr low (n ∷ ns) (a, r) h = ground (arith, unseen_below nbr (n + 1) ns r)

-- What the search finds, and the list with the new number.
abbrev pub Noted : ℕ → ℕ → List ℕ → Option (List ℕ) → Type 0
Noted low nbr ns none = is_seen nbr ns ≡ true
Noted low nbr ns (some ns') =
    (is_seen nbr ns ≡ false)
    × ((m : ℕ) → is_seen m ns' ≡ (nbr == m || is_seen m ns))
    × (low ≤ nbr → Rising low ns')

pub note_serial_nbr-Noted :
    (low nbr : ℕ) (ns : List ℕ) → Rising low ns → Noted low nbr ns (note_serial_nbr nbr ns)
unfolding note_serial_nbr
note_serial_nbr-Noted low nbr [] r = (ground arith, λ m. ground arith, λ h. (h, tt))
note_serial_nbr-Noted low nbr (n ∷ ns) (a, r) = elim (Bool-cases (ltb n nbr)) [
  | inl behind ↦
      let ih : Noted (n + 1) nbr ns (note_serial_nbr nbr ns) =
        note_serial_nbr-Noted (n + 1) nbr ns r in
      elim (Option-cases (note_serial_nbr nbr ns)) [
        | inl e ↦
            let seen : Noted (n + 1) nbr ns none = rw e at ih in
            rw (behind, e) (ground (arith, seen))
        | inr (ns', e) ↦
            let noted : Noted (n + 1) nbr ns (some ns') = rw e at ih in
            let (unseen, same, rises) = noted in
            rw (behind, e)
              (ground (arith, unseen), λ m. ground (arith, same m), λ h. (a, rises (ground arith)))
      ]
  | inr not_behind ↦ elim (Bool-cases (n == nbr)) [
    | inl found ↦ rw (not_behind, found) (ground arith)
    | inr before ↦
        let below : nbr < n = ground arith in
        let unseen : is_seen nbr ns ≡ false = unseen_below nbr (n + 1) ns r (omega arith) in
        rw (not_behind, before)
          (ground (arith, unseen), λ m. ground arith, λ h. (h, (omega arith, r)))
  ]
]
