-- ===== src/Cancel/Lists/Occurs.antt =====
-- How often a session number stands in a list of sessions.
use mini_ltp.Prelude.{
  ℕ, ◌+◌, ◌-◌, ◌<◌, ◌≡◌, refl, List, [], ◌∷◌, ◌++◌, true, ◌==◌, if◌then◌else◌, arith, none, some,
  Bool-cases, inl, inr,
}
use mini_ltp.Cancel.Lists.{find_session, delete_session, write_session}

module _ {A : Type 0} (number : A → ℕ) where
  abbrev pub occurs : ℕ → List A → ℕ
  occurs nbr [] = 0
  occurs nbr (session ∷ sessions) = (if number session == nbr then 1 else 0) + occurs nbr sessions

  pub occurs-append :
      (nbr : ℕ) (xs ys : List A) → occurs nbr (xs ++ ys) ≡ occurs nbr xs + occurs nbr ys
  occurs-append nbr [] ys = omega arith
  occurs-append nbr (x ∷ xs) ys = omega (arith, occurs-append nbr xs ys)

  pub occurs-delete_session :
      (nbr m : ℕ) (xs : List A)
      → occurs nbr (delete_session number m xs) ≡ occurs nbr xs - (if m == nbr then 1 else 0)
  unfolding delete_session
  occurs-delete_session nbr m [] = ground arith
  occurs-delete_session nbr m (x ∷ xs) = ground (arith, occurs-delete_session nbr m xs)

  pub occurs-write_session :
      (nbr m : ℕ) (new : A) (xs : List A)
      → number new ≡ m
      → occurs nbr (write_session number m new xs) ≡ occurs nbr xs
  unfolding write_session
  occurs-write_session nbr m new [] e = refl
  occurs-write_session nbr m new (x ∷ xs) e = ground (arith, occurs-write_session nbr m new xs e)

  pub find_none : (nbr : ℕ) (xs : List A) → find_session number nbr xs ≡ none → occurs nbr xs ≡ 0
  unfolding find_session
  find_none nbr [] e = refl
  find_none nbr (x ∷ xs) e = elim (Bool-cases (number x == nbr)) [
    | inl same ↦ absurd (cc (rw same at e))
    | inr other ↦ rw other (omega (arith, find_none nbr xs (rw other at e)))
  ]

  pub find_some :
      (nbr : ℕ) (xs : List A) (x : A)
      → find_session number nbr xs ≡ some x
      → (number x ≡ nbr) × (0 < occurs nbr xs)
  unfolding find_session
  find_some nbr [] x e = absurd (cc e)
  find_some nbr (y ∷ xs) x e = elim (Bool-cases (number y == nbr)) [
    | inl same ↦
        let found : some y ≡ some x = rw same at e in
        let eq : y ≡ x = cc found in
        let cited : number y ≡ nbr = ground arith in (rw eq at cited, rw same (omega arith))
    | inr other ↦
        let (cited, more) = find_some nbr xs x (rw other at e) in (cited, rw other (omega arith))
  ]

  pub absent_none : (nbr : ℕ) (xs : List A) → occurs nbr xs ≡ 0 → find_session number nbr xs ≡ none
  unfolding find_session
  absent_none nbr [] e = refl
  absent_none nbr (x ∷ xs) e = elim (Bool-cases (number x == nbr)) [
    | inl same ↦ absurd (ground arith)
    | inr other ↦ rw other (absent_none nbr xs (ground arith))
  ]

  pub find_last :
      (nbr : ℕ) (xs : List A) (x : A)
      → occurs nbr xs ≡ 0
      → number x ≡ nbr
      → find_session number nbr (xs ++ x ∷ []) ≡ some x
  unfolding find_session
  find_last nbr [] x e n = let same : (number x == nbr) ≡ true = ground arith in rw same
  find_last nbr (y ∷ xs) x e n = elim (Bool-cases (number y == nbr)) [
    | inl same ↦ absurd (ground arith)
    | inr other ↦ rw other (find_last nbr xs x (ground arith) n)
  ]

  pub find_written :
      (nbr : ℕ) (xs : List A) (x new : A)
      → find_session number nbr xs ≡ some x
      → number new ≡ nbr
      → find_session number nbr (write_session number nbr new xs) ≡ some new
  unfolding find_session write_session
  find_written nbr [] x new e n = absurd (cc e)
  find_written nbr (y ∷ xs) x new e n = elim (Bool-cases (number y == nbr)) [
    | inl same ↦ let renewed : (number new == nbr) ≡ true = ground arith in rw (same, renewed)
    | inr other ↦ rw (other, other) (find_written nbr xs x new (rw other at e) n)
  ]
