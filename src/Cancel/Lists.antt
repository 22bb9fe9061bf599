-- ===== src/Cancel/Lists.antt =====
-- Sessions in a list, found and removed by their numbers.
pub mod Occurs
use mini_ltp.Prelude.{ℕ, List, [], ◌∷◌, ◌==◌, if◌then◌else◌, Option, none, some}

module _ {A : Type 0} (number : A → ℕ) where
  -- The first session with that number.
  unfoldable pub find_session : ℕ → List A → Option A
  find_session nbr [] = none
  find_session nbr (session ∷ sessions) =
      let further = find_session nbr sessions in
      if number session == nbr then some session else further

  unfoldable pub delete_session : ℕ → List A → List A
  delete_session nbr [] = []
  delete_session nbr (session ∷ sessions) =
      let further = session ∷ delete_session nbr sessions in
      if number session == nbr then sessions else further

  -- The session with that number is written anew.
  unfoldable pub write_session : ℕ → A → List A → List A
  write_session nbr new [] = []
  write_session nbr new (session ∷ sessions) =
      let further = session ∷ write_session nbr new sessions in
      if number session == nbr then new ∷ sessions else further
