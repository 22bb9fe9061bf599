-- ===== src/Block/Read.antt =====
-- What readFromExportBlock reads, as against the service data units written one after the other.
use mini_ltp.Prelude.{
  ℕ, zero, suc, ◌-◌, ◌≤◌, ◌<◌, ◌≡◌, refl, ap, ◌∙◌, sym, List, [], ◌∷◌, ◌++◌, append-nil, true,
  false, leb, ◌==◌, min, arith, length, take, drop, concat, Bool-cases, inl, inr,
  drop-append_behind, drop-append_within, length-drop, take-append_within, take-append_behind,
}
use mini_ltp.Block.{read_from_export_block}

module _ (offset count : ℕ) (sdu : List ℕ) (sdus : List (List ℕ)) where
  read_behind :
      length sdu ≤ offset
      → read_from_export_block offset count (sdu ∷ sdus)
        ≡ read_from_export_block (offset - length sdu) count sdus
  unfolding read_from_export_block
  read_behind h = let behind : leb (length sdu) offset ≡ true = ground arith in rw behind

  read_within :
      offset < length sdu
      → count ≤ length sdu - offset
      → read_from_export_block offset count (sdu ∷ sdus) ≡ take count (drop offset sdu)
  unfolding read_from_export_block
  read_within h k =
      let within : leb (length sdu) offset ≡ false = ground arith in
      let all : min count (length sdu - offset) ≡ count = omega arith in
      let done : (count - count == 0) ≡ true = ground arith in rw (within, all, done, append-nil)

  read_across :
      offset < length sdu
      → length sdu - offset < count
      → read_from_export_block offset count (sdu ∷ sdus)
        ≡ take (length sdu - offset) (drop offset sdu)
          ++ read_from_export_block 0 (count - (length sdu - offset)) sdus
  unfolding read_from_export_block
  read_across h k =
      let within : leb (length sdu) offset ≡ false = ground arith in
      let part : min count (length sdu - offset) ≡ length sdu - offset = omega arith in
      let more : (count - (length sdu - offset) == 0) ≡ false = ground arith in
      rw (within, part, more)

take_none : (n : ℕ) → take {A = ℕ} n [] ≡ []
take_none zero = refl
take_none (suc n) = refl

drop_none : (n : ℕ) → drop {A = ℕ} n [] ≡ []
drop_none zero = refl
drop_none (suc n) = refl

-- The bytes read from a block are just those that stand in the service data units, written one after
-- the other, from the offset on, as many as asked for or as there are.
pub read_from_export_block-concat :
    (offset count : ℕ) (sdus : List (List ℕ))
    → read_from_export_block offset count sdus ≡ take count (drop offset (concat sdus))
unfolding read_from_export_block
read_from_export_block-concat offset count [] = rw (drop_none offset, take_none count)
read_from_export_block-concat offset count (sdu ∷ sdus) =
    elim (Bool-cases (leb (length sdu) offset)) [
      | inl behind ↦
          read_behind offset count sdu sdus (ground arith)
          ∙ read_from_export_block-concat (offset - length sdu) count sdus
          ∙ sym (ap (take count) (drop-append_behind offset sdu (concat sdus) (ground arith)))
      | inr within ↦
          let left : length (drop offset sdu) ≡ length sdu - offset = length-drop offset sdu in
          let split : drop offset (sdu ++ concat sdus) ≡ drop offset sdu ++ concat sdus =
            drop-append_within offset sdu (concat sdus) (ground arith) in
          elim (Bool-cases (leb count (length sdu - offset))) [
            | inl enough ↦
                read_within offset count sdu sdus (ground arith) (ground arith)
                ∙ sym (
                    ap (take count) split
                    ∙ take-append_within count (drop offset sdu) (concat sdus) (ground arith))
            | inr more ↦
                read_across offset count sdu sdus (ground arith) (ground arith)
                ∙ ap (λ l. take (length sdu - offset) (drop offset sdu) ++ l)
                    (read_from_export_block-concat 0 (count - (length sdu - offset)) sdus)
                ∙ sym (
                    ap (take count) split
                    ∙ take-append_behind count (drop offset sdu) (concat sdus) (ground arith)
                    ∙ rw left)
          ]
    ]
