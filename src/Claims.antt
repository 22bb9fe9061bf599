-- ===== src/Claims.antt =====
-- Reception claims at the sender of a block: how handleRS in ltp/library/libltpP.c merges the
-- claims of a report with those of earlier reports, decides whether the red part has arrived, and
-- finds the gaps to retransmit.
-- Numbers are unsigned ints, and sums and differences are taken in 32 bits, as the source does.
pub mod Cover
pub mod Merge
pub mod Gaps
mod Tests
use mini_ltp.Prelude.{
  ℕ, ◌+◌, ◌%◌, ◌^◌, List, [], ◌∷◌, ◌++◌, Bool, true, false, ◌&&◌, ltb, ◌==◌, if◌then◌else◌, min,
}
use mini_ltp.Sdnv.{u32, sub32}
use mini_ltp.Segment.{ReceptionClaim}

abbrev pub add32 : ℕ → ℕ → ℕ
add32 a b = (a + b) % u32

abbrev pub end_of : ReceptionClaim → ℕ
end_of c = add32 c.offset c.length

-- `newClaim` when it is consolidated with an older claim that it meets. `new_end` is the end that
-- it had before the list was entered.
unfoldable pub consolidate : ℕ → ReceptionClaim → ReceptionClaim → ReceptionClaim
consolidate new_end new claim =
    let head : ℕ = if ltb claim.offset new.offset then sub32 new.offset claim.offset else 0 in
    let tail : ℕ = if ltb new_end (end_of claim) then sub32 (end_of claim) new_end else 0 in
    record {
      offset = if ltb claim.offset new.offset then claim.offset else new.offset;
      length = add32 (add32 new.length head) tail;
    }

-- The loop over the old claims, with the insertion that follows it.
unfoldable pub merge_loop : ℕ → ReceptionClaim → List ReceptionClaim → List ReceptionClaim
merge_loop new_end new [] = new ∷ []
merge_loop new_end new (claim ∷ claims) =
    let skipped = claim ∷ merge_loop new_end new claims in
    let consolidated = merge_loop new_end (consolidate new_end new claim) claims in
    if ltb (end_of claim) new.offset
    then skipped
    else if ltb new_end claim.offset
    then new ∷ claim ∷ claims
    else consolidated

unfoldable pub merge_claim : ReceptionClaim → List ReceptionClaim → List ReceptionClaim
merge_claim new claims = merge_loop (end_of new) new claims

-- The new claims are taken in the order of the report.
unfoldable pub merge_claims : List ReceptionClaim → List ReceptionClaim → List ReceptionClaim
merge_claims [] claims = claims
merge_claims (new ∷ news) claims = merge_claims news (merge_claim new claims)

-- The test for reception of the whole red part looks at the first claim.
unfoldable pub is_complete : ℕ → List ReceptionClaim → Bool
is_complete red_part_length [] = false
is_complete red_part_length (claim ∷ claims) = claim.offset == 0 && claim.length == red_part_length

pub record ExportExtent : Type 0 where
  pub offset : ℕ
  pub length : ℕ

-- addTransmissionExtent, where the gap is not empty.
unfoldable pub add_transmission_extent : ℕ → ℕ → List ExportExtent
add_transmission_extent start_of_gap end_of_gap =
    if ltb start_of_gap end_of_gap
    then record { offset = start_of_gap; length = sub32 end_of_gap start_of_gap } ∷ []
    else []

-- The loop over the claims, and the final gap.
unfoldable pub gaps : ℕ → ℕ → List ReceptionClaim → List ExportExtent
gaps start_of_gap upper [] = add_transmission_extent start_of_gap upper
gaps start_of_gap upper (claim ∷ claims) =
    add_transmission_extent start_of_gap (min claim.offset upper)
    ++ gaps (if ltb start_of_gap (end_of claim) then end_of claim else start_of_gap) upper claims
