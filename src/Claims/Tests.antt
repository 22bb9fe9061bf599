-- ===== src/Claims/Tests.antt =====
-- Runs of the merging and of the gaps, and the theorems at concrete inputs.
use mini_ltp.Prelude.{ℕ, ◌<◌, ◌≡◌, refl, List, [], ◌∷◌, true, ◌&&◌, ◌||◌, not, ltb, leb, arith, ◌↔◌}
use mini_ltp.Segment.{ReceptionClaim}
use mini_ltp.Claims.{
  consolidate, merge_loop, merge_claim, merge_claims, is_complete, add_transmission_extent, gaps,
}
use mini_ltp.Claims.Cover.{covered, to_send, Separated}
use mini_ltp.Claims.Merge.{merge_claims-covered}
use mini_ltp.Claims.Gaps.{gaps-merge_claims, is_complete_iff}

abbrev old_claims : List ReceptionClaim
old_claims = record { offset = 0; length = 100 } ∷ record { offset = 300; length = 100 } ∷ []

abbrev new_claims : List ReceptionClaim
new_claims = record { offset = 90; length = 60 } ∷ record { offset = 200; length = 120 } ∷ []

merged :
    merge_claims new_claims old_claims
    ≡ record { offset = 0; length = 150 } ∷ record { offset = 200; length = 200 } ∷ []
unfolding merge_claims merge_claim merge_loop consolidate
merged = refl

missing :
    gaps 0 500 (merge_claims new_claims old_claims)
    ≡ record { offset = 150; length = 50 } ∷ record { offset = 400; length = 100 } ∷ []
unfolding merge_claims merge_claim merge_loop consolidate gaps add_transmission_extent
missing = refl

merge_claims-covered_example :
    (covered 95 (merge_claims new_claims old_claims)
      ≡ (covered 95 new_claims || covered 95 old_claims))
    × Separated 0 (merge_claims new_claims old_claims)
merge_claims-covered_example =
    merge_claims-covered 95 new_claims old_claims (omega arith) (omega arith)

gaps-merge_claims_example :
    to_send 160 (gaps 0 500 (merge_claims new_claims old_claims))
    ≡ (leb 0 160 && ltb 160 500 && not (covered 160 new_claims || covered 160 old_claims))
gaps-merge_claims_example =
    gaps-merge_claims 160 0 500 new_claims old_claims (omega arith) (omega arith) (omega arith)

is_complete_iff_example :
    (is_complete 400 old_claims ≡ true) ↔ ((b : ℕ) → b < 400 → covered b old_claims ≡ true)
is_complete_iff_example = is_complete_iff 400 old_claims (omega arith) (omega arith) (omega arith)
