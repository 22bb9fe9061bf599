-- ===== src/Claims/Merge.antt =====
-- Merging claims: nothing is lost, nothing is made up, and the list stays in its form.
use mini_ltp.Prelude.{
  ℕ, ◌+◌, ◌≤◌, ◌<◌, ◌≡◌, refl, List, [], ◌∷◌, ◌||◌, ltb, arith, All, ◌⊎◌, inl, inr, Bool-cases,
}
use mini_ltp.Sdnv.{u32}
use mini_ltp.Segment.{ReceptionClaim}
use mini_ltp.Claims.{end_of, consolidate, merge_loop, merge_claim, merge_claims}
use mini_ltp.Claims.Cover.{in_range, covered, Separated, Separated-mono}

-- A claim of a report that was loaded, and does not wrap.
pub record IsNew (c : ReceptionClaim) : Type 0 where
  pub some_data : 0 < c.length
  pub within : c.offset + c.length < u32

-- Once the new claim ends before every old one it is put in front.
merge_loop-front :
    (new_end lo : ℕ) (new : ReceptionClaim) (cs : List ReceptionClaim)
    → new.offset ≤ new_end
    → new_end < lo
    → Separated lo cs
    → merge_loop new_end new cs ≡ new ∷ cs
unfolding merge_loop
merge_loop-front new_end lo new [] h k s = refl
merge_loop-front new_end lo new (c ∷ cs) h k (p, q, r, s) = ground arith

module _ (new_end : ℕ) (new c : ReceptionClaim) where
  -- Where the two meet, the consolidated claim is their union.
  consolidate_meets :
      new.offset + new.length ≡ new_end
      → new_end < u32
      → c.offset + c.length < u32
      → new.offset ≤ c.offset + c.length
      → c.offset ≤ new_end
      → let both = consolidate new_end new c in
        (both.offset ≤ new.offset)
        × (both.offset ≤ c.offset)
        × ((both.offset ≡ new.offset) ⊎ (both.offset ≡ c.offset))
        × (new_end ≤ both.offset + both.length)
        × (c.offset + c.length ≤ both.offset + both.length)
        × ((both.offset + both.length ≡ new_end)
            ⊎ (both.offset + both.length ≡ c.offset + c.length))
  unfolding consolidate
  consolidate_meets e h k l m = ground arith

  in_range-consolidate :
      (b : ℕ)
      → new.offset + new.length ≡ new_end
      → new_end < u32
      → c.offset + c.length < u32
      → new.offset ≤ c.offset + c.length
      → c.offset ≤ new_end
      → let both = consolidate new_end new c in
        in_range b both.offset both.length
        ≡ (in_range b new.offset new.length || in_range b c.offset c.length)
  in_range-consolidate b e h k l m = ground (arith, consolidate_meets e h k l m)

abbrev Merged : ℕ → ℕ → ReceptionClaim → List ReceptionClaim → List ReceptionClaim → Type 0
Merged b lo new cs merged =
    (covered b merged ≡ (in_range b new.offset new.length || covered b cs)) × Separated lo merged

-- The three ways on from an old claim `c`: before the new one, behind it, or meeting it.
module _ (b lo new_end : ℕ) (new c : ReceptionClaim) (cs : List ReceptionClaim) where
  Merged-skip :
      (merged : List ReceptionClaim)
      → Separated lo (c ∷ cs)
      → Merged b (c.offset + c.length + 1) new cs merged
      → Merged b lo new (c ∷ cs) (c ∷ merged)
  Merged-skip merged (p, q, r, s) (x, y) = (ground (arith, x), (p, q, r, y))

  Merged-stop :
      Separated lo (c ∷ cs)
      → lo ≤ new.offset
      → 0 < new.length
      → new.offset + new.length ≡ new_end
      → new_end < c.offset
      → Merged b lo new (c ∷ cs) (new ∷ c ∷ cs)
  Merged-stop (p, q, r, s) l k e h = (refl, (l, k, omega arith, (omega arith, q, r, s)))

  Merged-meet :
      (merged : List ReceptionClaim)
      → Separated lo (c ∷ cs)
      → new.offset + new.length ≡ new_end
      → new_end < u32
      → new.offset ≤ c.offset + c.length
      → c.offset ≤ new_end
      → Merged b lo (consolidate new_end new c) cs merged
      → Merged b lo new (c ∷ cs) merged
  Merged-meet merged (p, q, r, s) e h k l (x, y) =
      (ground (arith, x, in_range-consolidate new_end new c b e h r k l), y)

-- With `both` ending behind the new claim, the rest of the list lies behind it.
Merged-front :
    (b lo new_end : ℕ) (both c : ReceptionClaim) (cs : List ReceptionClaim)
    → Separated (c.offset + c.length + 1) cs
    → lo ≤ both.offset
    → 0 < both.length
    → both.offset ≤ new_end
    → new_end < c.offset + c.length
    → both.offset + both.length ≡ c.offset + c.length
    → c.offset + c.length < u32
    → Merged b lo both cs (merge_loop new_end both cs)
Merged-front b lo new_end both c cs s l p h k e r =
    let start : Separated (both.offset + both.length + 1) cs =
      Separated-mono (c.offset + c.length + 1) _ cs (omega arith) s in
    rw (merge_loop-front new_end (c.offset + c.length + 1) both cs h (omega arith) s)
      (refl, (l, p, omega arith, start))

merge_loop-Merged :
    (b lo new_end : ℕ) (new : ReceptionClaim) (cs : List ReceptionClaim)
    → Separated lo cs
    → lo ≤ new.offset
    → 0 < new.length
    → new.offset + new.length ≡ new_end
    → new_end < u32
    → Merged b lo new cs (merge_loop new_end new cs)
unfolding merge_loop
merge_loop-Merged b lo new_end new [] s l p e h = (ground arith, (l, p, omega arith, tt))
merge_loop-Merged b lo new_end new (c ∷ cs) (sp, sq, sr, s) l p e h =
    elim (Bool-cases (ltb (end_of c) new.offset)) [
      | inl skip ↦ rw skip (
          Merged-skip b lo new_end new c cs _ (sp, sq, sr, s)
            (merge_loop-Merged b (c.offset + c.length + 1) new_end new cs s (ground arith) p e h))
      | inr meets ↦ rw meets (elim (Bool-cases (ltb new_end c.offset)) [
        | inl stop ↦
            rw stop (Merged-stop b lo new_end new c cs (sp, sq, sr, s) l p e (ground arith))
        | inr meets' ↦ rw meets' (
            meeting (ground arith) (ground arith)
              (λ x y z. merge_loop-Merged b lo new_end both cs rest x y z h))
      ])
    ]
  where
    both : ReceptionClaim
    both = consolidate new_end new c

    rest : Separated lo cs
    rest = Separated-mono (c.offset + c.length + 1) lo cs (omega arith) s

    meeting :
        new.offset ≤ c.offset + c.length
        → c.offset ≤ new_end
        → (lo ≤ both.offset
            → 0 < both.length
            → both.offset + both.length ≡ new_end
            → Merged b lo both cs (merge_loop new_end both cs))
        → Merged b lo new (c ∷ cs) (merge_loop new_end both cs)
    meeting k m ih =
        let (a₁, a₂, start, a₄, a₅, finish) = consolidate_meets new_end new c e h sr k m in
        let first : lo ≤ both.offset = omega (arith, start) in
        let size : 0 < both.length = omega (arith, a₁, a₄) in
        Merged-meet b lo new_end new c cs _ (sp, sq, sr, s) e h k m
          (elim (Bool-cases (ltb new_end (c.offset + c.length))) [
            | inl later ↦
                Merged-front b lo new_end both c cs s first size (omega (arith, a₁)) (ground arith)
                  (ground (arith, finish)) sr
            | inr earlier ↦ ih first size (ground (arith, finish, a₅))
          ])

-- Merging one claim of a report into the claims of a session: byte `b` is claimed afterwards just
-- if it was before or is now, and the list stays separated.
merge_claim-covered :
    (b : ℕ) (new : ReceptionClaim) (cs : List ReceptionClaim)
    → IsNew new
    → Separated 0 cs
    → (covered b (merge_claim new cs) ≡ (in_range b new.offset new.length || covered b cs))
      × Separated 0 (merge_claim new cs)
unfolding merge_claim
merge_claim-covered b new cs v s =
    let e : new.offset + new.length ≡ end_of new = omega (arith, v.within) in
    merge_loop-Merged b 0 (end_of new) new cs s (omega arith) v.some_data e (omega arith)

-- The claims of a session after a report, where the claims of earlier reports are separated and the
-- new ones are not empty and end below 2 ^ 32: byte `b` is claimed just if the report or an earlier
-- one claims it, and the claims are separated.
pub merge_claims-covered :
    (b : ℕ) (news cs : List ReceptionClaim)
    → All IsNew news
    → Separated 0 cs
    → (covered b (merge_claims news cs) ≡ (covered b news || covered b cs))
      × Separated 0 (merge_claims news cs)
unfolding merge_claims
merge_claims-covered b [] cs v s = (refl, s)
merge_claims-covered b (new ∷ news) cs (v, vs) s =
    let (x, y) = merge_claim-covered b new cs v s in
    let (x', y') = merge_claims-covered b news (merge_claim new cs) vs y in
    (ground (arith, x, x'), y')
