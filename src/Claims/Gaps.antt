-- ===== src/Claims/Gaps.antt =====
-- What is retransmitted in response to a report, and when a red part is complete.
use mini_ltp.Prelude.{
  ℕ, ◌+◌, ◌-◌, ◌≤◌, ◌<◌, ◌≡◌, List, [], ◌∷◌, true, ◌&&◌, ◌||◌, not, ltb, leb, arith, All, ◌↔◌,
  if◌then◌else◌, min,
}
use mini_ltp.Sdnv.{u32}
use mini_ltp.Segment.{ReceptionClaim}
use mini_ltp.Claims.{add_transmission_extent, gaps, end_of, merge_claims, is_complete}
use mini_ltp.Claims.Cover.{covered, to_send, to_send-append, Separated, covered_below}
use mini_ltp.Claims.Merge.{IsNew, merge_claims-covered}

to_send-add_transmission_extent :
    (b start finish : ℕ)
    → finish < u32
    → to_send b (add_transmission_extent start finish) ≡ (leb start b && ltb b finish)
unfolding add_transmission_extent
to_send-add_transmission_extent b start finish h = ground arith

to_send-gaps :
    (b lo start upper : ℕ) (cs : List ReceptionClaim)
    → Separated lo cs
    → upper < u32
    → to_send b (gaps start upper cs) ≡ (leb start b && ltb b upper && not (covered b cs))
unfolding gaps
to_send-gaps b lo start upper [] s h =
    ground (arith, to_send-add_transmission_extent b start upper h)
to_send-gaps b lo start upper (c ∷ cs) (p, q, r, s) h =
    let next : ℕ = if ltb start (end_of c) then end_of c else start in
    ground (
      arith,
      to_send-append b (add_transmission_extent start (min c.offset upper)) (gaps next upper cs),
      to_send-add_transmission_extent b start (min c.offset upper) (omega arith),
      to_send-gaps b (c.offset + c.length + 1) next upper cs s h,
      covered_below (c.offset + c.length + 1) b cs s,
    )

-- What a report makes the sender retransmit, where the claims of earlier reports are separated, the
-- new ones are not empty, and all of them and the upper bound stay below 2 ^ 32: byte `b` is in an
-- extent just if it lies within the report's bounds, and neither this report nor an earlier one
-- claims it.
pub gaps-merge_claims :
    (b lower upper : ℕ) (news cs : List ReceptionClaim)
    → All IsNew news
    → Separated 0 cs
    → upper < u32
    → to_send b (gaps lower upper (merge_claims news cs))
      ≡ (leb lower b && ltb b upper && not (covered b news || covered b cs))
gaps-merge_claims b lower upper news cs v s h =
    let (x, y) = merge_claims-covered b news cs v s in
    rw (← x) (to_send-gaps b 0 lower upper (merge_claims news cs) y h)

abbrev Within : ℕ → ReceptionClaim → Type 0
Within size c = c.offset + c.length ≤ size

pub is_complete_all :
    (size : ℕ) (cs : List ReceptionClaim)
    → is_complete size cs ≡ true
    → (b : ℕ) → b < size
    → covered b cs ≡ true
unfolding is_complete
is_complete_all size [] e b h = cc
is_complete_all size (c ∷ cs) e b h = ground arith

All-is_complete :
    (size : ℕ) (cs : List ReceptionClaim)
    → Separated 0 cs
    → All (Within size) cs
    → 0 < size
    → ((b : ℕ) → b < size → covered b cs ≡ true)
    → is_complete size cs ≡ true
unfolding is_complete
All-is_complete size [] s w p f = cc (f 0 p)
All-is_complete size (c ∷ cs) (sp, sq, sr, s) (w, ws) p f = ground (
  arith,
  f 0 p,
  f (c.offset + c.length),
  covered_below (c.offset + c.length + 1) 0 cs s (omega arith),
  covered_below (c.offset + c.length + 1) (c.offset + c.length) cs s (omega arith),
)

-- Where the claims are separated and lie within a red part that is not empty, the test on the first
-- claim holds just if every byte of the red part has been claimed.
pub is_complete_iff :
    (size : ℕ) (cs : List ReceptionClaim)
    → Separated 0 cs
    → All (Within size) cs
    → 0 < size
    → (is_complete size cs ≡ true) ↔ ((b : ℕ) → b < size → covered b cs ≡ true)
is_complete_iff size cs s w p = (is_complete_all size cs, All-is_complete size cs s w p)

-- The claims are non-empty, so those of bytes of the red part lie within it.
covered-Within :
    (size lo : ℕ) (cs : List ReceptionClaim)
    → Separated lo cs
    → ((b : ℕ) → covered b cs ≡ true → b < size)
    → All (Within size) cs
covered-Within size lo [] s f = tt
covered-Within size lo (c ∷ cs) (sp, sq, sr, s) f = (
  ground (arith, f (c.offset + c.length - 1)),
  covered-Within size (c.offset + c.length + 1) cs s (λ b e. f b (ground arith)),
)

pub is_complete-covered :
    (size : ℕ) (cs : List ReceptionClaim)
    → Separated 0 cs
    → ((b : ℕ) → covered b cs ≡ true → b < size)
    → 0 < size
    → ((b : ℕ) → b < size → covered b cs ≡ true)
    → is_complete size cs ≡ true
is_complete-covered size cs s w p f = All-is_complete size cs s (covered-Within size 0 cs s w) p f
