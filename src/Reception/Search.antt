-- ===== src/Reception/Search.antt =====
-- The search for a segment's place: a place is free just if no byte of the segment has been received.
use mini_ltp.Prelude.{
  ℕ, ◌+◌, ◌≤◌, ◌<◌, ◌≡◌, List, [], ◌∷◌, false, true, ◌||◌, arith, Option, none, some, ltb, ◌⊎◌, inl,
  inr, Bool-cases, ltb→lt, refl,
}
use mini_ltp.Sdnv.{u32}
use mini_ltp.Claims.Cover.{in_range}
use mini_ltp.Reception.{
  RecvSeg, Place, search_place, is_free, insert_segment, seg_upper_bound, overlaps_previous,
  overlaps_next,
}
use mini_ltp.Reception.Disjoint.{received, received_below, total, Disjoint, Disjoint-le, int_limit}

pub received-insert_segment :
    (b : ℕ) (seg : RecvSeg) (ss : List RecvSeg)
    → received b (insert_segment seg ss) ≡ (in_range b seg.offset seg.length || received b ss)
unfolding insert_segment
received-insert_segment b seg [] = ground arith
received-insert_segment b seg (s ∷ ss) = ground (arith, received-insert_segment b seg ss)

pub total-insert_segment :
    (seg : RecvSeg) (ss : List RecvSeg) → total (insert_segment seg ss) ≡ seg.length + total ss
unfolding insert_segment
total-insert_segment seg [] = ground arith
total-insert_segment seg (s ∷ ss) = ground (arith, total-insert_segment seg ss)

-- A segment that fits among others has none of their bytes.
pub inserted_new :
    (b : ℕ) (seg : RecvSeg) (lo hi : ℕ) (ss : List RecvSeg)
    → Disjoint lo hi (insert_segment seg ss)
    → in_range b seg.offset seg.length ≡ true
    → received b ss ≡ false
unfolding insert_segment
inserted_new b seg lo hi [] d e = refl
inserted_new b seg lo hi (s ∷ ss) d e = elim (Bool-cases (ltb seg.offset s.offset)) [
  | inl lt ↦
      let d' : Disjoint lo hi (seg ∷ s ∷ ss) = rw lt at d in
      received_below (seg.offset + seg.length) hi b (s ∷ ss) d'.2 (ground arith)
  | inr ge ↦
      let d' : Disjoint lo hi (s ∷ insert_segment seg ss) = rw ge at d in
      let later : received b ss ≡ false = inserted_new b seg (s.offset + s.length) hi ss d'.2 e in
      elim (Bool-cases (in_range b s.offset s.length)) [
        | inl both ↦
            let low : received b (insert_segment seg ss) ≡ false =
              received_below (s.offset + s.length) hi b (insert_segment seg ss) d'.2
                (ground arith) in
            absurd (ground (arith, low, received-insert_segment b seg ss))
        | inr not_s ↦ ground arith
      ]
]

ordered : (a b : ℕ) → (a < b) ⊎ (a ≡ b) ⊎ (b < a)
ordered a b = elim (Bool-cases (ltb a b)) [
  | inl lt ↦ inl (ltb→lt a b lt)
  | inr ge ↦ elim (Bool-cases (ltb b a)) [
    | inl gt ↦ inr (inr (ltb→lt b a gt))
    | inr le ↦ inr (inl (ground arith))
  ]
]

-- The segment before a part of the list ends where that part may start.
abbrev EndsAt : Option RecvSeg → ℕ → Type 0
EndsAt none lo = lo ≡ 0
EndsAt (some p) lo = p.offset + p.length ≡ lo

search_last :
    (seg : RecvSeg) (prev : Option RecvSeg)
    → search_place seg.offset prev [] ≡ Place.between prev none
unfolding search_place
search_last seg prev = refl

module _ (seg : RecvSeg) (prev : Option RecvSeg) (s : RecvSeg) (ss : List RecvSeg) where
  -- A step of the search, and the same step of the insertion.
  search_after :
      s.offset < seg.offset
      → search_place seg.offset prev (s ∷ ss) ≡ search_place seg.offset (some s) ss
  unfolding search_place
  search_after h = ground arith

  search_before :
      seg.offset < s.offset → search_place seg.offset prev (s ∷ ss) ≡ Place.between prev (some s)
  unfolding search_place
  search_before h = ground arith

  search_same : seg.offset ≡ s.offset → search_place seg.offset prev (s ∷ ss) ≡ Place.taken
  unfolding search_place
  search_same h = ground arith

  insert_after : s.offset < seg.offset → insert_segment seg (s ∷ ss) ≡ s ∷ insert_segment seg ss
  unfolding insert_segment
  insert_after h = ground arith

  insert_before : seg.offset < s.offset → insert_segment seg (s ∷ ss) ≡ seg ∷ s ∷ ss
  unfolding insert_segment
  insert_before h = ground arith

-- What the two tests on the neighbours say.
free_after :
    (seg : RecvSeg) (prev next : Option RecvSeg) (lo : ℕ)
    → EndsAt prev lo
    → lo < u32
    → is_free seg (Place.between prev next) ≡ true
    → lo ≤ seg.offset
unfolding is_free overlaps_previous overlaps_next seg_upper_bound
free_after seg none next lo e h f = omega (arith, e)
free_after seg (some p) next lo e h f = ground arith

free_before :
    (seg : RecvSeg) (prev : Option RecvSeg) (s : RecvSeg)
    → seg.offset + seg.length < u32
    → is_free seg (Place.between prev (some s)) ≡ true
    → seg.offset + seg.length ≤ s.offset
unfolding is_free overlaps_previous overlaps_next seg_upper_bound
free_before seg prev s h f = ground arith

not_free_taken : (seg : RecvSeg) → is_free seg Place.taken ≡ false
unfolding is_free
not_free_taken seg = refl

module _ (seg : RecvSeg) (some_data : 0 < seg.length) where
  free_last :
      (prev : Option RecvSeg) (lo hi : ℕ)
      → EndsAt prev lo
      → hi < int_limit
      → seg.offset + seg.length ≤ hi
      → lo ≤ hi
      → is_free seg (search_place seg.offset prev []) ≡ true
      → Disjoint lo hi (insert_segment seg [])
  unfolding search_place insert_segment
  free_last prev lo hi e h q d f =
      (free_after seg prev none lo e (omega arith) f, some_data, omega arith)

  pub free_place :
      (prev : Option RecvSeg) (lo hi : ℕ) (ss : List RecvSeg)
      → EndsAt prev lo
      → hi < int_limit
      → seg.offset + seg.length ≤ hi
      → Disjoint lo hi ss
      → is_free seg (search_place seg.offset prev ss) ≡ true
      → Disjoint lo hi (insert_segment seg ss)
  free_place prev lo hi [] e h q d f = free_last prev lo hi e h q d f
  free_place prev lo hi (s ∷ ss) e h q (a, b, d) f = elim (ordered seg.offset s.offset) [
    | inl lt ↦
        let f' : is_free seg (Place.between prev (some s)) ≡ true =
          rw (search_before seg prev s ss lt) at f in
        let top : s.offset + s.length ≤ hi = Disjoint-le (s.offset + s.length) hi ss d in
        rw (insert_before seg prev s ss lt) (
          free_after seg prev (some s) lo e (omega arith) f',
          some_data,
          (free_before seg prev s (omega arith) f', b, d),
        )
    | inr (inl eq) ↦ cc (not_free_taken seg, search_same seg prev s ss eq, f)
    | inr (inr gt) ↦ rw (insert_after seg prev s ss gt) (
      a,
      b,
      free_place (some s) (s.offset + s.length) hi ss refl h q d
          (rw (search_after seg prev s ss gt) at f),
    )
  ]

-- A byte of the segment that has been received.
abbrev pub Overlap : RecvSeg → List RecvSeg → Type 0
Overlap seg ss = (b : ℕ) × (in_range b seg.offset seg.length ≡ true) × (received b ss ≡ true)

abbrev with_previous : Option RecvSeg → List RecvSeg → List RecvSeg
with_previous none ss = ss
with_previous (some p) ss = p ∷ ss

abbrev StartsBefore : RecvSeg → Option RecvSeg → Type 0
StartsBefore seg none = Unit {0}
StartsBefore seg (some p) = p.offset < seg.offset

Overlap-with_previous :
    (seg : RecvSeg) (prev : Option RecvSeg) (ss : List RecvSeg)
    → Overlap seg ss
    → Overlap seg (with_previous prev ss)
Overlap-with_previous seg none ss o = o
Overlap-with_previous seg (some p) ss (b, x, y) = (b, x, ground arith)

module _ (seg : RecvSeg) (some_data : 0 < seg.length) where
  Overlap-previous :
      (prev : Option RecvSeg) (ss : List RecvSeg)
      → StartsBefore seg prev
      → overlaps_previous seg prev ≡ true
      → Overlap seg (with_previous prev ss)
  unfolding overlaps_previous seg_upper_bound
  Overlap-previous none ss v f = ground arith
  Overlap-previous (some p) ss v f = (seg.offset, ground arith, ground arith)

  Overlap-next :
      (s : RecvSeg) (ss : List RecvSeg)
      → 0 < s.length
      → seg.offset < s.offset
      → overlaps_next seg (some s) ≡ true
      → Overlap seg (s ∷ ss)
  unfolding overlaps_next seg_upper_bound
  Overlap-next s ss p h f = (s.offset, ground arith, ground arith)

  not_free_between :
      (prev next : Option RecvSeg)
      → is_free seg (Place.between prev next) ≡ false
      → (overlaps_previous seg prev ≡ true) ⊎ (overlaps_next seg next ≡ true)
  unfolding is_free
  not_free_between prev next f = ground arith

  no_next : overlaps_next seg none ≡ false
  unfolding overlaps_next
  no_next = refl

  pub not_free :
      (prev : Option RecvSeg) (lo hi : ℕ) (ss : List RecvSeg)
      → StartsBefore seg prev
      → Disjoint lo hi ss
      → is_free seg (search_place seg.offset prev ss) ≡ false
      → Overlap seg (with_previous prev ss)
  not_free prev lo hi [] v d f =
      elim (not_free_between prev none (rw (search_last seg prev) at f)) [
        | inl o ↦ Overlap-previous prev [] v o
        | inr o ↦ cc (no_next, o)
      ]
  not_free prev lo hi (s ∷ ss) v (a, p, d) f = elim (ordered seg.offset s.offset) [
    | inl lt ↦ elim (not_free_between prev (some s) (rw (search_before seg prev s ss lt) at f)) [
      | inl o ↦ Overlap-previous prev (s ∷ ss) v o
      | inr o ↦ Overlap-with_previous seg prev (s ∷ ss) (Overlap-next s ss p lt o)
    ]
    | inr (inl eq) ↦
        Overlap-with_previous seg prev (s ∷ ss) (seg.offset, ground arith, ground arith)
    | inr (inr gt) ↦ Overlap-with_previous seg prev (s ∷ ss) (
        not_free (some s) (s.offset + s.length) hi ss gt d
          (rw (search_after seg prev s ss gt) at f))
  ]
