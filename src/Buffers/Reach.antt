-- ===== src/Buffers/Reach.antt =====
-- The sessions that are reached as the segments of a block arrive.
use mini_ltp.Prelude.{
  ℕ, ◌+◌, ◌≤◌, ◌<◌, ◌≡◌, refl, ◌⊎◌, inl, inr, true, false, ltb, arith, some, Bool-cases,
}
use mini_ltp.Claims.{add32}
use mini_ltp.Reception.{RecvSeg}
use mini_ltp.Import.{is_end_of_red_part}
use mini_ltp.Buffers.{
  Import, Arrival, Acceptance, empty_session, empty_buffers, heap_buffer_size_for,
  start_import_session, take_in,
}
use mini_ltp.Reception.Search.{Overlap}
use mini_ltp.Buffers.Write.{Fits}
use mini_ltp.Buffers.Acquire.{IsSegment, IsAcquiring, Stepped, take_in-Stepped}

module _ (m n limit : ℕ) (content : ℕ → ℕ) where
  -- The session and its buffers after some segments of the block: the first one starts the session,
  -- and each has been taken in.
  pub data Reached (sessions max_import_sessions nbr client_svc_id : ℕ) : Import → Type 0 where
    first :
        (a : Arrival) (i i' : Import) (upper : ℕ)
        → IsSegment n content a
        → start_import_session sessions max_import_sessions m nbr client_svc_id a.red.seg_type_code
            a.red.seg
          ≡ some i
        → take_in limit m a i ≡ Acceptance.accepted i' upper
        → Reached sessions max_import_sessions nbr client_svc_id i'
    next :
        (a : Arrival) (i i' : Import) (upper : ℕ)
        → Reached sessions max_import_sessions nbr client_svc_id i
        → IsSegment n content a
        → take_in limit m a i ≡ Acceptance.accepted i' upper
        → Reached sessions max_import_sessions nbr client_svc_id i'

  -- The heap buffer is as large as it may be, or holds the whole red part.
  abbrev HasRoom : Import → Type 0
  HasRoom i =
      (i.buffers.heap_buffer_size ≡ m)
      ⊎ ((i.session.red_part_length ≡ n)
          × (n ≤ i.buffers.heap_buffer_size)
          × (i.buffers.heap_buffer_size ≤ m))

  pub room-Fits :
      (a : Arrival) (i : Import) → IsSegment n content a → HasRoom i → Fits m a.red.seg i.buffers
  room-Fits a i s (inl e) = inl e
  room-Fits a i s (inr (e, h, k)) = inr (omega (arith, s.inside), k)

  -- One more segment, at a session whose buffers have room for it.
  module _ (a : Arrival) (i i' : Import) (upper : ℕ) (s : IsSegment n content a)
      (v : IsAcquiring m n content i) (fits : Fits m a.red.seg i.buffers)
      (taken : take_in limit m a i ≡ Acceptance.accepted i' upper) where
    stepped : IsAcquiring m n content i' × Stepped m n limit content a i s v fits i'
    stepped =
        let (j, u, e, w, t) = take_in-Stepped m n limit content a i s v fits in
        let same : j ≡ i' = cc (e, taken) in
        let out : IsAcquiring m n content j × Stepped m n limit content a i s v fits j = (w, t) in
        rw (← same) out

    room_after :
        (is_end_of_red_part a.red.seg_type_code ≡ false → HasRoom i)
        → Stepped m n limit content a i s v fits i'
        → (Overlap a.red.seg i.session.red_segments ⊎ (0 < i.session.red_part_length)
            → i' ≡ i
            → HasRoom i')
        → HasRoom i'
    room_after old (inl (same, why)) unchanged = unchanged why same
    room_after old (inr (size, inl (end, len))) unchanged = elim fits [
      | inl e ↦ inl (omega arith)
      | inr (h, k) ↦ inr (len, omega (arith, s.last end), omega arith)
    ]
    room_after old (inr (size, inr (more, len))) unchanged = elim (old more) [
      | inl e ↦ inl (omega arith)
      | inr (e, h, k) ↦ inr (omega arith, omega arith, omega arith)
    ]

  module _ (sessions max_import_sessions nbr client_svc_id : ℕ) where
    started :
        (code : ℕ) (seg : RecvSeg) (i : Import)
        → start_import_session sessions max_import_sessions m nbr client_svc_id code seg ≡ some i
        → i ≡ record {
          session = empty_session nbr client_svc_id;
          buffers = empty_buffers (heap_buffer_size_for m code seg);
        }
    unfolding start_import_session
    started code seg i e = elim (Bool-cases (ltb sessions max_import_sessions)) [
      | inl free ↦ cc (rw free at e)
      | inr full ↦ absurd (cc (rw full at e))
    ]

    empty-IsAcquiring :
        (size : ℕ)
        → IsAcquiring m n content
            (record { session = empty_session nbr client_svc_id; buffers = empty_buffers size })
    empty-IsAcquiring size = record {
      receiving = record {
        disjoint = omega arith;
        counted = refl;
        int_length = omega arith;
        within = λ p. absurd (omega arith);
      };
      stored = record {
        heap = record { holds = λ b r l h. absurd (cc r); ends = λ p. absurd (omega arith) };
        file = record { holds = λ b r l h. absurd (cc r); ends = λ p. absurd (omega arith) };
      };
      bounded = λ b r. absurd (cc r);
      length = inl refl;
    }

    heap_buffer_size_cases :
        (a : Arrival)
        → IsSegment n content a
        → (heap_buffer_size_for m a.red.seg_type_code a.red.seg ≡ m)
          ⊎ ((is_end_of_red_part a.red.seg_type_code ≡ true)
              × (heap_buffer_size_for m a.red.seg_type_code a.red.seg
                  ≡ a.red.seg.offset + a.red.seg.length)
              × (a.red.seg.offset + a.red.seg.length ≤ m))
    unfolding heap_buffer_size_for
    heap_buffer_size_cases a s =
        let no_wrap : add32 a.red.seg.offset a.red.seg.length
            ≡ a.red.seg.offset + a.red.seg.length =
          omega (arith, s.int_end) in
        rw no_wrap (ground arith)

    abbrev start_of : Arrival → Import
    start_of a = record {
      session = empty_session nbr client_svc_id;
      buffers = empty_buffers (heap_buffer_size_for m a.red.seg_type_code a.red.seg);
    }

    first-HasRoom :
        (a : Arrival) (i' : Import) (upper : ℕ)
        → IsSegment n content a
        → take_in limit m a (start_of a) ≡ Acceptance.accepted i' upper
        → IsAcquiring m n content i' × HasRoom i'
    first-HasRoom a i' upper s taken =
        let v : IsAcquiring m n content (start_of a) =
          empty-IsAcquiring (heap_buffer_size_for m a.red.seg_type_code a.red.seg) in
        let size = heap_buffer_size_cases a s in
        let fits : Fits m a.red.seg (start_of a).buffers = elim size [
          | inl e ↦ inl e
          | inr (end, e, h) ↦ inr (omega arith, omega arith)
        ] in
        let (w, t) = stepped a (start_of a) i' upper s v fits taken in
        (
          w,
          room_after a (start_of a) i' upper s v fits taken
              (λ more. elim size [ inl e ↦ inl e | inr (end, e, h) ↦ absurd (cc (end, more)) ]) t
              (λ why same. elim why [
                | inl (b, x, r) ↦ absurd (cc r)
                | inr p ↦ absurd (omega arith)
              ]),
        )

    -- A session that is reached is in good order, and its heap buffer has room for what may come.
    pub Reached-IsAcquiring :
        (i : Import)
        → Reached sessions max_import_sessions nbr client_svc_id i
        → IsAcquiring m n content i × HasRoom i
    Reached-IsAcquiring i' (first a i _ upper s start taken) =
        first-HasRoom a i' upper s (rw (started a.red.seg_type_code a.red.seg i start) at taken)
    Reached-IsAcquiring i' (next a i _ upper before s taken) =
        let (v, room) = Reached-IsAcquiring i before in
        let fits : Fits m a.red.seg i.buffers = room-Fits a i s room in
        let (w, t) = stepped a i i' upper s v fits taken in
        (w, room_after a i i' upper s v fits taken (λ more. room) t (λ why same. rw same room))
