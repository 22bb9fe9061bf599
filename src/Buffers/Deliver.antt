-- ===== src/Buffers/Deliver.antt =====
-- What is delivered is the red part of the block.
use mini_ltp.Prelude.{
  ℕ, ◌+◌, ◌-◌, ◌<◌, ◌≡◌, inl, inr, Bool, true, false, ltb, if◌then◌else◌, arith, Option, none, some,
  Bool-cases, ap, min,
}
use mini_ltp.Reception.{is_whole}
use mini_ltp.Reception.Disjoint.{received, int_limit}
use mini_ltp.Reception.Whole.{is_whole_iff}
use mini_ltp.Buffers.{Buffers, Import, Arrival, Acceptance, take_in, delivered}
use mini_ltp.Buffers.Held.{Held}
use mini_ltp.Buffers.Store.{IsStored}
use mini_ltp.Buffers.Acquire.{IsSegment, take_in-Stepped}
use mini_ltp.Buffers.Reach.{Reached, room-Fits, Reached-IsAcquiring}

module _ (content : ℕ → ℕ) (n : ℕ) (recv : ℕ → Bool) (all : (i : ℕ) → i < n → recv i ≡ true)
    (only : (i : ℕ) → recv i ≡ true → i < n) where
  -- A buffer for a range that is full ends with the range or with the block.
  Held-size :
      (lo hi size : ℕ) (buffer : ℕ → ℕ) → Held content lo hi recv buffer size → size ≡ min n hi - lo
  Held-size lo hi size buffer v = elim (Bool-cases (ltb 0 size)) [
    | inl p ↦
        let (r, top) = v.ends (ground arith) in
        let inside : lo + size - 1 < n = only (lo + size - 1) r in
        elim (Bool-cases (ltb size (min n hi - lo))) [
          | inl short ↦
              let (far, e) =
                v.holds (lo + size) (all (lo + size) (ground arith)) (omega arith) (ground arith) in
              absurd (omega arith)
          | inr full ↦ ground arith
        ]
    | inr z ↦ elim (Bool-cases (ltb lo (min n hi))) [
      | inl short ↦
          let (far, e) = v.holds lo (all lo (ground arith)) (omega arith) (ground arith) in
          absurd (ground arith)
      | inr full ↦ ground arith
    ]
  ]

  delivered_lem :
      (m : ℕ) (b : Buffers)
      → n < int_limit
      → IsStored m content recv b
      → (i : ℕ) → delivered b i ≡ (if ltb i n then some (content i) else none)
  unfolding delivered
  delivered_lem m b h v i =
      let heap_size : b.block_obj_size ≡ min n m - 0 =
        Held-size 0 m b.block_obj_size b.heap_buffer v.heap in
      let file_size : b.block_file_size ≡ min n int_limit - m =
        Held-size m int_limit b.block_file_size b.file_buffer v.file in
      elim (Bool-cases (ltb i n)) [
        | inr beyond ↦
            let no_heap : ltb i b.block_obj_size ≡ false = ground (arith, heap_size) in
            let no_file : ltb (i - b.block_obj_size) b.block_file_size ≡ false =
              ground (arith, heap_size, file_size) in
            rw (beyond, no_heap, no_file)
        | inl inside ↦ elim (Bool-cases (ltb i m)) [
          | inl heap ↦
              let at : i - 0 ≡ i = omega arith in
              let (far, e) = v.heap.holds i (all i (ground arith)) (omega arith) (ground arith) in
              let some_heap : ltb i b.block_obj_size ≡ true = ground arith in
              rw (inside, some_heap) (ap some (rw at at e))
          | inr file ↦
              let (far, e) = v.file.holds i (all i (ground arith)) (ground arith) (ground arith) in
              let whole_heap : b.block_obj_size ≡ m = ground (arith, heap_size) in
              let no_heap : ltb i b.block_obj_size ≡ false = ground arith in
              let some_file : ltb (i - m) b.block_file_size ≡ true = ground arith in
              rw (inside, no_heap, whole_heap, some_file) (ap some e)
        ]
      ]

module _ (n : ℕ) (content : ℕ → ℕ) where
  -- What a client reads where the red part of an import session is delivered.
  abbrev pub red_part : ℕ → Option ℕ
  red_part i = if ltb i n then some (content i) else none

module _ (m n limit : ℕ) (content : ℕ → ℕ)
    (sessions max_import_sessions nbr client_svc_id : ℕ) where
  -- The segments of a block whose red part ends within the ints arrive in any order, again or with
  -- overlaps, the first one starts the import session, and the limit of the heap buffer does not
  -- change. Whenever the test for reception of the whole red part holds and the end of the red part
  -- is known, the object that is delivered consists of just the bytes of the red part, in order.
  pub delivered-red_part :
      (i : Import)
      → Reached m n limit content sessions max_import_sessions nbr client_svc_id i
      → n < int_limit
      → 0 < i.session.red_part_length
      → is_whole i.session ≡ true
      → (b : ℕ) → delivered i.buffers b ≡ red_part n content b
  delivered-red_part i r h p whole =
      let (v, room) =
        Reached-IsAcquiring m n limit content sessions max_import_sessions nbr client_svc_id i r in
      let end : i.session.red_part_length ≡ n = elim v.length [
        | inl none_yet ↦ absurd (omega arith)
        | inr e ↦ e
      ] in
      delivered_lem content n (λ b. received b i.session.red_segments)
        (λ b l. (is_whole_iff i.session v.receiving p).0 whole b (omega arith)) v.bounded m
        i.buffers h v.stored

  -- A further segment of the block that arrives at such a session is taken in without an error and
  -- without a write behind the end of the heap buffer.
  pub take_in-accepted :
      (i : Import)
      → Reached m n limit content sessions max_import_sessions nbr client_svc_id i
      → (a : Arrival) → IsSegment n content a
      → (i' : Import) × (upper : ℕ) × (take_in limit m a i ≡ Acceptance.accepted i' upper)
  take_in-accepted i r a s =
      let (v, room) =
        Reached-IsAcquiring m n limit content sessions max_import_sessions nbr client_svc_id i r in
      let (i', upper, e, w, t) =
        take_in-Stepped m n limit content a i s v (room-Fits m n limit content a i s room) in
      (i', upper, e)
