-- ===== src/Buffers/Overrun.antt =====
-- A first segment that makes the heap buffer too small.
use mini_ltp.Prelude.{
  ℕ, ◌+◌, ◌-◌, ◌<◌, ◌≡◌, refl, [], ◌∷◌, true, false, ltb, ◌==◌, arith, none, some,
}
use mini_ltp.Sdnv.{u32}
use mini_ltp.Reception.{
  RecvSeg, Place, insert_data_segment, is_beyond_red_part, search_place, is_free, overlaps_previous,
  overlaps_next, seg_upper_bound, insert_segment,
}
use mini_ltp.Reception.Disjoint.{int_limit}
use mini_ltp.Import.{is_end_of_red_part}
use mini_ltp.Buffers.{
  Import, Arrival, Acceptance, empty_session, empty_buffers, heap_buffer_size_for,
  start_import_session, bytes_for_heap, write_heap, write_rest, write_content, stored_with,
  accept_red_content, note_ends, take_in,
}

abbrev no_bytes : RecvSeg
no_bytes = record { offset = 0; length = 0 }

-- A segment without bytes at the start of the block, which claims to end the red part.
abbrev pub empty_end : ℕ → (ℕ → ℕ) → Arrival
empty_end code cursor = record {
  red = record { seg_type_code = code; seg = no_bytes; ckpt_serial_nbr = 1; rpt_serial_nbr = 0 };
  cursor = cursor;
}

module _ (nbr client_svc_id : ℕ) where
  abbrev bare : Import
  bare = record { session = empty_session nbr client_svc_id; buffers = empty_buffers 0 }

  abbrev after_empty : Import
  after_empty = record bare { session = record bare.session { red_segments = no_bytes ∷ [] } }

  started_bare :
      (m code sessions max_import_sessions : ℕ)
      → 0 < m
      → is_end_of_red_part code ≡ true
      → sessions < max_import_sessions
      → start_import_session sessions max_import_sessions m nbr client_svc_id code no_bytes
        ≡ some bare
  unfolding start_import_session heap_buffer_size_for
  started_bare m code sessions max_import_sessions p end free =
      let room : ltb sessions max_import_sessions ≡ true = ground arith in
      let small : ltb 0 m ≡ true = ground arith in rw (room, end, small)

  empty_taken :
      (m limit code : ℕ) (cursor : ℕ → ℕ)
      → take_in limit m (empty_end code cursor) bare ≡ Acceptance.accepted after_empty 0
  unfolding take_in note_ends accept_red_content insert_data_segment is_beyond_red_part search_place
      is_free overlaps_previous overlaps_next seg_upper_bound insert_segment
  empty_taken m limit code cursor = refl

  module _ (seg : RecvSeg) (p : 0 < seg.offset) (q : 0 < seg.length)
      (h : seg.offset + seg.length < int_limit) where
    upper_lem : seg_upper_bound seg ≡ seg.offset + seg.length
    unfolding seg_upper_bound
    upper_lem = omega (arith, h)

    place_behind : search_place seg.offset none (no_bytes ∷ []) ≡ Place.between (some no_bytes) none
    unfolding search_place
    place_behind =
        let later : (0 == seg.offset) ≡ false = ground arith in
        let behind : ltb seg.offset 0 ≡ false = ground arith in rw (later, behind)

    free_behind : is_free seg (Place.between (some no_bytes) none) ≡ true
    unfolding is_free overlaps_previous overlaps_next seg_upper_bound
    free_behind = let behind : ltb seg.offset 0 ≡ false = ground arith in rw behind

    not_beyond : (upper : ℕ) → is_beyond_red_part after_empty.session upper ≡ false
    unfolding is_beyond_red_part
    not_beyond upper = refl

    kept_behind : (insert_data_segment false after_empty.session seg).1 ≡ seg.offset + seg.length
    unfolding insert_data_segment
    kept_behind = rw (not_beyond (seg_upper_bound seg), place_behind, free_behind, upper_lem)

    heap_count : (m : ℕ) → seg.offset < m → 0 < bytes_for_heap m seg
    unfolding bytes_for_heap
    heap_count m l = ground arith

    no_room :
        (m : ℕ) (cursor : ℕ → ℕ)
        → seg.offset < m
        → write_heap seg.offset (bytes_for_heap m seg) cursor after_empty.buffers ≡ none
    unfolding write_heap
    no_room m cursor l =
        let some_bytes : (bytes_for_heap m seg == 0) ≡ false = ground (arith, heap_count m l) in
        let behind : ltb 0 (seg.offset + bytes_for_heap m seg) ≡ true =
          ground (arith, heap_count m l) in
        rw (some_bytes, behind)

    overrun_next :
        (m limit : ℕ) (a : Arrival)
        → a.red.seg ≡ seg
        → seg.offset < m
        → take_in limit m a after_empty ≡ Acceptance.overrun
    unfolding take_in accept_red_content note_ends stored_with write_content write_rest
    overrun_next m limit a e l =
        let some_bound : (seg.offset + seg.length == 0) ≡ false = ground arith in
        let no_failure : (seg.offset + seg.length == u32 - 1) ≡ false = ground arith in
        rw (e, kept_behind, some_bound, no_failure, no_room m a.cursor l)

  -- There is room for one more import session, and the heap buffer takes `m` bytes at most. A first
  -- segment without bytes at the start of the block that claims to end the red part starts a session
  -- whose heap buffer has no bytes, and is discarded. The next segment that starts behind the first
  -- byte of the block and before byte `m` is then written behind the end of that buffer.
  pub take_in-overrun :
      (m limit code sessions max_import_sessions : ℕ) (cursor : ℕ → ℕ) (a : Arrival)
      → is_end_of_red_part code ≡ true
      → sessions < max_import_sessions
      → 0 < a.red.seg.offset
      → a.red.seg.offset < m
      → 0 < a.red.seg.length
      → a.red.seg.offset + a.red.seg.length < int_limit
      → (i i' : Import) × (start_import_session sessions max_import_sessions m nbr client_svc_id
            code
            (empty_end code cursor).red.seg
          ≡ some i)
        × (take_in limit m (empty_end code cursor) i ≡ Acceptance.accepted i' 0)
        × (take_in limit m a i' ≡ Acceptance.overrun)
  take_in-overrun m limit code sessions max_import_sessions cursor a end free p l q h = (
    bare,
    after_empty,
    started_bare m code sessions max_import_sessions (omega arith) end free,
    empty_taken m limit code cursor,
    overrun_next a.red.seg p q h m limit a refl l,
  )
