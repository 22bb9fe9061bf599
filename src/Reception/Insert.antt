-- ===== src/Reception/Insert.antt =====
-- The segment that arrives is kept just if none of its bytes has been received.
use mini_ltp.Prelude.{
  ℕ, ◌+◌, ◌-◌, ◌≤◌, ◌<◌, ◌≡◌, false, true, ◌||◌, arith, none, ◌⊎◌, inl, inr, Bool-cases, refl,
}
use mini_ltp.Claims.{add32}
use mini_ltp.Claims.Cover.{in_range}
use mini_ltp.Reception.{
  RecvSeg, ImportSession, search_place, is_free, insert_segment, insert_data_segment,
  seg_upper_bound, is_beyond_red_part,
}
use mini_ltp.Reception.Disjoint.{received, Disjoint, total_le, IsReceiving, int_limit}
use mini_ltp.Reception.Search.{
  Overlap, free_place, not_free, received-insert_segment, inserted_new, total-insert_segment,
}

-- The outcome for a segment that is kept, and for one that is discarded.
abbrev pub Kept : ImportSession → RecvSeg → ImportSession × ℕ → Type 0
Kept session seg (session', upper) =
    (upper ≡ seg.offset + seg.length)
    × IsReceiving session'
    × ((b : ℕ)
        → received b session'.red_segments
          ≡ (in_range b seg.offset seg.length || received b session.red_segments))
    × ((b : ℕ) → in_range b seg.offset seg.length ≡ true → received b session.red_segments ≡ false)

abbrev pub Discarded : ImportSession → RecvSeg → ImportSession × ℕ → Type 0
Discarded session seg r =
    (r ≡ (session, 0))
    × (Overlap seg session.red_segments
        ⊎ (0 < session.red_part_length × session.red_part_length < seg.offset + seg.length))

module _ (session : ImportSession) (seg : RecvSeg) where
  beyond :
      seg.offset + seg.length < int_limit
      → is_beyond_red_part session (seg_upper_bound seg) ≡ true
      → 0 < session.red_part_length × session.red_part_length < seg.offset + seg.length
  unfolding is_beyond_red_part seg_upper_bound
  beyond h e = ground arith

  not_beyond :
      seg.offset + seg.length < int_limit
      → session.red_part_length < int_limit
      → is_beyond_red_part session (seg_upper_bound seg) ≡ false
      → 0 < session.red_part_length
      → seg.offset + seg.length ≤ session.red_part_length
  unfolding is_beyond_red_part seg_upper_bound
  not_beyond h l e p = ground arith

  abbrev inserted : ImportSession
  inserted = record session {
    red_part_received = add32 session.red_part_received seg.length;
    red_segments = insert_segment seg session.red_segments;
  }

  insert_beyond :
      is_beyond_red_part session (seg_upper_bound seg) ≡ true
      → insert_data_segment false session seg ≡ (session, 0)
  unfolding insert_data_segment
  insert_beyond e = rw e

  insert_overlap :
      is_beyond_red_part session (seg_upper_bound seg) ≡ false
      → is_free seg (search_place seg.offset none session.red_segments) ≡ false
      → insert_data_segment false session seg ≡ (session, 0)
  unfolding insert_data_segment
  insert_overlap x y = rw (x, y)

  insert_free :
      is_beyond_red_part session (seg_upper_bound seg) ≡ false
      → is_free seg (search_place seg.offset none session.red_segments) ≡ true
      → insert_data_segment false session seg ≡ (inserted, seg_upper_bound seg)
  unfolding insert_data_segment
  insert_free x y = rw (x, y)

  no_wrap : seg.offset + seg.length < int_limit → seg_upper_bound seg ≡ seg.offset + seg.length
  unfolding seg_upper_bound
  no_wrap h = omega arith

  inserted-IsReceiving :
      IsReceiving session
      → 0 < seg.length
      → seg.offset + seg.length < int_limit
      → is_beyond_red_part session (seg_upper_bound seg) ≡ false
      → is_free seg (search_place seg.offset none session.red_segments) ≡ true
      → IsReceiving inserted
  inserted-IsReceiving v p h near free =
      let fits : Disjoint 0 (int_limit - 1) (insert_segment seg session.red_segments) =
        free_place seg p none 0 (int_limit - 1) session.red_segments refl (omega arith)
          (omega arith) v.disjoint free in
      record {
        disjoint = fits;
        counted = omega (
          arith,
          v.counted,
          total-insert_segment seg session.red_segments,
          total_le 0 (int_limit - 1) (insert_segment seg session.red_segments) fits,
        );
        int_length = v.int_length;
        within = λ some_red.
            free_place seg p none 0 session.red_part_length session.red_segments refl v.int_length
              (not_beyond h v.int_length near some_red) (v.within some_red) free;
      }

  -- A segment of at least one byte that ends within the ints comes to a session in good order while
  -- there is heap space: either it is kept, none of its bytes has been received before, its bytes are
  -- added to those received, and the session stays in good order, which bounds it by the end of the
  -- red part if that is known; or the session is unchanged, and a byte of the segment has been
  -- received before or the segment reaches beyond the end of the red part.
  pub insert_data_segment-Kept :
      IsReceiving session
      → 0 < seg.length
      → seg.offset + seg.length < int_limit
      → Kept session seg (insert_data_segment false session seg)
        ⊎ Discarded session seg (insert_data_segment false session seg)
  insert_data_segment-Kept v p h =
      elim (Bool-cases (is_beyond_red_part session (seg_upper_bound seg))) [
        | inl far ↦ inr (insert_beyond far, inr (beyond h far))
        | inr near ↦
            elim (Bool-cases (is_free seg (search_place seg.offset none session.red_segments))) [
              | inl free ↦ inl (
                  rw (insert_free near free) (
                    no_wrap h,
                    inserted-IsReceiving v p h near free,
                    (λ b. received-insert_segment b seg session.red_segments),
                    λ b e.
                        inserted_new b seg 0 (int_limit - 1) session.red_segments
                          (inserted-IsReceiving v p h near free).disjoint e,
                  ))
              | inr full ↦ inr (
                insert_overlap near full,
                inl (not_free seg p none 0 (int_limit - 1) session.red_segments tt v.disjoint full),
              )
            ]
      ]
