-- ===== src/Buffers/Acquire.antt =====
-- The segments of one block arrive: session and buffers stay in step.
use mini_ltp.Prelude.{
  ℕ, ◌+◌, ◌-◌, ◌≤◌, ◌<◌, ◌≡◌, refl, ◌⊎◌, inl, inr, true, false, ◌==◌, if◌then◌else◌, arith, some,
  Bool-cases,
}
use mini_ltp.Sdnv.{u32}
use mini_ltp.Reception.{RecvSeg, ImportSession, insert_data_segment}
use mini_ltp.Reception.Disjoint.{received, IsReceiving, int_limit}
use mini_ltp.Reception.Search.{Overlap}
use mini_ltp.Reception.Insert.{insert_data_segment-Kept}
use mini_ltp.Import.{is_end_of_red_part, note_end_of_red_part, note_end_of_block}
use mini_ltp.Import.Intake.{TakenIn, note_end_of_red_part-TakenIn, note_end_of_block-TakenIn}
use mini_ltp.Buffers.{
  Buffers, Import, Arrival, Acceptance, write_content, stored_with, accept_red_content, note_ends,
  take_in,
}
use mini_ltp.Buffers.Write.{Fits}
use mini_ltp.Buffers.Store.{IsStored, written}

length-insert_data_segment :
    (session : ImportSession) (seg : RecvSeg)
    → (insert_data_segment false session seg).0.red_part_length ≡ session.red_part_length
unfolding insert_data_segment
length-insert_data_segment session seg = ground arith

length-note_end_of_block :
    (code : ℕ) (session : ImportSession)
    → (note_end_of_block code session).red_part_length ≡ session.red_part_length
unfolding note_end_of_block
length-note_end_of_block code session = ground arith

length-note_end_of_red_part :
    (limit code upper : ℕ) (session : ImportSession)
    → (note_end_of_red_part limit code upper session).red_part_length
      ≡ (if is_end_of_red_part code then upper else session.red_part_length)
unfolding note_end_of_red_part
length-note_end_of_red_part limit code upper session = ground arith

module _ (n : ℕ) (content : ℕ → ℕ) where
  -- A segment of the red part, which has `n` bytes: its bytes are those of the block, and it ends the
  -- red part just where the type code says so.
  pub record IsSegment (a : Arrival) : Type 0 where
    pub some_bytes : 0 < a.red.seg.length
    pub int_end : a.red.seg.offset + a.red.seg.length < int_limit
    pub inside : a.red.seg.offset + a.red.seg.length ≤ n
    pub last :
        is_end_of_red_part a.red.seg_type_code ≡ true → a.red.seg.offset + a.red.seg.length ≡ n
    pub bytes : (j : ℕ) → j < a.red.seg.length → a.cursor j ≡ content (a.red.seg.offset + j)

module _ (m n : ℕ) (content : ℕ → ℕ) where
  -- The session is in good order, its buffers hold just the bytes of its segments, and its red part
  -- ends after `n` bytes if it ends.
  pub record IsAcquiring (i : Import) : Type 0 where
    pub receiving : IsReceiving i.session
    pub stored : IsStored m content (λ b. received b i.session.red_segments) i.buffers
    pub bounded : (b : ℕ) → received b i.session.red_segments ≡ true → b < n
    pub length : (i.session.red_part_length ≡ 0) ⊎ (i.session.red_part_length ≡ n)

module _ (m n limit : ℕ) (content : ℕ → ℕ) where
  module _ (a : Arrival) (i : Import) (s : IsSegment n content a) (v : IsAcquiring m n content i)
      (fits : Fits m a.red.seg i.buffers) where
    abbrev inserted : ImportSession × ℕ
    inserted = insert_data_segment false i.session a.red.seg

    abbrev noted : ℕ → ImportSession
    noted upper =
        note_end_of_block a.red.seg_type_code
          (note_end_of_red_part limit a.red.seg_type_code upper inserted.0)

    abbrev LengthIs : ℕ → Type 0
    LengthIs l =
        (is_end_of_red_part a.red.seg_type_code ≡ true × l ≡ n)
        ⊎ (is_end_of_red_part a.red.seg_type_code ≡ false × l ≡ i.session.red_part_length)

    -- Nothing is changed, as a byte is already there or the red part has ended before; or the buffers
    -- keep their size, and the session knows the end of the red part if this is it.
    abbrev pub Stepped : Import → Type 0
    Stepped i' =
        (i' ≡ i × (Overlap a.red.seg i.session.red_segments ⊎ (0 < i.session.red_part_length)))
        ⊎ ((i'.buffers.heap_buffer_size ≡ i.buffers.heap_buffer_size)
            × LengthIs i'.session.red_part_length)

    accept_discarded : inserted ≡ (i.session, 0) → take_in limit m a i ≡ Acceptance.accepted i 0
    unfolding take_in accept_red_content note_ends
    accept_discarded e = rw e

    accept_kept :
        (upper : ℕ) (b' : Buffers)
        → inserted.1 ≡ upper
        → 0 < upper
        → upper < int_limit
        → write_content m a.red.seg a.cursor i.buffers ≡ some b'
        → take_in limit m a i
          ≡ Acceptance.accepted (record { session = noted upper; buffers = b' }) upper
    unfolding take_in accept_red_content note_ends stored_with
    accept_kept upper b' e p h w =
        let some_bound : (upper == 0) ≡ false = ground arith in
        let no_failure : (upper == u32 - 1) ≡ false = ground arith in
        rw (e, some_bound, no_failure, w, some_bound)

    noted_length :
        (upper : ℕ)
        → (noted upper).red_part_length
          ≡ (if is_end_of_red_part a.red.seg_type_code then upper else i.session.red_part_length)
    noted_length upper = rw (
      length-note_end_of_block a.red.seg_type_code
          (note_end_of_red_part limit a.red.seg_type_code upper inserted.0),
      length-note_end_of_red_part limit a.red.seg_type_code upper inserted.0,
      length-insert_data_segment i.session a.red.seg,
    )

    noted_cases :
        (upper : ℕ)
        → upper ≡ a.red.seg.offset + a.red.seg.length
        → LengthIs (noted upper).red_part_length
    noted_cases upper e = elim (Bool-cases (is_end_of_red_part a.red.seg_type_code)) [
      | inl end ↦ inl (end, ground (arith, noted_length upper, s.last end))
      | inr more ↦ inr (more, ground (arith, noted_length upper))
    ]

    length_cases : (l : ℕ) → LengthIs l → (l ≡ 0) ⊎ (l ≡ n)
    length_cases l (inl (end, e)) = inr e
    length_cases l (inr (more, e)) = rw e v.length

    early :
        Overlap a.red.seg i.session.red_segments
          ⊎ (0 < i.session.red_part_length
              × i.session.red_part_length < a.red.seg.offset + a.red.seg.length)
        → Overlap a.red.seg i.session.red_segments ⊎ (0 < i.session.red_part_length)
    early (inl o) = inl o
    early (inr (p, l)) = inr p

    noted-TakenIn :
        (upper : ℕ)
        → upper ≡ a.red.seg.offset + a.red.seg.length
        → TakenIn i.session a.red.seg inserted.0
        → TakenIn i.session a.red.seg (noted upper)
    noted-TakenIn upper e t = note_end_of_block-TakenIn i.session a.red a.red.seg_type_code _ (
        note_end_of_red_part-TakenIn i.session a.red limit upper inserted.0 e
          (omega (arith, s.int_end)) (λ end b r. omega (arith, s.last end, v.bounded b r)) t)

    -- A segment of the red part arrives at a session whose buffers have room for it.
    pub take_in-Stepped :
        (i' : Import) × (upper : ℕ) × (take_in limit m a i ≡ Acceptance.accepted i' upper)
        × IsAcquiring m n content i'
        × Stepped i'
    take_in-Stepped =
        elim (insert_data_segment-Kept i.session a.red.seg v.receiving s.some_bytes s.int_end) [
          | inr (same, why) ↦ (i, 0, accept_discarded same, v, inl (refl, early why))
          | inl (bound, w, f, new) ↦
              let upper : ℕ = a.red.seg.offset + a.red.seg.length in
              let (w', f') = noted-TakenIn upper refl (w, f) in
              let (b', e, st, size) =
                written m content (λ b. received b i.session.red_segments)
                  (λ b. received b (noted upper).red_segments) a.red.seg a.cursor i.buffers v.stored
                  s.some_bytes s.int_end s.bytes f' fits in
              (
                record { session = noted upper; buffers = b' },
                upper,
                accept_kept upper b' bound (omega (arith, s.some_bytes)) s.int_end e,
                record {
                  receiving = w';
                  stored = st;
                  bounded = λ b r. ground (arith, f' b, v.bounded b, s.inside);
                  length = length_cases (noted upper).red_part_length (noted_cases upper refl);
                },
                inr (size, noted_cases upper refl),
              )
        ]
