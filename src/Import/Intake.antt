-- ===== src/Import/Intake.antt =====
-- A red segment taken in: the session stays in good order, and the red part is delivered only when
-- it has been received.
use mini_ltp.Prelude.{
  ℕ, ◌+◌, ◌-◌, ◌%◌, ◌≤◌, ◌<◌, ◌≡◌, refl, inl, inr, List, [], ◌∷◌, true, false, ◌||◌, ltb, ◌==◌,
  arith, Bool-cases,
}
use mini_ltp.Sdnv.{u32}
use mini_ltp.Claims.Cover.{in_range}
use mini_ltp.Reception.{RecvSeg, ImportSession, insert_data_segment}
use mini_ltp.Reception.Disjoint.{received, Disjoint, IsReceiving, int_limit}
use mini_ltp.Reception.Insert.{insert_data_segment-Kept}
use mini_ltp.Report.{send_report}
use mini_ltp.Import.Marks.{
  Marked, IsUnwanted, checkpoint_context, Delivered, is_delivered-Delivered, kept_ends, marked,
}
use mini_ltp.Import.{
  RedSegment, is_end_of_red_part, note_end_of_red_part, note_end_of_block, RedOutcome, respond,
  handle_red_segment,
}

-- The session after the segment has been taken in, before any report: it is in good order, and has
-- received the segment's bytes besides those before.
abbrev pub TakenIn : ImportSession → RecvSeg → ImportSession → Type 0
TakenIn session seg session' =
    IsReceiving session'
    × ((b : ℕ)
        → received b session'.red_segments
          ≡ (in_range b seg.offset seg.length || received b session.red_segments))

-- The segment, if it ends the red part, ends behind every byte that has been received.
abbrev IsHonestEnd : ImportSession → RedSegment → Type 0
IsHonestEnd session red =
    is_end_of_red_part red.seg_type_code ≡ true
    → (b : ℕ) → received b session.red_segments ≡ true
    → b < red.seg.offset + red.seg.length

abbrev pub Intake : ℕ → ℕ → ℕ → ImportSession → RedSegment → RedOutcome → Type 0
Intake limit first engine_id session red (RedOutcome.discarded session') =
    (session' ≡ session) × IsUnwanted session red.seg
Intake limit first engine_id session red (RedOutcome.stored session') =
    (red.seg_type_code ≡ 0) × TakenIn session red.seg session' × Marked limit session red session'
Intake limit first engine_id session red (RedOutcome.answered session' sent delivered) =
    (0 < red.seg_type_code)
    × TakenIn session red.seg session'
    × Marked limit session red session'
    × (sent
        ≡ send_report first (checkpoint_context engine_id red session') session' red.rpt_serial_nbr)
    × Delivered sent delivered
Intake limit first engine_id session red RedOutcome.failure = ⊥

Disjoint_bound :
    (lo hi hi' : ℕ) (ss : List RecvSeg)
    → Disjoint lo hi ss
    → lo ≤ hi'
    → ((b : ℕ) → received b ss ≡ true → b < hi')
    → Disjoint lo hi' ss
Disjoint_bound lo hi hi' [] d h f = h
Disjoint_bound lo hi hi' (s ∷ ss) (a, p, d) h f =
    let last : s.offset + s.length - 1 < hi' = f (s.offset + s.length - 1) (ground arith) in
    (
      a,
      p,
      Disjoint_bound (s.offset + s.length) hi hi' ss d (omega arith) (λ b r. f b (ground arith)),
    )

module _ (session : ImportSession) (red : RedSegment) where
  respond-Intake :
      (limit first engine_id upper : ℕ) (session' : ImportSession)
      → upper ≡ red.seg.offset + red.seg.length
      → TakenIn session red.seg session'
      → Marked limit session red session'
      → Intake limit first engine_id session red (respond first engine_id red upper session')
  unfolding respond
  respond-Intake limit first engine_id upper session' bound t m =
      elim (Bool-cases (ltb 0 red.seg_type_code)) [
        | inl checkpoint ↦
            rw (checkpoint, bound) (ground arith, t, m, refl, is_delivered-Delivered _)
        | inr plain ↦ rw plain (ground arith, t, m)
      ]

  pub note_end_of_block-TakenIn :
      (code : ℕ) (session' : ImportSession)
      → TakenIn session red.seg session'
      → TakenIn session red.seg (note_end_of_block code session')
  unfolding note_end_of_block
  note_end_of_block-TakenIn code session' (v, f) = elim (Bool-cases (code % 4 == 3)) [
    | inl last ↦ rw last (
      record {
        disjoint = v.disjoint;
        counted = v.counted;
        int_length = v.int_length;
        within = v.within;
      },
      f,
    )
    | inr more ↦ rw more (v, f)
  ]

  pub note_end_of_red_part-TakenIn :
      (limit upper : ℕ) (session' : ImportSession)
      → upper ≡ red.seg.offset + red.seg.length
      → upper < int_limit
      → IsHonestEnd session red
      → TakenIn session red.seg session'
      → TakenIn session red.seg (note_end_of_red_part limit red.seg_type_code upper session')
  unfolding note_end_of_red_part
  note_end_of_red_part-TakenIn limit upper session' e h honest (v, f) =
      elim (Bool-cases (is_end_of_red_part red.seg_type_code)) [
        | inl end ↦ rw end (
          record {
            disjoint = v.disjoint;
            counted = v.counted;
            int_length = h;
            within = λ p.
                Disjoint_bound 0 (int_limit - 1) upper session'.red_segments v.disjoint
                  (omega arith) (λ b r. ground (arith, f b, honest end b));
          },
          f,
        )
        | inr more ↦ rw more (v, f)
      ]

module _ (limit first engine_id : ℕ) (session : ImportSession) (red : RedSegment) where
  handle_kept :
      (upper : ℕ) (session' : ImportSession)
      → insert_data_segment false session red.seg ≡ (session', upper)
      → 0 < upper
      → upper < int_limit
      → handle_red_segment false limit first engine_id session red
        ≡ respond first engine_id red upper (
            note_end_of_block red.seg_type_code
              (note_end_of_red_part limit red.seg_type_code upper session'))
  unfolding handle_red_segment
  handle_kept upper session' e p h =
      let some_bound : (upper == 0) ≡ false = ground arith in
      let no_failure : (upper == u32 - 1) ≡ false = ground arith in rw (e, some_bound, no_failure)

  handle_discarded :
      insert_data_segment false session red.seg ≡ (session, 0)
      → handle_red_segment false limit first engine_id session red ≡ RedOutcome.discarded session
  unfolding handle_red_segment
  handle_discarded e = rw e

  -- A red segment of at least one byte that ends within the ints comes to a session in good order
  -- while there is heap space; if it ends the red part, it ends behind every byte received before.
  -- Then the handling does not fail. A segment is discarded only if a byte of it has been received or
  -- it ends behind the red part, and the session is unchanged. Otherwise the bytes of the segment are
  -- added to those received, the session stays in good order and knows the ends that the segment
  -- marks; a checkpoint, and no other segment, is answered by what sendReport makes of that session
  -- with the end of the segment as upper bound, and whether the red part is delivered is decided on
  -- the session after that.
  pub handle_red_segment-Intake :
      IsReceiving session
      → 0 < red.seg.length
      → red.seg.offset + red.seg.length < int_limit
      → IsHonestEnd session red
      → Intake limit first engine_id session red
          (handle_red_segment false limit first engine_id session red)
  handle_red_segment-Intake v p h honest = elim (insert_data_segment-Kept session red.seg v p h) [
    | inl (bound, w, f, new) ↦
        let session' : ImportSession = (insert_data_segment false session red.seg).0 in
        let upper : ℕ = (insert_data_segment false session red.seg).1 in
        let kept = kept_ends session red.seg in
        rw (handle_kept upper session' refl (omega (arith, bound)) (omega (arith, bound))) (
          respond-Intake session red limit first engine_id upper _ bound
            (note_end_of_block-TakenIn session red red.seg_type_code _ (
              note_end_of_red_part-TakenIn session red limit upper session' bound
                (omega (arith, bound)) honest (w, f)))
            (marked session red limit upper bound session' kept))
    | inr (same, why) ↦ rw (handle_discarded same) (refl, why)
  ]
