-- ===== src/Import/Marks.antt =====
-- What a red segment marks on the session, when it is unwanted, and when the red part is delivered.
use mini_ltp.Prelude.{
  ℕ, ◌+◌, ◌%◌, ◌<◌, ◌≡◌, ◌⊎◌, ◌↔◌, Bool, if◌then◌else◌, none, refl, inl, inr, true, false, ◌||◌,
  ◌==◌, arith, Bool-cases,
}
use mini_ltp.Reception.{
  RecvSeg, ImportSession, insert_data_segment, is_beyond_red_part, seg_upper_bound, is_free,
  search_place, is_whole,
}
use mini_ltp.Reception.Search.{Overlap}
use mini_ltp.Report.{ReportContext, Reply}
use mini_ltp.Import.{
  RedSegment, is_end_of_red_part, note_end_of_red_part, note_end_of_block, is_delivered,
}

-- The session knows the ends that the segment marks, and otherwise those that it knew.
abbrev pub Marked : ℕ → ImportSession → RedSegment → ImportSession → Type 0
Marked limit session red session' =
    (session'.red_part_length ≡ (
      if is_end_of_red_part red.seg_type_code
      then red.seg.offset + red.seg.length
      else session.red_part_length))
    × (session'.max_reports
        ≡ (if is_end_of_red_part red.seg_type_code then limit else session.max_reports))
    × (session'.end_of_block_recd ≡ (red.seg_type_code % 4 == 3 || session.end_of_block_recd))

-- Some byte of the segment has been received, or the segment ends behind the red part.
abbrev pub IsUnwanted : ImportSession → RecvSeg → Type 0
IsUnwanted session seg =
    Overlap seg session.red_segments
    ⊎ (0 < session.red_part_length × session.red_part_length < seg.offset + seg.length)

-- The report that answers a checkpoint has the end of the segment as its upper bound.
abbrev pub checkpoint_context : ℕ → RedSegment → ImportSession → ReportContext
checkpoint_context engine_id red session = record {
  session_nbr = session.session_nbr;
  engine_id = engine_id;
  ckpt_serial_nbr = red.ckpt_serial_nbr;
  report_upper_bound = red.seg.offset + red.seg.length;
}

-- The red part is delivered just if the count of bytes received is its length after the reply, and
-- not if the session has been canceled.
abbrev pub Delivered : Reply → Bool → Type 0
Delivered (Reply.reply session reports) delivered =
    (delivered ≡ true) ↔ (session.red_part_received ≡ session.red_part_length)
Delivered (Reply.cancel session reports) delivered = delivered ≡ false
Delivered Reply.failure delivered = delivered ≡ false

pub is_delivered-Delivered : (sent : Reply) → Delivered sent (is_delivered sent)
unfolding is_delivered is_whole
is_delivered-Delivered (Reply.reply session reports) = (λ e. ground arith, λ e. ground arith)
is_delivered-Delivered (Reply.cancel session reports) = refl
is_delivered-Delivered Reply.failure = refl

pub kept_ends :
    (session : ImportSession) (seg : RecvSeg)
    → ((insert_data_segment false session seg).0.red_part_length ≡ session.red_part_length)
      × ((insert_data_segment false session seg).0.max_reports ≡ session.max_reports)
      × ((insert_data_segment false session seg).0.end_of_block_recd ≡ session.end_of_block_recd)
unfolding insert_data_segment
kept_ends session seg = elim (Bool-cases (is_beyond_red_part session (seg_upper_bound seg))) [
  | inl beyond ↦ rw beyond (refl, refl, refl)
  | inr within ↦
      elim (Bool-cases (is_free seg (search_place seg.offset none session.red_segments))) [
        | inl free ↦ rw (within, free) (refl, refl, refl)
        | inr taken ↦ rw (within, taken) (refl, refl, refl)
      ]
]

module _ (session : ImportSession) (red : RedSegment) where
  pub marked :
      (limit upper : ℕ)
      → upper ≡ red.seg.offset + red.seg.length
      → (session' : ImportSession)
      → (session'.red_part_length ≡ session.red_part_length)
        × (session'.max_reports ≡ session.max_reports)
        × (session'.end_of_block_recd ≡ session.end_of_block_recd)
      → Marked limit session red (
          note_end_of_block red.seg_type_code
            (note_end_of_red_part limit red.seg_type_code upper session'))
  unfolding note_end_of_block note_end_of_red_part
  marked limit upper e session' (r, x, b) =
      (ground (arith, r, b), ground (arith, x), ground (arith, r, b))
