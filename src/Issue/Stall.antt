-- ===== src/Issue/Stall.antt =====
-- A span whose segments are too small: nothing in ltpAddSpan asks for room for a checkpoint, and
-- without it the loop over an extent does not end.
use mini_ltp.Prelude.{
  ℕ, zero, suc, ◌+◌, ◌-◌, ◌%◌, ◌^◌, ◌<◌, ◌≡◌, ◌∙◌, true, ltb, arith, if◌then◌else◌, none,
}
use mini_ltp.Sdnv.{u32, sub32, sdnv_length}
use mini_ltp.Claims.{ExportExtent}
use mini_ltp.Issue.{
  Context, Output, segment_header_length, known_overhead, checkpoint_overhead, reduced_length,
  size_red, size_segment, remaining_red_bytes, note_segment, construct_data_segment, issue_extent,
}

-- One red byte is left of the last extent. It would fit in a segment, and not in a checkpoint.
pub record IsTight (ctx : Context) (out : Output) (e : ExportExtent) : Type 0 where
  pub one_byte : e.length ≡ 1
  pub in_red_part : e.offset < out.session.red_part_length
  pub int_length : out.session.red_part_length < 2 ^ 31
  pub int_size : out.span.max_segment_size < 2 ^ 31
  pub room :
      segment_header_length ctx out.session + known_overhead out.session e.offset + sdnv_length 1
      < out.span.max_segment_size
  pub tight :
      out.span.max_segment_size
      < 1
        + (segment_header_length ctx out.session
            + known_overhead out.session e.offset
            + sdnv_length 1)
        + checkpoint_overhead ctx

module _ (ctx : Context) where
  size_tight :
      (out : Output) (e : ExportExtent)
      → IsTight ctx out e
      → (size_segment ctx out.span out.session true e).length ≡ 0
  unfolding size_segment remaining_red_bytes size_red reduced_length
  size_tight out e t =
      let positive : 0 < out.session.red_part_length - e.offset = omega (arith, t.in_red_part) in
      let int_length : out.session.red_part_length < 2 ^ 31 = t.int_length in
      let one : (if ltb e.length (out.session.red_part_length - e.offset)
            then e.length
            else out.session.red_part_length - e.offset)
          ≡ 1 =
        ground (arith, t.one_byte) in
      simp one (ground (arith, t.room, t.tight, t.int_size))

  construct-IsTight :
      (out : Output) (e : ExportExtent)
      → IsTight ctx out e
      → let (out', e') = construct_data_segment ctx true out e in IsTight ctx out' e'
  unfolding construct_data_segment note_segment segment_header_length known_overhead
  construct-IsTight out e t =
      let n = size_tight out e t in
      let int_length : out.session.red_part_length < 2 ^ 31 = t.int_length in
      let start : (e.offset + 0) % u32 ≡ e.offset = omega (arith, t.in_red_part) in
      let size : sub32 e.length 0 ≡ e.length = omega (arith, t.one_byte) in
      let start' : (e.offset + (size_segment ctx out.span out.session true e).length) % u32
          ≡ e.offset =
        rw n start in
      let size' : sub32 e.length (size_segment ctx out.span out.session true e).length ≡ e.length =
        rw n size in
      record {
        one_byte = size' ∙ t.one_byte;
        in_red_part = rw start' t.in_red_part;
        int_length = int_length;
        int_size = t.int_size;
        room = rw start' t.room;
        tight = rw start' t.tight;
      }

  -- Where the segment size has no room for the last red byte of the last extent together with the
  -- serial numbers of a checkpoint, the loop over the extent issues empty segments for ever:
  -- whatever the fuel, it runs out.
  pub issue_extent_tight :
      (fuel : ℕ) (out : Output) (e : ExportExtent)
      → IsTight ctx out e
      → issue_extent fuel ctx true out e ≡ none
  unfolding issue_extent
  issue_extent_tight zero out e t = ground (arith, t.one_byte)
  issue_extent_tight (suc fuel) out e t = ground (
    arith,
    t.one_byte,
    issue_extent_tight fuel (construct_data_segment ctx true out e).0
        (construct_data_segment ctx true out e).1 (construct-IsTight out e t),
  )
