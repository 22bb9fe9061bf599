-- ===== src/Issue/Flags.antt =====
-- Which segments carry flags and serial numbers: of the last extent the last red one, which is a
-- checkpoint, and the last green one, which ends the block.
use mini_ltp.Prelude.{
  ℕ, ◌+◌, ◌-◌, ◌^◌, ◌≤◌, ◌<◌, ◌≡◌, refl, Bool, true, false, ltb, arith, if◌then◌else◌, ◌==◌, ◌&&◌,
  min, Bool-cases, inl, inr,
}
use mini_ltp.Sdnv.{u32}
use mini_ltp.Sdnv.Length.{sdnv_length_small}
use mini_ltp.Claims.{ExportExtent}
use mini_ltp.Segment.{is_checkpoint}
use mini_ltp.Issue.{
  Context, Span, ExportSession, Sizing, IssuedSeg, segment_header_length, known_overhead,
  reduced_length, size_red, size_green, size_segment, remaining_red_bytes, finish_segment,
  segment_type,
}
use mini_ltp.Issue.Size.{IsRoomy, header_bound, known_bound, checkpoint_bound}

-- The flags of a sizing, told from its length alone.
record IsFlagged (last : Bool) (session : ExportSession) (red red_bytes : ℕ) (s : Sizing)
    : Type 0 where
  ckpt : s.is_checkpoint ≡ (last && s.length == red_bytes)
  eor : s.is_eor ≡ (last && s.length == red_bytes && red_bytes == red)
  eob : s.is_eob ≡ (
      last
      && s.length == red_bytes
      && red_bytes == red
      && session.red_part_length == session.total_length)

module _ (ctx : Context) (span : Span) (session : ExportSession) (v : IsRoomy ctx span session)
    (e : ExportExtent) where
  abbrev base : ℕ
  base = segment_header_length ctx session + known_overhead session e.offset

  size_red-IsFlagged :
      (last : Bool) (red red_bytes : ℕ)
      → red_bytes ≡ (if ltb e.length red then e.length else red)
      → 0 < e.length
      → e.length < u32
      → e.offset < u32
      → 0 < red
      → IsFlagged last session red red_bytes (size_red ctx span session last e red)
  unfolding size_red reduced_length
  size_red-IsFlagged true red red_bytes eq p q r k =
      let small : red_bytes < u32 = ground (arith, eq) in
      let positive : 0 < red_bytes = ground (arith, eq) in
      rw (← eq) (
        ground (
          arith,
          v.room,
          v.int_size,
          header_bound ctx span session v,
          known_bound ctx span session v e.offset r,
          checkpoint_bound ctx span session v,
          sdnv_length_small red_bytes small,
        ))
  size_red-IsFlagged false red red_bytes eq p q r k = ground arith

  size_green_eob :
      (last : Bool)
      → 0 < e.length
      → e.length < 2 ^ 31
      → e.offset < u32
      → let s = size_green ctx span session last e in
        (s.is_eob ≡ (last && s.length == e.length)) × (s.is_checkpoint ≡ false)
  unfolding size_green
  size_green_eob last p q r = ground (
    arith,
    v.room,
    v.int_size,
    header_bound ctx span session v,
    known_bound ctx span session v e.offset r,
    sdnv_length_small e.length (omega arith),
  )

-- The type code that a segment of the bytes from `start` to `stop` should have, in an extent that
-- ends at `finish`: no flag but on the last segment of the last extent's red bytes and of its green
-- bytes. The former is a checkpoint; it also ends the red part and the block where they end there.
abbrev expected_type : Bool → ℕ → ℕ → ℕ → ℕ → ℕ → ℕ
expected_type last red_part total finish start stop =
    if ltb start red_part
    then if last && stop == min finish red_part
      then if stop == red_part then if red_part == total then 3 else 2 else 1
      else 0
    else if last && stop == finish
    then 7
    else 4

pub record IsTyped (ctx : Context) (last : Bool) (red_part total finish : ℕ) (i : IssuedSeg)
    : Type 0 where
  pub code :
      i.seg.pdu.seg_type_code
      ≡ expected_type last red_part total finish i.seg.pdu.offset
          (i.seg.pdu.offset + i.seg.pdu.length)
  pub ckpt :
      i.seg.pdu.ckpt_serial_nbr
      ≡ (if is_checkpoint i.seg.pdu.seg_type_code then ctx.checkpoint_serial_nbr else 0)
  pub rpt :
      i.seg.pdu.rpt_serial_nbr
      ≡ (if is_checkpoint i.seg.pdu.seg_type_code then ctx.report_serial_nbr else 0)

module _ (ctx : Context) (span : Span) (session : ExportSession) (e : ExportExtent)
    (last : Bool) where
  abbrev red_part : ℕ
  red_part = session.red_part_length

  finish_red-IsTyped :
      (s : Sizing) (n : ℕ)
      → e.offset < red_part
      → n ≡ (if ltb e.length (red_part - e.offset) then e.length else red_part - e.offset)
      → IsFlagged last session (red_part - e.offset) n s
      → IsTyped ctx last red_part session.total_length
          (e.offset + e.length)
          (finish_segment ctx span session e s)
  unfolding finish_segment remaining_red_bytes segment_type
  finish_red-IsTyped s n h eq f = record {
    code = ground (arith, f.ckpt, f.eor, f.eob);
    ckpt = ground (arith, f.ckpt, f.eor, f.eob);
    rpt = ground (arith, f.ckpt, f.eor, f.eob);
  }

  finish_green-IsTyped :
      (s : Sizing)
      → red_part ≤ e.offset
      → (s.is_eob ≡ (last && s.length == e.length)) × (s.is_checkpoint ≡ false)
      → IsTyped ctx last red_part session.total_length
          (e.offset + e.length)
          (finish_segment ctx span session e s)
  unfolding finish_segment remaining_red_bytes segment_type
  finish_green-IsTyped s h f = record {
    code = ground arith;
    ckpt = ground arith;
    rpt = ground arith;
  }

  pub issued-IsTyped :
      IsRoomy ctx span session
      → 0 < e.length
      → e.offset + e.length < 2 ^ 31
      → IsTyped ctx last red_part session.total_length
          (e.offset + e.length)
          (finish_segment ctx span session e (size_segment ctx span session last e))
  unfolding size_segment remaining_red_bytes
  issued-IsTyped v p q = elim (Bool-cases (ltb 0 (red_part - e.offset))) [
    | inl h ↦ rw h (
        finish_red-IsTyped _ _ (ground arith) refl (
          size_red-IsFlagged ctx span session v e last (red_part - e.offset) _ refl p (omega arith)
            (omega arith) (ground arith)))
    | inr h ↦ rw h (
        finish_green-IsTyped _ (ground arith)
          (size_green_eob ctx span session v e last p (omega arith) (omega arith)))
  ]
