-- ===== src/Issue.antt =====
-- Segment issuance at the sender of a block: constructDataSegment and issueSegments of
-- ltp/library/libltpP.c, in the default build (no extension callbacks, no bursts) and with the heap
-- space that they ask for granted.
-- Sizes of blocks are ints that are not negative. `max_segment_size - overhead` is computed in 32
-- bits, and a difference below zero is the pattern of a negative int.
pub mod Size
pub mod Sendable
pub mod Tiling
pub mod Carried
pub mod Flags
pub mod Stall
mod Tests
use mini_ltp.Prelude.{
  ℕ, zero, suc, ◌+◌, ◌-◌, ◌%◌, ◌^◌, List, [], ◌∷◌, ◌++◌, Bool, true, false, ◌&&◌, ltb, leb, ◌==◌,
  if◌then◌else◌, Option, none, some,
}
use mini_ltp.Sdnv.{u32, sub32, sdnv_length}
use mini_ltp.Segment.{ReceptionClaim, Pdu, XmitSeg}
use mini_ltp.Claims.{ExportExtent}

-- An LtpXmitSeg with a data segment, as it stands in the queue.
pub record IssuedSeg : Type 0 where
  pub seg : XmitSeg
  pub header_length : ℕ
  pub ohd_length : ℕ
  pub content_length : ℕ

-- An LtpCkpt, with the segment that its list element refers to.
pub record Ckpt : Type 0 where
  pub serial_nbr : ℕ
  pub segment : IssuedSeg

pub record ExportSession : Type 0 where
  pub session_nbr : ℕ
  pub client_svc_id : ℕ
  pub total_length : ℕ
  pub red_part_length : ℕ
  pub last_ckpt_serial_nbr : ℕ
  pub max_checkpoints : ℕ
  pub checkpoints : List Ckpt
  pub claims : List ReceptionClaim
  pub rs_serial_nbrs : List ℕ
  pub red_segments : List IssuedSeg
  pub green_segments : List IssuedSeg
  pub eob_sent : Bool
  pub final_ack : Bool
  -- `svcDataObjects == 0`: the session has been stopped or canceled.
  pub is_stopped : Bool

pub record Span : Type 0 where
  pub engine_id : ℕ
  pub max_segment_size : ℕ
  pub segments : List IssuedSeg

-- How much data a segment takes, and what it ends.
pub record Sizing : Type 0 where
  pub length : ℕ
  pub is_checkpoint : Bool
  pub is_eor : Bool
  pub is_eob : Bool

abbrev plain : ℕ → Sizing
plain n = record { length = n; is_checkpoint = false; is_eor = false; is_eob = false }

-- `a >= b` and `a > b` for an int pattern `a` and an int `b` that is not negative.
abbrev int_ge : ℕ → ℕ → Bool
int_ge a b = ltb a (2 ^ 31) && leb b a

abbrev int_gt : ℕ → ℕ → Bool
int_gt a b = ltb a (2 ^ 31) && ltb b a

-- What does not depend on the extent: the local engine's number and the two serial numbers.
pub record Context : Type 0 where
  pub own_engine_id : ℕ
  pub report_serial_nbr : ℕ
  pub checkpoint_serial_nbr : ℕ

unfoldable pub segment_header_length : Context → ExportSession → ℕ
segment_header_length ctx session =
    1 + sdnv_length ctx.own_engine_id + sdnv_length session.session_nbr + 1

-- `ohdLength` before the length of the data and the serial numbers are added.
unfoldable pub known_overhead : ExportSession → ℕ → ℕ
known_overhead session offset = sdnv_length session.client_svc_id + sdnv_length offset

unfoldable pub checkpoint_overhead : Context → ℕ
checkpoint_overhead ctx = sdnv_length ctx.report_serial_nbr + sdnv_length ctx.checkpoint_serial_nbr

-- The length of the data where it must be reduced to fit.
unfoldable pub reduced_length : ℕ → ℕ → Bool → ℕ → ℕ
reduced_length max_size overhead last red_bytes =
    let room = sub32 max_size overhead in
    if last
    then if int_ge room red_bytes then red_bytes - 1 else room
    else if int_gt room red_bytes
    then red_bytes
    else room

unfoldable pub size_red : Context → Span → ExportSession → Bool → ExportExtent → ℕ → Sizing
size_red ctx span session last extent remaining_red =
    let red_bytes : ℕ = if ltb extent.length remaining_red then extent.length else remaining_red in
    let overhead =
      segment_header_length ctx session
      + known_overhead session extent.offset
      + sdnv_length red_bytes in
    let worst = red_bytes + overhead + (if last then checkpoint_overhead ctx else 0) in
    if ltb span.max_segment_size worst
    then plain (reduced_length span.max_segment_size overhead last red_bytes)
    else if last
    then record {
      length = red_bytes;
      is_checkpoint = true;
      is_eor = red_bytes == remaining_red;
      is_eob = red_bytes == remaining_red && session.red_part_length == session.total_length;
    }
    else plain red_bytes

unfoldable pub size_green : Context → Span → ExportSession → Bool → ExportExtent → Sizing
size_green ctx span session last extent =
    let overhead =
      segment_header_length ctx session
      + known_overhead session extent.offset
      + sdnv_length extent.length in
    if ltb span.max_segment_size (extent.length + overhead)
    then plain (sub32 span.max_segment_size overhead)
    else if last
    then record { length = extent.length; is_checkpoint = false; is_eor = false; is_eob = true }
    else plain extent.length

-- The segment is red if the extent starts within the red part.
unfoldable pub remaining_red_bytes : ExportSession → ExportExtent → ℕ
remaining_red_bytes session extent = session.red_part_length - extent.offset

unfoldable pub size_segment : Context → Span → ExportSession → Bool → ExportExtent → Sizing
size_segment ctx span session last extent =
    let remaining_red = remaining_red_bytes session extent in
    if ltb 0 remaining_red
    then size_red ctx span session last extent remaining_red
    else size_green ctx span session last extent

unfoldable pub segment_type : Bool → Sizing → ℕ
segment_type red s =
    if red
    then if s.is_eor then if s.is_eob then 3 else 2 else if s.is_checkpoint then 1 else 0
    else if s.is_eob
    then 7
    else 4

unfoldable pub finish_segment : Context → Span → ExportSession → ExportExtent → Sizing → IssuedSeg
finish_segment ctx span session extent s =
    let red = ltb 0 (remaining_red_bytes session extent) in
    let ohd =
      known_overhead session extent.offset
      + (if s.is_checkpoint then checkpoint_overhead ctx else 0)
      + sdnv_length s.length in
    record {
      seg = record {
        session_nbr = session.session_nbr;
        remote_engine_id = span.engine_id;
        pdu = record {
          seg_type_code = segment_type red s;
          header_extensions_count = 0;
          trailer_extensions_count = 0;
          ckpt_serial_nbr = if s.is_checkpoint then ctx.checkpoint_serial_nbr else 0;
          rpt_serial_nbr = if s.is_checkpoint then ctx.report_serial_nbr else 0;
          client_svc_id = session.client_svc_id;
          offset = extent.offset;
          length = s.length;
          upper_bound = 0;
          lower_bound = 0;
          reception_claims = [];
          reason_code = 0;
        };
      };
      header_length = segment_header_length ctx session;
      ohd_length = ohd;
      content_length = ohd + s.length;
    }

unfoldable pub note_segment : Context → ExportSession → Bool → Sizing → IssuedSeg → ExportSession
note_segment ctx session red s issued = record session {
  red_segments = if red then session.red_segments ++ issued ∷ [] else session.red_segments;
  green_segments = if red then session.green_segments else session.green_segments ++ issued ∷ [];
  checkpoints =
      if s.is_checkpoint
      then session.checkpoints
        ++ record { serial_nbr = ctx.checkpoint_serial_nbr; segment = issued } ∷ []
      else session.checkpoints;
  last_ckpt_serial_nbr =
      if s.is_checkpoint then ctx.checkpoint_serial_nbr else session.last_ckpt_serial_nbr;
}

-- The state of issuance: the span's queue and the session.
pub record Output : Type 0 where
  pub span : Span
  pub session : ExportSession

unfoldable pub construct_data_segment :
    Context → Bool → Output → ExportExtent → Output × ExportExtent
construct_data_segment ctx last out extent =
    let s = size_segment ctx out.span out.session last extent in
    let issued = finish_segment ctx out.span out.session extent s in
    let red = ltb 0 (remaining_red_bytes out.session extent) in
    (
      record {
        span = record out.span { segments = out.span.segments ++ issued ∷ [] };
        session = note_segment ctx out.session red s issued;
      },
      record { offset = (extent.offset + s.length) % u32; length = sub32 extent.length s.length },
    )

-- `while (extent->length > 0)`; `none` means that the fuel ran out.
unfoldable pub issue_extent : ℕ → Context → Bool → Output → ExportExtent → Option Output
issue_extent zero ctx last out extent = if extent.length == 0 then some out else none
issue_extent (suc fuel) ctx last out extent =
    let (out', extent') = construct_data_segment ctx last out extent in
    let rest = issue_extent fuel ctx last out' extent' in
    if extent.length == 0 then some out else rest

abbrev is_last : List ExportExtent → Bool
is_last [] = true
is_last (e ∷ es) = false

unfoldable pub issue_extents : ℕ → Context → Output → List ExportExtent → Option Output
issue_extents fuel ctx out [] = some out
issue_extents fuel ctx out (extent ∷ extents) =
    elim (issue_extent fuel ctx (is_last extents) out extent) [
      | none ↦ none
      | some out' ↦ issue_extents fuel ctx out' extents
    ]

-- Nothing is issued for a session that has been canceled.
unfoldable pub issue_segments : ℕ → Context → Output → List ExportExtent → Option Output
issue_segments fuel ctx out extents =
    if out.session.is_stopped then some out else issue_extents fuel ctx out extents
