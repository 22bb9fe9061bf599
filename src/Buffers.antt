-- ===== src/Buffers.antt =====
-- The reception buffers of an import session: startImportSession, acceptRedContent from the
-- insertion of the segment on, and the two extents of deliverSvcData, in ltp/library/libltpP.c.
-- The heap buffer and the file are functions from a position to the byte there, and so is the
-- datagram from the content of the segment on. A write behind the end of the heap buffer, which the
-- code does not check, is the outcome `none`. Objects and the file are created without fail.
pub mod Held
pub mod Write
pub mod Store
pub mod Acquire
pub mod Reach
pub mod Deliver
pub mod Overrun
mod Tests
use mini_ltp.Prelude.{
  ℕ, ◌+◌, ◌-◌, ◌%◌, List, [], Bool, true, false, ◌&&◌, ltb, leb, ◌==◌, if◌then◌else◌, Option, none,
  some, min,
}
use mini_ltp.Sdnv.{u32}
use mini_ltp.Claims.{add32}
use mini_ltp.Reception.{RecvSeg, ImportSession, insert_data_segment}
use mini_ltp.Import.{RedSegment, is_end_of_red_part, note_end_of_red_part, note_end_of_block}

pub record Buffers : Type 0 where
  pub heap_buffer_size : ℕ
  pub heap_buffer : ℕ → ℕ
  pub block_obj_size : ℕ
  pub file_buffer : ℕ → ℕ
  pub block_file_size : ℕ

-- A session with its buffers.
pub record Import : Type 0 where
  pub session : ImportSession
  pub buffers : Buffers

-- The first segment may say that the block is smaller than the buffer would be.
unfoldable pub heap_buffer_size_for : ℕ → ℕ → RecvSeg → ℕ
heap_buffer_size_for max_acq_in_heap code seg =
    if is_end_of_red_part code && ltb (add32 seg.offset seg.length) max_acq_in_heap
    then add32 seg.offset seg.length
    else max_acq_in_heap

abbrev pub empty_session : ℕ → ℕ → ImportSession
empty_session session_nbr client_svc_id = record {
  session_nbr = session_nbr;
  client_svc_id = client_svc_id;
  red_part_length = 0;
  red_part_received = 0;
  end_of_block_recd = false;
  red_segments = [];
  rs_segments = [];
  next_rpt_serial_nbr = 0;
  last_rpt_serial_nbr = 0;
  max_reports = 0;
  reports_count = 0;
}

-- The buffers before anything is written; what the heap holds then does not matter.
abbrev pub empty_buffers : ℕ → Buffers
empty_buffers size = record {
  heap_buffer_size = size;
  heap_buffer = λ i. 0;
  block_obj_size = 0;
  file_buffer = λ i. 0;
  block_file_size = 0;
}

-- `none` where the span has as many sessions as it may.
unfoldable pub start_import_session : ℕ → ℕ → ℕ → ℕ → ℕ → ℕ → RecvSeg → Option Import
start_import_session sessions max_import_sessions max_acq_in_heap nbr client_svc_id code seg =
    if ltb sessions max_import_sessions
    then some (record {
      session = empty_session nbr client_svc_id;
      buffers = empty_buffers (heap_buffer_size_for max_acq_in_heap code seg);
    })
    else none

unfoldable pub bytes_for_heap : ℕ → RecvSeg → ℕ
bytes_for_heap max_acq_in_heap seg =
    min (if ltb seg.offset max_acq_in_heap then max_acq_in_heap - seg.offset else 0) seg.length

unfoldable pub bytes_for_file : ℕ → RecvSeg → ℕ
bytes_for_file max_acq_in_heap seg =
    min
      (if ltb max_acq_in_heap (add32 seg.offset seg.length)
        then add32 seg.offset seg.length - max_acq_in_heap
        else 0)
      seg.length

-- `count` bytes from the cursor on are written at `pos`.
unfoldable pub write_bytes : ℕ → ℕ → (ℕ → ℕ) → (ℕ → ℕ) → ℕ → ℕ
write_bytes pos count cursor buffer i =
    if leb pos i && ltb i (pos + count) then cursor (i - pos) else buffer i

abbrev larger : ℕ → ℕ → ℕ
larger size end_of_increment = if ltb size end_of_increment then end_of_increment else size

unfoldable pub write_heap : ℕ → ℕ → (ℕ → ℕ) → Buffers → Option Buffers
write_heap offset count cursor buffers =
    if count == 0
    then some buffers
    else if ltb buffers.heap_buffer_size (offset + count)
    then none
    else some (record buffers {
      heap_buffer = write_bytes offset count cursor buffers.heap_buffer;
      block_obj_size = larger buffers.block_obj_size (offset + count);
    })

unfoldable pub offset_in_file : ℕ → Buffers → ℕ
offset_in_file offset buffers =
    if ltb buffers.heap_buffer_size offset then offset - buffers.heap_buffer_size else 0

unfoldable pub write_file : ℕ → ℕ → (ℕ → ℕ) → Buffers → Buffers
write_file offset count cursor buffers = if count == 0 then buffers else record buffers {
  file_buffer = write_bytes (offset_in_file offset buffers) count cursor buffers.file_buffer;
  block_file_size = larger buffers.block_file_size (offset_in_file offset buffers + count);
}

-- The file takes the bytes behind those for the heap: the cursor has moved on.
unfoldable pub write_rest : ℕ → RecvSeg → (ℕ → ℕ) → Option Buffers → Option Buffers
write_rest max_acq_in_heap seg cursor none = none
write_rest max_acq_in_heap seg cursor (some buffers) = some (
    write_file seg.offset (bytes_for_file max_acq_in_heap seg)
      (λ i. cursor (bytes_for_heap max_acq_in_heap seg + i)) buffers)

unfoldable pub write_content : ℕ → RecvSeg → (ℕ → ℕ) → Buffers → Option Buffers
write_content max_acq_in_heap seg cursor buffers =
    write_rest max_acq_in_heap seg cursor
      (write_heap seg.offset (bytes_for_heap max_acq_in_heap seg) cursor buffers)

-- The session with its buffers and the segment's upper bound, or 0 where it is discarded; a write
-- behind the end of the heap buffer; or the result -1.
pub data Acceptance : Type 0 where
  accepted : Import → ℕ → Acceptance
  overrun : Acceptance
  failure : Acceptance

unfoldable pub stored_with : ImportSession → ℕ → Option Buffers → Acceptance
stored_with session upper none = overrun
stored_with session upper (some buffers) =
    accepted (record { session = session; buffers = buffers }) upper

unfoldable pub accept_red_content : Bool → ℕ → RecvSeg → (ℕ → ℕ) → Import → Acceptance
accept_red_content is_depleted max_acq_in_heap seg cursor i =
    let (session', upper) = insert_data_segment is_depleted i.session seg in
    if upper == 0
    then accepted (record i { session = session' }) 0
    else if upper == u32 - 1
    then failure
    else stored_with session' upper (write_content max_acq_in_heap seg cursor i.buffers)

-- A red segment with the datagram from its content on.
pub record Arrival : Type 0 where
  pub red : RedSegment
  pub cursor : ℕ → ℕ

unfoldable pub note_ends : ℕ → ℕ → Acceptance → Acceptance
note_ends limit code (accepted i upper) =
    let session' : ImportSession =
      note_end_of_block code (note_end_of_red_part limit code upper i.session) in
    if upper == 0 then accepted i 0 else accepted (record i { session = session' }) upper
note_ends limit code overrun = overrun
note_ends limit code failure = failure

-- handleDataSegment from acceptRedContent to the answer to a checkpoint.
unfoldable pub take_in : ℕ → ℕ → Arrival → Import → Acceptance
take_in limit max_acq_in_heap a i =
    note_ends limit a.red.seg_type_code
      (accept_red_content false max_acq_in_heap a.red.seg a.cursor i)

-- The byte at a position of the object that is delivered: the heap extent, then the file extent.
unfoldable pub delivered : Buffers → ℕ → Option ℕ
delivered buffers b =
    if ltb b buffers.block_obj_size
    then some (buffers.heap_buffer b)
    else if ltb (b - buffers.block_obj_size) buffers.block_file_size
    then some (buffers.file_buffer (b - buffers.block_obj_size))
    else none
