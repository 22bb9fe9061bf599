-- ===== src/Reception.antt =====
-- Import sessions: the red segments that have been received, in the order of their offsets, as
-- insertDataSegment of ltp/library/libltpP.c keeps them.
-- The tree of segment references holds the same segments in the same order as the session's list
-- (orderRedSegments compares offsets), so that a search of the tree is a search of the list. An int
-- is its bit pattern below 2 ^ 32.
pub mod Disjoint
pub mod Search
pub mod Insert
pub mod Whole
mod Tests
use mini_ltp.Prelude.{
  ℕ, ◌+◌, ◌%◌, ◌^◌, List, [], ◌∷◌, Bool, false, ◌&&◌, not, ltb, ◌==◌, if◌then◌else◌, Option, none,
  some,
}
use mini_ltp.Sdnv.{u32}
use mini_ltp.Segment.{ReceptionClaim}
use mini_ltp.Claims.{add32}

-- The parts of an LtpRecvSeg, or an LtpSegmentRef, that say which bytes it carries.
pub record RecvSeg : Type 0 where
  pub offset : ℕ
  pub length : ℕ

-- The LtpXmitSeg of a report segment, as it stands in the session's list and in the queue.
pub record ReportSeg : Type 0 where
  pub session_nbr : ℕ
  pub remote_engine_id : ℕ
  pub header_length : ℕ
  pub content_length : ℕ
  pub rpt_serial_nbr : ℕ
  pub ckpt_serial_nbr : ℕ
  pub upper_bound : ℕ
  pub lower_bound : ℕ
  pub reception_claims : List ReceptionClaim

pub record ImportSession : Type 0 where
  pub session_nbr : ℕ
  pub client_svc_id : ℕ
  pub red_part_length : ℕ
  pub red_part_received : ℕ
  pub end_of_block_recd : Bool
  pub red_segments : List RecvSeg
  pub rs_segments : List ReportSeg
  pub next_rpt_serial_nbr : ℕ
  pub last_rpt_serial_nbr : ℕ
  pub max_reports : ℕ
  pub reports_count : ℕ

unfoldable pub seg_upper_bound : RecvSeg → ℕ
seg_upper_bound seg = add32 seg.offset seg.length

-- `redPartLength > 0 && segUpperBound > redPartLength`, for ints.
unfoldable pub is_beyond_red_part : ImportSession → ℕ → Bool
is_beyond_red_part session upper =
    ltb 0 session.red_part_length
    && ltb session.red_part_length (2 ^ 31)
    && ltb upper (2 ^ 31)
    && ltb session.red_part_length upper

-- What the search finds: a segment with that offset, or the neighbours of the place for it.
pub data Place : Type 0 where
  taken : Place
  between : Option RecvSeg → Option RecvSeg → Place

unfoldable pub search_place : ℕ → Option RecvSeg → List RecvSeg → Place
search_place offset prev [] = between prev none
search_place offset prev (next ∷ segs) =
    let further = search_place offset (some next) segs in
    if next.offset == offset
    then taken
    else if ltb offset next.offset
    then between prev (some next)
    else further

unfoldable pub overlaps_previous : RecvSeg → Option RecvSeg → Bool
overlaps_previous seg none = false
overlaps_previous seg (some prev) = ltb seg.offset (seg_upper_bound prev)

unfoldable pub overlaps_next : RecvSeg → Option RecvSeg → Bool
overlaps_next seg none = false
overlaps_next seg (some next) = ltb next.offset (seg_upper_bound seg)

unfoldable pub is_free : RecvSeg → Place → Bool
is_free seg taken = false
is_free seg (between prev next) = not (overlaps_previous seg prev) && not (overlaps_next seg next)

-- The insertion before the next segment, or at the end.
unfoldable pub insert_segment : RecvSeg → List RecvSeg → List RecvSeg
insert_segment seg [] = seg ∷ []
insert_segment seg (next ∷ segs) =
    let further = next ∷ insert_segment seg segs in
    if ltb seg.offset next.offset then seg ∷ next ∷ segs else further

-- The session after the segment, and the segment's upper bound, or 0 where it is discarded. The
-- first argument is the answer of sdr_heap_depleted.
unfoldable pub insert_data_segment : Bool → ImportSession → RecvSeg → ImportSession × ℕ
insert_data_segment is_depleted session seg =
    if is_beyond_red_part session (seg_upper_bound seg)
    then (session, 0)
    else if not (is_free seg (search_place seg.offset none session.red_segments))
    then (session, 0)
    else if is_depleted
    then (session, 0)
    else (
      record session {
        red_part_received = add32 session.red_part_received seg.length;
        red_segments = insert_segment seg session.red_segments;
      },
      seg_upper_bound seg,
    )

-- The test for reception of the whole red part.
unfoldable pub is_whole : ImportSession → Bool
is_whole session = session.red_part_received == session.red_part_length
