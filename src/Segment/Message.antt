-- ===== src/Segment/Message.antt =====
-- A received segment as a whole: the header, then what the handler of its type reads first.
mod Control
use mini_ltp.Prelude.{
  ℕ, ◌<◌, ◌≡◌, refl, ◌⊎◌, inl, inr, List, [], ◌∷◌, true, arith, ◌==◌, if◌then◌else◌, Scan, ok,
  reject, over_read, ◌>>=◌,
}
use mini_ltp.Sdnv.{u32, Cursor, extract_small_sdnv}
use mini_ltp.Segment.{XmitSeg, ltp_rs, ltp_ras, ltp_cs, ltp_cas, ltp_cr, ltp_car, no_ctrl_flag}
use mini_ltp.Segment.Outbound.{
  put_sdnv, serialize_header, serialize_data_content, serialize_data_segment,
  serialize_report_content, serialize_report_segment, serialize_report_ack_segment,
  serialize_cancel_segment, serialize_cancel_ack_segment, header_length,
}
use mini_ltp.Segment.Inbound.{
  Header, parse_header, DataContent, parse_data_content, ReportContent, parse_report_content,
}
use mini_ltp.Segment.RoundTrip.{
  received, IsDatagram, extract_small_front, IsDataPdu, serial_nbrs_of,
  parse_data_content-serialize, IsReportPdu, parse_report_content-serialize,
}
use mini_ltp.Segment.Header.{IsHeader, parse_header-serialize, length-header}

-- The handlers of cancellations do not step over the reason code.
pub data Content : Type 0 where
  data_seg : DataContent → Content
  report : ReportContent → Content
  report_ack : ℕ → Content
  cancel : ℕ → Content
  cancel_ack : Content

-- `**cursor`.
unfoldable pub current_byte : Cursor → Scan ℕ
current_byte c = elim c.bytes [ [] ↦ over_read | b ∷ rest ↦ ok b ]

-- Other control segments are ignored.
unfoldable pub parse_content : ℕ → Cursor → Scan (Content × Cursor)
parse_content code c =
    if no_ctrl_flag code
    then (do (d, c') ← parse_data_content code c; ok (data_seg d, c'))
    else if code == ltp_rs
    then (do (r, c') ← parse_report_content c; ok (report r, c'))
    else if code == ltp_ras
    then (do (n, c') ← extract_small_sdnv c; ok (report_ack n, c'))
    else if code == ltp_cs
    then (do reason ← current_byte c; ok (cancel reason, c))
    else if code == ltp_cr
    then (do reason ← current_byte c; ok (cancel reason, c))
    else if code == ltp_cas
    then ok (cancel_ack, c)
    else if code == ltp_car
    then ok (cancel_ack, c)
    else reject

unfoldable pub parse_segment : Cursor → Scan (Header × Content × Cursor)
parse_segment c = do
  (header, c₁) ← parse_header c
  (content, c₂) ← parse_content header.seg_type_code c₁
  ok (header, content, c₂)

-- The header that `parse_header` makes of a segment without header extensions.
abbrev pub header_of : XmitSeg → ℕ → Header
header_of seg engine = record {
  seg_type_code = seg.pdu.seg_type_code;
  source_engine_id = engine;
  session_nbr = seg.session_nbr;
  trailer_extensions_count = seg.pdu.trailer_extensions_count;
  header_extensions = [];
  header_length = header_length seg engine;
}

pub parse_segment-header :
    (seg : XmitSeg) (engine : ℕ) (rest : List ℕ) (content : Content) (c : Cursor)
    → IsHeader seg engine
    → IsDatagram (serialize_header seg engine rest)
    → parse_content seg.pdu.seg_type_code (received rest) ≡ ok (content, c)
    → parse_segment (received (serialize_header seg engine rest))
      ≡ ok (header_of seg engine, content, c)
unfolding parse_segment
parse_segment-header seg engine rest content c v d e =
    rw (parse_header-serialize seg engine rest v d, e)

pub IsDatagram-content :
    (seg : XmitSeg) (engine : ℕ) (rest : List ℕ)
    → IsDatagram (serialize_header seg engine rest)
    → IsDatagram rest
IsDatagram-content seg engine rest d = omega (arith, length-header seg engine rest)

module _ (code : ℕ) (c : Cursor) where
  parse_content_data :
      (d : DataContent) (c' : Cursor)
      → code < 8
      → parse_data_content code c ≡ ok (d, c')
      → parse_content code c ≡ ok (data_seg d, c')
  unfolding parse_content
  parse_content_data d c' h e = let flag : no_ctrl_flag code ≡ true = ground arith in rw (flag, e)

  parse_content-report :
      (r : ReportContent) (c' : Cursor)
      → code ≡ ltp_rs
      → parse_report_content c ≡ ok (r, c')
      → parse_content code c ≡ ok (report r, c')
  unfolding parse_content
  parse_content-report r c' h e = rw (h, e)

module _ (own : ℕ) (seg : XmitSeg) (tail : List ℕ) where
  -- A data segment without header extensions, whose fields fit their types and which a datagram
  -- holds, is read back: its header, its content, and behind them the client data and trailers as
  -- they were.
  pub parse-serialize_data :
      IsHeader seg own
      → IsDataPdu seg.pdu
      → seg.pdu.seg_type_code < 8
      → IsDatagram (serialize_data_segment own seg tail)
      → parse_segment (received (serialize_data_segment own seg tail))
        ≡ ok (
          header_of seg own,
          data_seg (record {
            client_svc_id = seg.pdu.client_svc_id;
            offset = seg.pdu.offset;
            length = seg.pdu.length;
            serial_nbrs = serial_nbrs_of seg.pdu;
          }),
          received tail,
        )
  unfolding serialize_data_segment
  parse-serialize_data v w code d =
      let rest : List ℕ = serialize_data_content seg.pdu tail in
      parse_segment-header seg own rest _ _ v d (
        parse_content_data seg.pdu.seg_type_code (received rest) _ _ code
          (parse_data_content-serialize seg.pdu w tail (IsDatagram-content seg own rest d)))

  -- A report segment without header extensions, whose fields fit their types, whose claims are not
  -- empty and lie within its bounds, and which a datagram holds, is read back with all its claims at
  -- their places in the block.
  pub parse-serialize_report :
      IsHeader seg seg.remote_engine_id
      → IsReportPdu seg.pdu
      → seg.pdu.seg_type_code ≡ ltp_rs
      → IsDatagram (serialize_report_segment seg tail)
      → parse_segment (received (serialize_report_segment seg tail))
        ≡ ok (
          header_of seg seg.remote_engine_id,
          report (record {
            rpt_serial_nbr = seg.pdu.rpt_serial_nbr;
            ckpt_serial_nbr = seg.pdu.ckpt_serial_nbr;
            upper_bound = seg.pdu.upper_bound;
            lower_bound = seg.pdu.lower_bound;
            reception_claims = seg.pdu.reception_claims;
          }),
          received tail,
        )
  unfolding serialize_report_segment
  parse-serialize_report v w code d =
      let rest : List ℕ = serialize_report_content seg.pdu tail in
      parse_segment-header seg seg.remote_engine_id rest _ _ v d (
        parse_content-report seg.pdu.seg_type_code (received rest) _ _ code (
          parse_report_content-serialize seg.pdu tail w
            (IsDatagram-content seg seg.remote_engine_id rest d)))
