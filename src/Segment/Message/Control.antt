-- ===== src/Segment/Message/Control.antt =====
-- Acknowledgments and cancellations, as written and as read back.
use mini_ltp.Prelude.{ℕ, ◌<◌, ◌≡◌, refl, ◌⊎◌, inl, inr, List, ◌∷◌, ◌==◌, if◌then◌else◌, ok}
use mini_ltp.Sdnv.{u32, Cursor, extract_small_sdnv}
use mini_ltp.Segment.{XmitSeg, ltp_ras, ltp_cs, ltp_cas, ltp_cr, ltp_car}
use mini_ltp.Segment.Outbound.{
  put_sdnv, serialize_report_ack_segment, serialize_cancel_segment, serialize_cancel_ack_segment,
}
use mini_ltp.Segment.RoundTrip.{received, IsDatagram, extract_small_front}
use mini_ltp.Segment.Header.{IsHeader}
use mini_ltp.Segment.Message.{
  report_ack, cancel, cancel_ack, current_byte, parse_content, parse_segment, header_of,
  parse_segment-header, IsDatagram-content,
}

module _ (code : ℕ) (c : Cursor) where
  parse_content_ack :
      (n : ℕ) (c' : Cursor)
      → code ≡ ltp_ras
      → extract_small_sdnv c ≡ ok (n, c')
      → parse_content code c ≡ ok (report_ack n, c')
  unfolding parse_content
  parse_content_ack n c' h e = rw (h, e)

  parse_content_cancel :
      (n : ℕ)
      → (code ≡ ltp_cs) ⊎ (code ≡ ltp_cr)
      → current_byte c ≡ ok n
      → parse_content code c ≡ ok (cancel n, c)
  unfolding parse_content
  parse_content_cancel n (inl h) e = rw (h, e)
  parse_content_cancel n (inr h) e = rw (h, e)

  parse_content_cancel_ack :
      (code ≡ ltp_cas) ⊎ (code ≡ ltp_car) → parse_content code c ≡ ok (cancel_ack, c)
  unfolding parse_content
  parse_content_cancel_ack (inl h) = rw h
  parse_content_cancel_ack (inr h) = rw h

module _ (own : ℕ) (seg : XmitSeg) (tail : List ℕ) where
  -- A report acknowledgment without header extensions, whose fields fit their types and which a
  -- datagram holds, is read back with the report's serial number.
  parse-serialize_report_ack :
      IsHeader seg own
      → seg.pdu.rpt_serial_nbr < u32
      → seg.pdu.seg_type_code ≡ ltp_ras
      → IsDatagram (serialize_report_ack_segment own seg tail)
      → parse_segment (received (serialize_report_ack_segment own seg tail))
        ≡ ok (header_of seg own, report_ack seg.pdu.rpt_serial_nbr, received tail)
  unfolding serialize_report_ack_segment
  parse-serialize_report_ack v w code d =
      let rest : List ℕ = put_sdnv seg.pdu.rpt_serial_nbr tail in
      parse_segment-header seg own rest _ _ v d (
        parse_content_ack seg.pdu.seg_type_code (received rest) _ _ code
          (extract_small_front seg.pdu.rpt_serial_nbr tail w (IsDatagram-content seg own rest d)))

  -- The engine that a cancellation names: the sender of the block.
  abbrev cancel_origin : ℕ
  cancel_origin = if seg.pdu.seg_type_code == ltp_cs then own else seg.remote_engine_id

  -- A cancellation by either side without header extensions, whose fields fit their types and which
  -- a datagram holds, is read back with its reason. The handler's cursor stays before the reason
  -- code.
  parse-serialize_cancel :
      IsHeader seg cancel_origin
      → (seg.pdu.seg_type_code ≡ ltp_cs) ⊎ (seg.pdu.seg_type_code ≡ ltp_cr)
      → IsDatagram (serialize_cancel_segment own seg tail)
      → parse_segment (received (serialize_cancel_segment own seg tail))
        ≡ ok (
          header_of seg cancel_origin,
          cancel seg.pdu.reason_code,
          received (seg.pdu.reason_code ∷ tail),
        )
  unfolding serialize_cancel_segment current_byte
  parse-serialize_cancel v code d =
      let rest : List ℕ = seg.pdu.reason_code ∷ tail in
      parse_segment-header seg cancel_origin rest _ _ v d
        (parse_content_cancel seg.pdu.seg_type_code (received rest) _ code refl)

  -- The engine that the acknowledgment of a cancellation names: the sender of the block.
  abbrev cancel_ack_origin : ℕ
  cancel_ack_origin = if seg.pdu.seg_type_code == ltp_car then own else seg.remote_engine_id

  -- The acknowledgment of a cancellation without header extensions, whose fields fit their types and
  -- which a datagram holds, is read back, and nothing of it is left but the trailer.
  parse-serialize_cancel_ack :
      IsHeader seg cancel_ack_origin
      → (seg.pdu.seg_type_code ≡ ltp_cas) ⊎ (seg.pdu.seg_type_code ≡ ltp_car)
      → IsDatagram (serialize_cancel_ack_segment own seg tail)
      → parse_segment (received (serialize_cancel_ack_segment own seg tail))
        ≡ ok (header_of seg cancel_ack_origin, cancel_ack, received tail)
  unfolding serialize_cancel_ack_segment
  parse-serialize_cancel_ack v code d =
      parse_segment-header seg cancel_ack_origin tail _ _ v d
        (parse_content_cancel_ack seg.pdu.seg_type_code (received tail) code)
