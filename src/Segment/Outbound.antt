-- ===== src/Segment/Outbound.antt =====
-- The serialize functions. Each takes, last, the bytes that stand in the buffer behind what it
-- writes, and returns the buffer from its cursor on.
use mini_ltp.Prelude.{ℕ, ◌+◌, ◌*◌, ◌%◌, List, [], ◌∷◌, ◌++◌, length, ◌==◌, if◌then◌else◌}
use mini_ltp.Sdnv.{encode_sdnv, sub32}
use mini_ltp.Segment.{ReceptionClaim, Pdu, XmitSeg, ltp_cs, ltp_car, is_checkpoint}

-- `encodeSdnv`, `memcpy` and the step of the cursor.
abbrev pub put_sdnv : ℕ → List ℕ → List ℕ
put_sdnv val tail = encode_sdnv val ++ tail

unfoldable pub extension_counts : Pdu → ℕ
extension_counts p = (p.header_extensions_count * 16 + p.trailer_extensions_count) % 256

-- LTP_VERSION is 0.
unfoldable pub serialize_header : XmitSeg → ℕ → List ℕ → List ℕ
serialize_header seg engine_id tail =
    seg.pdu.seg_type_code
    ∷ put_sdnv engine_id (put_sdnv seg.session_nbr (extension_counts seg.pdu ∷ tail))

-- `headerLength`, as the functions that construct a segment without extensions set it.
unfoldable pub header_length : XmitSeg → ℕ → ℕ
header_length seg engine_id =
    1 + length (encode_sdnv engine_id) + length (encode_sdnv seg.session_nbr) + 1

unfoldable pub serialize_data_content : Pdu → List ℕ → List ℕ
serialize_data_content p tail = put_sdnv p.client_svc_id (
    put_sdnv p.offset (
      put_sdnv p.length (
        if is_checkpoint p.seg_type_code
        then put_sdnv p.ckpt_serial_nbr (put_sdnv p.rpt_serial_nbr tail)
        else tail)))

-- `own` is the local engine's number.
unfoldable pub serialize_data_segment : ℕ → XmitSeg → List ℕ → List ℕ
serialize_data_segment own seg tail = serialize_header seg own (serialize_data_content seg.pdu tail)

unfoldable pub serialize_claims : ℕ → List ReceptionClaim → List ℕ → List ℕ
serialize_claims lower [] tail = tail
serialize_claims lower (c ∷ claims) tail =
    put_sdnv (sub32 c.offset lower) (put_sdnv c.length (serialize_claims lower claims tail))

unfoldable pub serialize_report_content : Pdu → List ℕ → List ℕ
serialize_report_content p tail = put_sdnv p.rpt_serial_nbr (
    put_sdnv p.ckpt_serial_nbr (
      put_sdnv p.upper_bound (
        put_sdnv p.lower_bound (
          put_sdnv (length p.reception_claims)
            (serialize_claims p.lower_bound p.reception_claims tail)))))

unfoldable pub serialize_report_segment : XmitSeg → List ℕ → List ℕ
serialize_report_segment seg tail =
    serialize_header seg seg.remote_engine_id (serialize_report_content seg.pdu tail)

unfoldable pub serialize_report_ack_segment : ℕ → XmitSeg → List ℕ → List ℕ
serialize_report_ack_segment own seg tail =
    serialize_header seg own (put_sdnv seg.pdu.rpt_serial_nbr tail)

unfoldable pub serialize_cancel_segment : ℕ → XmitSeg → List ℕ → List ℕ
serialize_cancel_segment own seg tail =
    serialize_header seg (if seg.pdu.seg_type_code == ltp_cs then own else seg.remote_engine_id)
      (seg.pdu.reason_code ∷ tail)

unfoldable pub serialize_cancel_ack_segment : ℕ → XmitSeg → List ℕ → List ℕ
serialize_cancel_ack_segment own seg tail =
    serialize_header seg (if seg.pdu.seg_type_code == ltp_car then own else seg.remote_engine_id)
      tail
