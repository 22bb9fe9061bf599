-- ===== src/Segment/Tests.antt =====
-- Runs of the serializers and the parser, and the theorems at concrete inputs.
use mini_ltp.Prelude.{ℕ, ◌-◌, ◌≡◌, refl, List, [], ◌∷◌, arith, ok, over_read, some}
use mini_ltp.Sdnv.{
  u32, sub32, encode_sdnv, sdnv_length, sdnv_length_loop, fill_text, extract_small_sdnv,
}
use mini_ltp.Segment.{Pdu, XmitSeg}
use mini_ltp.Segment.Outbound.{
  put_sdnv, serialize_data_segment, serialize_report_segment, serialize_report_ack_segment,
  serialize_cancel_segment, serialize_cancel_ack_segment, serialize_header, serialize_data_content,
  serialize_report_content, serialize_claims, extension_counts,
}
use mini_ltp.Segment.Inbound.{load_claims_array}
use mini_ltp.Segment.RoundTrip.{received, IsDatagram, IsClaim}
use mini_ltp.Segment.Message.{
  parse_segment, header_of, data_seg, report, parse-serialize_data, parse-serialize_report,
}
use mini_ltp.Segment.Malformed.{load_claims_array_wraps, extract_small_sdnv_cut}

abbrev blank : ℕ → Pdu
blank code = record {
  seg_type_code = code;
  header_extensions_count = 0;
  trailer_extensions_count = 0;
  ckpt_serial_nbr = 9;
  rpt_serial_nbr = 0;
  client_svc_id = 1;
  offset = 200;
  length = 2;
  upper_bound = 300;
  lower_bound = 100;
  reception_claims =
      record { offset = 100; length = 50 } ∷ record { offset = 200; length = 100 } ∷ [];
  reason_code = 2;
}

abbrev segment_of : ℕ → XmitSeg
segment_of code = record { session_nbr = 4; remote_engine_id = 7; pdu = blank code }

-- Engine 7 sends bytes 200 and 201 of session 4's block: a checkpoint that ends the red part.
data_bytes :
    serialize_data_segment 7 (segment_of 2) (0xaa ∷ 0xbb ∷ [])
    ≡ 2 ∷ 7 ∷ 4 ∷ 0 ∷ 1 ∷ 0x81 ∷ 0x48 ∷ 2 ∷ 9 ∷ 0 ∷ 0xaa ∷ 0xbb ∷ []
unfolding serialize_data_segment serialize_header serialize_data_content extension_counts
    encode_sdnv sdnv_length sdnv_length_loop fill_text
data_bytes = refl

abbrev IsSmall : List ℕ → Type 0
IsSmall text = IsDatagram text

data_size : IsSmall (serialize_data_segment 7 (segment_of 2) (0xaa ∷ 0xbb ∷ []))
data_size = rw data_bytes (omega arith)

parse-serialize_data_example :
    parse_segment (received (serialize_data_segment 7 (segment_of 2) (0xaa ∷ 0xbb ∷ [])))
    ≡ ok (
      header_of (segment_of 2) 7,
      data_seg (record { client_svc_id = 1; offset = 200; length = 2; serial_nbrs = some (9, 0) }),
      received (0xaa ∷ 0xbb ∷ []),
    )
parse-serialize_data_example =
    parse-serialize_data 7 (segment_of 2) (0xaa ∷ 0xbb ∷ []) (omega arith) (omega arith)
      (omega arith) data_size

report_bytes :
    serialize_report_segment (segment_of 8) []
    ≡ 8 ∷ 7 ∷ 4 ∷ 0 ∷ 0 ∷ 9 ∷ 0x82 ∷ 0x2c ∷ 100 ∷ 2 ∷ 0 ∷ 50 ∷ 100 ∷ 100 ∷ []
unfolding serialize_report_segment serialize_header serialize_report_content serialize_claims
    extension_counts encode_sdnv sdnv_length sdnv_length_loop fill_text
report_bytes = refl

parse-serialize_report_example :
    parse_segment (received (serialize_report_segment (segment_of 8) []))
    ≡ ok (
      header_of (segment_of 8) 7,
      report (record {
        rpt_serial_nbr = 0;
        ckpt_serial_nbr = 9;
        upper_bound = 300;
        lower_bound = 100;
        reception_claims = (blank 8).reception_claims;
      }),
      received [],
    )
parse-serialize_report_example =
    parse-serialize_report 1 (segment_of 8) [] (omega arith) (omega arith) refl
      (rw report_bytes (omega arith))

ack_bytes : serialize_report_ack_segment 3 (segment_of 9) [] ≡ 9 ∷ 3 ∷ 4 ∷ 0 ∷ 0 ∷ []
unfolding serialize_report_ack_segment serialize_header extension_counts encode_sdnv sdnv_length
    sdnv_length_loop fill_text
ack_bytes = refl

cancel_bytes : serialize_cancel_segment 3 (segment_of 12) [] ≡ 12 ∷ 3 ∷ 4 ∷ 0 ∷ 2 ∷ []
unfolding serialize_cancel_segment serialize_header extension_counts encode_sdnv sdnv_length
    sdnv_length_loop fill_text
cancel_bytes = refl

cancel_ack_bytes : serialize_cancel_ack_segment 3 (segment_of 15) [] ≡ 15 ∷ 3 ∷ 4 ∷ 0 ∷ []
unfolding serialize_cancel_ack_segment serialize_header extension_counts encode_sdnv sdnv_length
    sdnv_length_loop fill_text
cancel_ack_bytes = refl

wrapped_bytes :
    put_sdnv (sub32 (u32 - 1) 100) (put_sdnv 5 []) ≡ 0x8f ∷ 0xff ∷ 0xff ∷ 0xff ∷ 0x1b ∷ 5 ∷ []
unfolding encode_sdnv sdnv_length sdnv_length_loop fill_text
wrapped_bytes = refl

load_claims_array_wraps_example :
    (load_claims_array 1 100 300 (received (put_sdnv (sub32 (u32 - 1) 100) (put_sdnv 5 [])))
      ≡ ok (record { offset = u32 - 1; length = 5 } ∷ [], received []))
    × (¬ IsClaim 100 300 (record { offset = u32 - 1; length = 5 }))
load_claims_array_wraps_example =
    load_claims_array_wraps 4 100 300 [] (omega arith) (omega arith) (omega arith)
      (rw wrapped_bytes (omega arith))

extract_small_sdnv_cut_example : extract_small_sdnv (received (0x81 ∷ 0xff ∷ [])) ≡ over_read
extract_small_sdnv_cut_example =
    extract_small_sdnv_cut (0x81 ∷ 0xff ∷ []) (omega arith) (omega arith) (omega arith)
