-- ===== src/Segment/Trailer/Tests.antt =====
-- Two extensions behind a segment.
use mini_ltp.Prelude.{◌+◌, ◌<◌, ◌≡◌, refl, List, [], ◌∷◌, arith, ok}
use mini_ltp.Sdnv.{u32, encode_sdnv}
use mini_ltp.Segment.RoundTrip.{received, IsDatagram}
use mini_ltp.Segment.Trailer.{
  ExtensionOutbound, serialize_ltp_extension_field, serialize_trailer, parse_trailer_extensions,
  trailer_length, inbounds, parse_trailer_extensions-serialize,
}

abbrev two_exts : List ExtensionOutbound
two_exts = record { tag = 1; value = 9 ∷ 8 ∷ [] } ∷ record { tag = 0; value = 7 ∷ [] } ∷ []

serialized : serialize_trailer two_exts [] ≡ 1 ∷ 2 ∷ 9 ∷ 8 ∷ 0 ∷ 1 ∷ 7 ∷ []
unfolding serialize_trailer serialize_ltp_extension_field encode_sdnv mini_ltp.Sdnv.sdnv_length
    mini_ltp.Sdnv.sdnv_length_loop mini_ltp.Sdnv.fill_text
serialized = refl

short_enough : IsDatagram (serialize_trailer two_exts [])
unfolding serialize_trailer serialize_ltp_extension_field encode_sdnv mini_ltp.Sdnv.sdnv_length
    mini_ltp.Sdnv.sdnv_length_loop mini_ltp.Sdnv.fill_text
short_enough = omega arith

fits : 5 + 20 + trailer_length two_exts < u32
unfolding encode_sdnv mini_ltp.Sdnv.sdnv_length mini_ltp.Sdnv.sdnv_length_loop
    mini_ltp.Sdnv.fill_text
fits = omega arith

parse_trailer_extensions-serialize_example :
    parse_trailer_extensions 2 5 20 (received (serialize_trailer two_exts []))
    ≡ ok (inbounds 25 two_exts)
parse_trailer_extensions-serialize_example =
    parse_trailer_extensions-serialize two_exts 5 20 (omega arith) short_enough fits
