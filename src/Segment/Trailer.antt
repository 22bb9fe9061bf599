-- ===== src/Segment/Trailer.antt =====
-- The extensions behind the content of a segment: serializeLtpExtensionField, serializeTrailer and
-- parseTrailerExtensions of ltp/library/libltpP.c, without callbacks.
mod Tests
use mini_ltp.Prelude.{
  ℕ, zero, suc, ◌+◌, ◌-◌, ◌%◌, ◌≤◌, ◌<◌, ◌≡◌, refl, ap, List, [], ◌∷◌, ◌++◌, length, length-append,
  All, true, false, ◌==◌, ltb, ◌||◌, if◌then◌else◌, arith, Scan, ok, reject, ◌>>=◌,
}
use mini_ltp.Sdnv.{u32, Cursor, sub32, below_one, encode_sdnv, extract_small_sdnv}
use mini_ltp.Segment.Outbound.{put_sdnv}
use mini_ltp.Segment.Inbound.{
  ExtensionInbound, next_byte, take_bytes, parse_extension, parse_extensions,
}
use mini_ltp.Segment.RoundTrip.{received, IsDatagram, IsDatagram-tail, extract_small_front}
use mini_ltp.Segment.Header.{next_byte_front}

-- The length of an extension is that of its value.
pub record ExtensionOutbound : Type 0 where
  pub tag : ℕ
  pub value : List ℕ

unfoldable pub serialize_ltp_extension_field : ExtensionOutbound → List ℕ → List ℕ
serialize_ltp_extension_field ext tail = ext.tag ∷ put_sdnv (length ext.value) (ext.value ++ tail)

-- From the end of the content on.
unfoldable pub serialize_trailer : List ExtensionOutbound → List ℕ → List ℕ
serialize_trailer [] tail = tail
serialize_trailer (ext ∷ exts) tail =
    serialize_ltp_extension_field ext (serialize_trailer exts tail)

-- From the end of the content on; the offsets count from the start of the segment.
unfoldable pub parse_trailer_extensions : ℕ → ℕ → ℕ → Cursor → Scan (List ExtensionInbound)
parse_trailer_extensions count header_length content_length c = do
  (exts, c', offset) ← parse_extensions count ((header_length + content_length) % u32) c
  ok exts

-- What a receiver should make of an extension.
abbrev field_length : ExtensionOutbound → ℕ
field_length ext = 1 + length (encode_sdnv (length ext.value)) + length ext.value

abbrev inbound : ℕ → ExtensionOutbound → ExtensionInbound
inbound offset ext = record {
  offset = offset;
  tag = ext.tag;
  length = length ext.value;
  value = ext.value;
}

abbrev pub inbounds : ℕ → List ExtensionOutbound → List ExtensionInbound
inbounds offset [] = []
inbounds offset (ext ∷ exts) = inbound offset ext ∷ inbounds (offset + field_length ext) exts

abbrev pub trailer_length : List ExtensionOutbound → ℕ
trailer_length [] = 0
trailer_length (ext ∷ exts) = field_length ext + trailer_length exts

abbrev HasValue : ExtensionOutbound → Type 0
HasValue ext = 0 < length ext.value

take_bytes-append :
    (value tail : List ℕ) → take_bytes (length value) (value ++ tail) ≡ ok (value, tail)
unfolding take_bytes
take_bytes-append [] tail = refl
take_bytes-append (b ∷ value) tail = rw (take_bytes-append value tail)

length-field :
    (ext : ExtensionOutbound) (tail : List ℕ)
    → length (serialize_ltp_extension_field ext tail) ≡ field_length ext + length tail
unfolding serialize_ltp_extension_field
length-field ext tail = omega (
  arith,
  length-append (encode_sdnv (length ext.value)) (ext.value ++ tail),
  length-append ext.value tail,
)

parse_extension-serialize :
    (offset : ℕ) (ext : ExtensionOutbound) (tail : List ℕ)
    → HasValue ext
    → IsDatagram (serialize_ltp_extension_field ext tail)
    → offset + field_length ext < u32
    → parse_extension offset (received (serialize_ltp_extension_field ext tail))
      ≡ ok (inbound offset ext, received tail, offset + field_length ext)
unfolding serialize_ltp_extension_field parse_extension
parse_extension-serialize offset ext tail p d h =
    let n : ℕ = length ext.value in
    let all : List ℕ = serialize_ltp_extension_field ext tail in
    let rest : List ℕ = ext.value ++ tail in
    let size : length all ≡ field_length ext + length tail = length-field ext tail in
    let rest_size : length rest ≡ n + length tail = length-append ext.value tail in
    let d₁ : IsDatagram (put_sdnv n rest) = omega arith in
    let some_left : below_one (length all) ≡ false = ground arith in
    let fits : (n == 0 || ltb (length rest) n) ≡ false = ground arith in
    let left : sub32 (length rest) n ≡ length tail = omega arith in
    let next : (offset + sub32 (length all) (length tail)) % u32 ≡ offset + field_length ext =
      omega arith in
    rw (
      some_left,
      next_byte_front ext.tag (put_sdnv n rest) d,
      extract_small_front n rest (omega arith) d₁,
      fits,
      take_bytes-append ext.value tail,
      left,
      next,
    )

parse_extensions-serialize :
    (exts : List ExtensionOutbound) (offset : ℕ) (tail : List ℕ)
    → All HasValue exts
    → IsDatagram (serialize_trailer exts tail)
    → offset + trailer_length exts < u32
    → parse_extensions (length exts) offset (received (serialize_trailer exts tail))
      ≡ ok (inbounds offset exts, received tail, offset + trailer_length exts)
unfolding serialize_trailer parse_extensions
parse_extensions-serialize [] offset tail v d h =
    let none_more : offset + 0 ≡ offset = omega arith in rw none_more
parse_extensions-serialize (ext ∷ exts) offset tail (p, v) d h =
    let rest : List ℕ = serialize_trailer exts tail in
    let d' : IsDatagram rest = omega (arith, length-field ext rest) in
    let end : offset + field_length ext + trailer_length exts
        ≡ offset + (field_length ext + trailer_length exts) =
      omega arith in
    rw (
      parse_extension-serialize offset ext rest p d (omega arith),
      parse_extensions-serialize exts (offset + field_length ext) tail v d' (omega arith),
      end,
    )

-- The extensions of a trailer, each with a value, are read back as they were written, in order, each
-- with its place in the segment.
pub parse_trailer_extensions-serialize :
    (exts : List ExtensionOutbound) (header_length content_length : ℕ)
    → All HasValue exts
    → IsDatagram (serialize_trailer exts [])
    → header_length + content_length + trailer_length exts < u32
    → parse_trailer_extensions
        (length exts)
        header_length
        content_length
        (received (serialize_trailer exts []))
      ≡ ok (inbounds (header_length + content_length) exts)
unfolding parse_trailer_extensions
parse_trailer_extensions-serialize exts header_length content_length v d h =
    let start : (header_length + content_length) % u32 ≡ header_length + content_length =
      omega arith in
    rw (start, parse_extensions-serialize exts (header_length + content_length) [] v d h)
