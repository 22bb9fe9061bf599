-- ===== src/Segment/Header.antt =====
-- Parsing the header that was serialized.
use mini_ltp.Prelude.{
  ℕ, suc, ◌+◌, ◌/◌, ◌%◌, ◌<◌, ◌≡◌, List, [], ◌∷◌, length, length-append, true, false, arith, ok,
  ◌==◌,
}
use mini_ltp.Sdnv.{u64, u32, Cursor, sub32, encode_sdnv}
use mini_ltp.Segment.{Pdu, XmitSeg}
use mini_ltp.Segment.Outbound.{put_sdnv, serialize_header, extension_counts, header_length}
use mini_ltp.Segment.Inbound.{parse_header, next_byte, parse_extensions}
use mini_ltp.Segment.RoundTrip.{
  IsDatagram, IsDatagram-tail, extract_front, extract_small_front, received,
}

pub next_byte_front :
    (b : ℕ) (tail : List ℕ)
    → IsDatagram (b ∷ tail)
    → next_byte (received (b ∷ tail)) ≡ ok (b, received tail)
unfolding next_byte
next_byte_front b tail d = let e : sub32 (suc (length tail)) 1 ≡ length tail = omega arith in rw e

no_extensions :
    (n offset : ℕ) (c : Cursor) → n ≡ 0 → parse_extensions n offset c ≡ ok ([], c, offset)
unfolding parse_extensions
no_extensions n offset c e = rw (e, parse_extensions)

-- The header: what a segment says of itself, and the header's length in bytes.
pub record IsHeader (seg : XmitSeg) (engine : ℕ) : Type 0 where
  pub code : seg.pdu.seg_type_code < 16
  pub engine_size : engine < u64
  pub session_pos : 0 < seg.session_nbr
  pub session_size : seg.session_nbr < u32
  pub no_header_ext : seg.pdu.header_extensions_count ≡ 0
  pub trailers : seg.pdu.trailer_extensions_count < 16

count_fields :
    (p : Pdu)
    → p.header_extensions_count ≡ 0
    → p.trailer_extensions_count < 16
    → (extension_counts p / 16 % 16 ≡ 0) × (extension_counts p % 16 ≡ p.trailer_extensions_count)
unfolding extension_counts
count_fields p e h = omega arith

pub length-header :
    (seg : XmitSeg) (engine : ℕ) (tail : List ℕ)
    → length (serialize_header seg engine tail) ≡ header_length seg engine + length tail
unfolding serialize_header header_length
length-header seg engine tail = omega (
  arith,
  length-append (encode_sdnv engine) (put_sdnv seg.session_nbr (extension_counts seg.pdu ∷ tail)),
  length-append (encode_sdnv seg.session_nbr) (extension_counts seg.pdu ∷ tail),
)

pub parse_header-serialize :
    (seg : XmitSeg) (engine : ℕ) (tail : List ℕ)
    → IsHeader seg engine
    → IsDatagram (serialize_header seg engine tail)
    → parse_header (received (serialize_header seg engine tail))
      ≡ ok (
        record {
          seg_type_code = seg.pdu.seg_type_code;
          source_engine_id = engine;
          session_nbr = seg.session_nbr;
          trailer_extensions_count = seg.pdu.trailer_extensions_count;
          header_extensions = [];
          header_length = header_length seg engine;
        },
        received tail,
      )
unfolding serialize_header parse_header header_length
parse_header-serialize seg engine tail v d =
    let counts : ℕ = extension_counts seg.pdu in
    let t₂ : List ℕ = counts ∷ tail in
    let t₁ : List ℕ = put_sdnv seg.session_nbr t₂ in
    let d₁ : IsDatagram (put_sdnv engine t₁) = omega arith in
    let d₂ = IsDatagram-tail engine t₁ d₁ in
    let d₃ = IsDatagram-tail seg.session_nbr t₂ d₂ in
    let (no_ext, trailers) = count_fields seg.pdu v.no_header_ext v.trailers in
    let version : (seg.pdu.seg_type_code / 16 % 16 == 0) ≡ true = ground (arith, v.code) in
    let session : (seg.session_nbr == 0) ≡ false = ground (arith, v.session_pos) in
    let code : seg.pdu.seg_type_code % 16 ≡ seg.pdu.seg_type_code = omega (arith, v.code) in
    let size : sub32 (length (serialize_header seg engine tail)) (length tail)
        ≡ header_length seg engine =
      omega (arith, length-header seg engine tail, d) in
    rw (
      next_byte_front seg.pdu.seg_type_code (put_sdnv engine t₁) d,
      version,
      extract_front engine t₁ v.engine_size d₁,
      extract_small_front seg.session_nbr t₂ v.session_size d₂,
      session,
      next_byte_front counts tail d₃,
      no_extensions (counts / 16 % 16) _ (received tail) no_ext,
      code,
      trailers,
      size,
    )
