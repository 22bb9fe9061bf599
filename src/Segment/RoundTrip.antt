-- ===== src/Segment/RoundTrip.antt =====
-- Parsing what was serialized.
use mini_ltp.Prelude.{
  ℕ, ◌+◌, ◌%◌, ◌^◌, ◌≤◌, ◌<◌, ◌≡◌, refl, List, [], ◌∷◌, length, length-append, All, false, Option,
  none, some, arith, Bool-cases, ok, if◌then◌else◌, inl, inr, ◌==◌, ltb, ◌||◌,
}
use mini_ltp.Sdnv.{u64, u32, Cursor, sub32, encode_sdnv, extract_sdnv, extract_small_sdnv}
use mini_ltp.Sdnv.RoundTrip.{cursor, extract_sdnv-encode_sdnv, extract_small_sdnv-encode_sdnv}
use mini_ltp.Segment.{ReceptionClaim, Pdu, is_checkpoint}
use mini_ltp.Segment.Outbound.{
  put_sdnv, serialize_data_content, serialize_claims, serialize_report_content,
}
use mini_ltp.Segment.Inbound.{
  parse_serial_nbrs, parse_data_content, load_claims_array, parse_report_content,
}

-- The cursor at the front of a received datagram.
abbrev pub received : List ℕ → Cursor
received text = cursor text (length text)

-- Datagrams are shorter than an int can count.
abbrev pub IsDatagram : List ℕ → Type 0
IsDatagram text = length text < 2 ^ 31

pub IsDatagram-tail : (v : ℕ) (tail : List ℕ) → IsDatagram (put_sdnv v tail) → IsDatagram tail
IsDatagram-tail v tail h = omega (arith, length-append (encode_sdnv v) tail)

pub extract_small_front :
    (v : ℕ) (tail : List ℕ)
    → v < u32
    → IsDatagram (put_sdnv v tail)
    → extract_small_sdnv (received (put_sdnv v tail)) ≡ ok (v, received tail)
extract_small_front v tail h d = rw (length-append (encode_sdnv v) tail) (
    extract_small_sdnv-encode_sdnv v (length tail) tail
      (omega (arith, length-append (encode_sdnv v) tail)) h)

pub extract_front :
    (v : ℕ) (tail : List ℕ)
    → v < u64
    → IsDatagram (put_sdnv v tail)
    → extract_sdnv (received (put_sdnv v tail)) ≡ ok (v, received tail)
extract_front v tail h d = rw (length-append (encode_sdnv v) tail) (
    extract_sdnv-encode_sdnv v (length tail) tail
      (omega (arith, length-append (encode_sdnv v) tail)) h)

pub record IsDataPdu (p : Pdu) : Type 0 where
  pub client : p.client_svc_id < u32
  pub start : p.offset < u32
  pub size : p.length < u32
  pub ckpt : p.ckpt_serial_nbr < u32
  pub rpt : p.rpt_serial_nbr < u32

abbrev serials : Pdu → List ℕ → List ℕ
serials p tail =
    if is_checkpoint p.seg_type_code
    then put_sdnv p.ckpt_serial_nbr (put_sdnv p.rpt_serial_nbr tail)
    else tail

-- The serial numbers of a segment: those of a checkpoint, or none.
abbrev pub serial_nbrs_of : Pdu → Option (ℕ × ℕ)
serial_nbrs_of p =
    if is_checkpoint p.seg_type_code then some (p.ckpt_serial_nbr, p.rpt_serial_nbr) else none

module _ (p : Pdu) (v : IsDataPdu p) (tail : List ℕ) where
  parse_serial_nbrs-serials :
      IsDatagram (serials p tail)
      → parse_serial_nbrs p.seg_type_code (received (serials p tail))
        ≡ ok (serial_nbrs_of p, received tail)
  unfolding parse_serial_nbrs
  parse_serial_nbrs-serials d = elim (Bool-cases (is_checkpoint p.seg_type_code)) [
    | inl e ↦
        let t : List ℕ = put_sdnv p.rpt_serial_nbr tail in
        let d' : IsDatagram (put_sdnv p.ckpt_serial_nbr t) = rw e at d in
        rw (
          e,
          extract_small_front p.ckpt_serial_nbr t v.ckpt d',
          extract_small_front p.rpt_serial_nbr tail v.rpt (IsDatagram-tail p.ckpt_serial_nbr t d'),
        )
    | inr e ↦ rw e
  ]

  -- The content of a data segment is read back as it was written.
  pub parse_data_content-serialize :
      IsDatagram (serialize_data_content p tail)
      → parse_data_content p.seg_type_code (received (serialize_data_content p tail))
        ≡ ok (
          record {
            client_svc_id = p.client_svc_id;
            offset = p.offset;
            length = p.length;
            serial_nbrs = serial_nbrs_of p;
          },
          received tail,
        )
  unfolding serialize_data_content parse_data_content
  parse_data_content-serialize d =
      let t₂ : List ℕ = put_sdnv p.length (serials p tail) in
      let t₁ : List ℕ = put_sdnv p.offset t₂ in
      let d₁ = IsDatagram-tail p.client_svc_id t₁ d in
      let d₂ = IsDatagram-tail p.offset t₂ d₁ in
      rw (
        extract_small_front p.client_svc_id t₁ v.client d,
        extract_small_front p.offset t₂ v.start d₁,
        extract_small_front p.length (serials p tail) v.size d₂,
        parse_serial_nbrs-serials (IsDatagram-tail p.length (serials p tail) d₂),
      )

-- A claim that a report may make: its end is in bounds, and its start is not below the report's.
pub record IsClaim (lower upper : ℕ) (c : ReceptionClaim) : Type 0 where
  pub above : lower ≤ c.offset
  pub some_data : 0 < c.length
  pub within : c.offset + c.length ≤ upper

claim_fields :
    (lower upper : ℕ) (c : ReceptionClaim)
    → upper < u32
    → IsClaim lower upper c
    → (sub32 c.offset lower < u32)
      × (c.length < u32)
      × ((sub32 c.offset lower + lower) % u32 ≡ c.offset)
      × ((c.length == 0 || ltb upper ((c.offset + c.length) % u32)) ≡ false)
claim_fields lower upper c h v = (
  omega arith,
  omega (arith, v.within),
  omega (arith, v.above, v.within),
  ground (arith, v.some_data, v.within),
)

load_claims_array-serialize :
    (claims : List ReceptionClaim) (lower upper : ℕ) (tail : List ℕ)
    → upper < u32
    → All (IsClaim lower upper) claims
    → IsDatagram (serialize_claims lower claims tail)
    → load_claims_array (length claims) lower upper (received (serialize_claims lower claims tail))
      ≡ ok (claims, received tail)
unfolding serialize_claims load_claims_array
load_claims_array-serialize [] lower upper tail h v d = refl
load_claims_array-serialize (c ∷ claims) lower upper tail h (v, vs) d =
    let rest : List ℕ = serialize_claims lower claims tail in
    let t : List ℕ = put_sdnv c.length rest in
    let (a, b, e, ok_claim) = claim_fields lower upper c h v in
    let d₁ = IsDatagram-tail (sub32 c.offset lower) t d in
    let d₂ = IsDatagram-tail c.length rest d₁ in
    rw (
      extract_small_front (sub32 c.offset lower) t a d,
      extract_small_front c.length rest b d₁,
      e,
      ok_claim,
      load_claims_array-serialize claims lower upper tail h vs d₂,
    )

pub record IsReportPdu (p : Pdu) : Type 0 where
  pub rpt : p.rpt_serial_nbr < u32
  pub ckpt : p.ckpt_serial_nbr < u32
  pub upper : p.upper_bound < u32
  pub lower : p.lower_bound < u32
  pub count : length p.reception_claims < u32
  pub claims : All (IsClaim p.lower_bound p.upper_bound) p.reception_claims

-- The content of a report segment is read back as it was written, every claim included.
pub parse_report_content-serialize :
    (p : Pdu) (tail : List ℕ)
    → IsReportPdu p
    → IsDatagram (serialize_report_content p tail)
    → parse_report_content (received (serialize_report_content p tail))
      ≡ ok (
        record {
          rpt_serial_nbr = p.rpt_serial_nbr;
          ckpt_serial_nbr = p.ckpt_serial_nbr;
          upper_bound = p.upper_bound;
          lower_bound = p.lower_bound;
          reception_claims = p.reception_claims;
        },
        received tail,
      )
unfolding serialize_report_content parse_report_content
parse_report_content-serialize p tail v d =
    let t₅ : List ℕ = serialize_claims p.lower_bound p.reception_claims tail in
    let t₄ : List ℕ = put_sdnv (length p.reception_claims) t₅ in
    let t₃ : List ℕ = put_sdnv p.lower_bound t₄ in
    let t₂ : List ℕ = put_sdnv p.upper_bound t₃ in
    let t₁ : List ℕ = put_sdnv p.ckpt_serial_nbr t₂ in
    let d₁ = IsDatagram-tail p.rpt_serial_nbr t₁ d in
    let d₂ = IsDatagram-tail p.ckpt_serial_nbr t₂ d₁ in
    let d₃ = IsDatagram-tail p.upper_bound t₃ d₂ in
    let d₄ = IsDatagram-tail p.lower_bound t₄ d₃ in
    let d₅ = IsDatagram-tail (length p.reception_claims) t₅ d₄ in
    rw (
      extract_small_front p.rpt_serial_nbr t₁ v.rpt d,
      extract_small_front p.ckpt_serial_nbr t₂ v.ckpt d₁,
      extract_small_front p.upper_bound t₃ v.upper d₂,
      extract_small_front p.lower_bound t₄ v.lower d₃,
      extract_small_front (length p.reception_claims) t₅ v.count d₄,
      load_claims_array-serialize p.reception_claims p.lower_bound p.upper_bound tail v.upper
          v.claims d₅,
    )
