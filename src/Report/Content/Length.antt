-- ===== src/Report/Content/Length.antt =====
-- The content length of a report segment as it is counted while the segment is constructed, and the
-- length of what serializeReportSegment writes.
use mini_ltp.Prelude.{
  ℕ, zero, suc, ◌+◌, ◌%◌, ◌≡◌, ◌∙◌, List, [], ◌∷◌, ◌++◌, arith, length, length-append, ◌/◌,
}
use mini_ltp.Sdnv.{sub32, sdnv_length, encode_sdnv, fill_text}
use mini_ltp.Segment.{ReceptionClaim, Pdu, ltp_rs}
use mini_ltp.Segment.Outbound.{put_sdnv, serialize_claims, serialize_report_content}
use mini_ltp.Reception.{ReportSeg}
use mini_ltp.Report.{Rs, ReportContext, initialize_rs, construct_rs}
use mini_ltp.Report.Loop.{with_claim}

-- The LtpPdu of a report segment.
abbrev pub pdu_of : ReportSeg → Pdu
pdu_of r = record {
  seg_type_code = ltp_rs;
  header_extensions_count = 0;
  trailer_extensions_count = 0;
  ckpt_serial_nbr = r.ckpt_serial_nbr;
  rpt_serial_nbr = r.rpt_serial_nbr;
  client_svc_id = 0;
  offset = 0;
  length = 0;
  upper_bound = r.upper_bound;
  lower_bound = r.lower_bound;
  reception_claims = r.reception_claims;
  reason_code = 0;
}

length-fill_text :
    (i r flag : ℕ) (text : List ℕ) → length (fill_text i r flag text) ≡ i + length text
unfolding fill_text
length-fill_text zero r flag text = omega arith
length-fill_text (suc i) r flag text =
    omega (arith, length-fill_text i (r / 128) 128 ((r % 128 + flag) ∷ text))

length-put_sdnv : (v : ℕ) (tail : List ℕ) → length (put_sdnv v tail) ≡ sdnv_length v + length tail
unfolding encode_sdnv
length-put_sdnv v tail =
    length-append (fill_text (sdnv_length v) v 0 []) tail
    ∙ omega (arith, length-fill_text (sdnv_length v) v 0 [])

-- The bytes that claims take, with their offsets in the block and from the lower bound.
abbrev pub block_size : List ReceptionClaim → ℕ
block_size [] = 0
block_size (c ∷ cs) = sdnv_length c.offset + sdnv_length c.length + block_size cs

abbrev pub scope_size : ℕ → List ReceptionClaim → ℕ
scope_size lower [] = 0
scope_size lower (c ∷ cs) =
    sdnv_length (sub32 c.offset lower) + sdnv_length c.length + scope_size lower cs

block_size-append :
    (xs ys : List ReceptionClaim) → block_size (xs ++ ys) ≡ block_size xs + block_size ys
block_size-append [] ys = omega arith
block_size-append (x ∷ xs) ys = omega (arith, block_size-append xs ys)

length-serialize_claims :
    (lower : ℕ) (cs : List ReceptionClaim) (tail : List ℕ)
    → length (serialize_claims lower cs tail) ≡ scope_size lower cs + length tail
unfolding serialize_claims
length-serialize_claims lower [] tail = omega arith
length-serialize_claims lower (c ∷ cs) tail =
    length-put_sdnv (sub32 c.offset lower) (put_sdnv c.length (serialize_claims lower cs tail))
    ∙ omega (
      arith,
      length-put_sdnv c.length (serialize_claims lower cs tail),
      length-serialize_claims lower cs tail,
    )

-- The content length of a segment under construction counts the claims by their place in the block.
abbrev pub IsMeasured : ReportContext → Rs → Type 0
IsMeasured ctx rs =
    rs.content_length
    ≡ sdnv_length rs.rpt_serial_nbr
      + sdnv_length ctx.ckpt_serial_nbr
      + sdnv_length rs.lower_bound
      + block_size rs.reception_claims

module _ (ctx : ReportContext) where
  pub initialize_rs-IsMeasured :
      (serial_nbr lower : ℕ) → IsMeasured ctx (initialize_rs ctx serial_nbr lower)
  unfolding initialize_rs
  initialize_rs-IsMeasured serial_nbr lower = omega arith

  pub with_claim-IsMeasured :
      (rs : Rs) (lower upper : ℕ) → IsMeasured ctx rs → IsMeasured ctx (with_claim rs lower upper)
  with_claim-IsMeasured rs lower upper m = omega (
    arith,
    m,
    block_size-append rs.reception_claims
        (record { offset = lower; length = sub32 upper lower } ∷ []),
  )

  pub length-construct_rs :
      (rs : Rs) (upper : ℕ) (tail : List ℕ)
      → IsMeasured ctx rs
      → length (
            serialize_report_content
              (pdu_of (construct_rs ctx rs upper (length rs.reception_claims)))
              tail)
          + block_size rs.reception_claims
        ≡ (construct_rs ctx rs upper (length rs.reception_claims)).content_length
          + scope_size rs.lower_bound rs.reception_claims
          + length tail
  unfolding serialize_report_content construct_rs
  length-construct_rs rs upper tail m =
      let claims : List ℕ = serialize_claims rs.lower_bound rs.reception_claims tail in
      let counted : List ℕ = put_sdnv (length rs.reception_claims) claims in
      let from_lower : List ℕ = put_sdnv rs.lower_bound counted in
      let from_upper : List ℕ = put_sdnv upper from_lower in
      let from_ckpt : List ℕ = put_sdnv ctx.ckpt_serial_nbr from_upper in
      omega (
        arith,
        m,
        length-put_sdnv rs.rpt_serial_nbr from_ckpt,
        length-put_sdnv ctx.ckpt_serial_nbr from_upper,
        length-put_sdnv upper from_lower,
        length-put_sdnv rs.lower_bound counted,
        length-put_sdnv (length rs.reception_claims) claims,
        length-serialize_claims rs.lower_bound rs.reception_claims tail,
      )
