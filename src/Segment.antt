-- ===== src/Segment.antt =====
-- LTP segments on the wire: the types of ltp/library/ltpP.h, the serialize functions of
-- ltp/library/libltpP.c, and the parsing that ltpHandleInboundSegment and the segment handlers do.
-- Segments are serialized without header extensions here (`headerExtensions == 0`).
pub mod Outbound
pub mod Inbound
pub mod RoundTrip
pub mod Header
pub mod Trailer
pub mod Message
pub mod Malformed
mod Tests
use mini_ltp.Prelude.{
  ℕ, zero, suc, ◌+◌, ◌-◌, ◌*◌, ◌/◌, ◌%◌, ◌^◌, List, [], ◌∷◌, Bool, ◌&&◌, ltb, ◌==◌,
}

pub record ReceptionClaim : Type 0 where
  pub offset : ℕ
  pub length : ℕ

-- The part of LtpPdu that is transmitted.
pub record Pdu : Type 0 where
  pub seg_type_code : ℕ
  pub header_extensions_count : ℕ
  pub trailer_extensions_count : ℕ
  pub ckpt_serial_nbr : ℕ
  pub rpt_serial_nbr : ℕ
  pub client_svc_id : ℕ
  pub offset : ℕ
  pub length : ℕ
  pub upper_bound : ℕ
  pub lower_bound : ℕ
  pub reception_claims : List ReceptionClaim
  pub reason_code : ℕ

pub record XmitSeg : Type 0 where
  pub session_nbr : ℕ
  pub remote_engine_id : ℕ
  pub pdu : Pdu

-- The segment type codes of the control segments.
abbrev pub ltp_rs : ℕ
ltp_rs = 8

abbrev pub ltp_ras : ℕ
ltp_ras = 9

abbrev pub ltp_cs : ℕ
ltp_cs = 12

abbrev pub ltp_cas : ℕ
ltp_cas = 13

abbrev pub ltp_cr : ℕ
ltp_cr = 14

abbrev pub ltp_car : ℕ
ltp_car = 15

-- `code & LTP_CTRL_FLAG`, `code & LTP_EXC_FLAG`: is the bit clear?
abbrev pub no_ctrl_flag : ℕ → Bool
no_ctrl_flag code = code / 8 % 2 == 0

abbrev no_exc_flag : ℕ → Bool
no_exc_flag code = code / 4 % 2 == 0

-- A red data segment with any flag set is a checkpoint.
abbrev pub is_checkpoint : ℕ → Bool
is_checkpoint code = no_exc_flag code && ltb 0 code
