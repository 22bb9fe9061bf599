-- ===== src/Segment/Inbound.antt =====
-- Parsing a received segment.
use mini_ltp.Prelude.{
  ℕ, zero, suc, ◌+◌, ◌/◌, ◌%◌, List, [], ◌∷◌, length, Option, none, some, ltb, ◌==◌, ◌||◌, not,
  if◌then◌else◌, Scan, ok, reject, over_read, ◌>>=◌,
}
use mini_ltp.Sdnv.{u32, Cursor, sub32, below_one, extract_sdnv, extract_small_sdnv}
use mini_ltp.Segment.{ReceptionClaim, is_checkpoint}

-- `*cursor`, then `cursor++; bytesRemaining--`.
unfoldable pub next_byte : Cursor → Scan (ℕ × Cursor)
next_byte c = elim c.bytes [
  | [] ↦ over_read
  | b ∷ rest ↦ ok (b, record { bytes = rest; remaining = sub32 c.remaining 1 })
]

-- `memcpy` of that many bytes, and the step of the cursor behind them.
unfoldable pub take_bytes : ℕ → List ℕ → Scan (List ℕ × List ℕ)
take_bytes zero text = ok ([], text)
take_bytes (suc n) [] = over_read
take_bytes (suc n) (b ∷ text) = do (value, rest) ← take_bytes n text; ok (b ∷ value, rest)

pub record ExtensionInbound : Type 0 where
  pub offset : ℕ
  pub tag : ℕ
  pub length : ℕ
  pub value : List ℕ

-- ltpei_parse_extension, with the memory that it asks for granted. The third part of the result is
-- the offset of the next extension.
unfoldable pub parse_extension : ℕ → Cursor → Scan (ExtensionInbound × Cursor × ℕ)
parse_extension offset c = if below_one c.remaining then reject else do
  (tag, c₁) ← next_byte c
  (n, c₂) ← extract_small_sdnv c₁
  if n == 0 || ltb c₂.remaining n then reject else do
    (value, rest) ← take_bytes n c₂.bytes
    ok (
      record { offset = offset; tag = tag; length = n; value = value },
      record { bytes = rest; remaining = sub32 c₂.remaining n },
      (offset + sub32 c.remaining (sub32 c₂.remaining n)) % u32,
    )

unfoldable pub parse_extensions : ℕ → ℕ → Cursor → Scan (List ExtensionInbound × Cursor × ℕ)
parse_extensions zero offset c = ok ([], c, offset)
parse_extensions (suc n) offset c = do
  (ext, c', offset') ← parse_extension offset c
  (exts, c'', offset'') ← parse_extensions n offset' c'
  ok (ext ∷ exts, c'', offset'')

-- What ltpHandleInboundSegment reads before it calls a handler.
pub record Header : Type 0 where
  pub seg_type_code : ℕ
  pub source_engine_id : ℕ
  pub session_nbr : ℕ
  pub trailer_extensions_count : ℕ
  pub header_extensions : List ExtensionInbound
  pub header_length : ℕ

unfoldable pub parse_header : Cursor → Scan (Header × Cursor)
parse_header c = do
  (first, c₁) ← next_byte c
  if not (first / 16 % 16 == 0) then reject else do
    (engine, c₂) ← extract_sdnv c₁
    (session, c₃) ← extract_small_sdnv c₂
    if session == 0 then reject else do
      (counts, c₄) ← next_byte c₃
      (exts, c₅, offset) ← parse_extensions (counts / 16 % 16) (sub32 c.remaining c₄.remaining) c₄
      ok (
        record {
          seg_type_code = first % 16;
          source_engine_id = engine;
          session_nbr = session;
          trailer_extensions_count = counts % 16;
          header_extensions = exts;
          header_length = sub32 c.remaining c₅.remaining;
        },
        c₅,
      )

-- The serial numbers stand in a checkpoint only.
pub record DataContent : Type 0 where
  pub client_svc_id : ℕ
  pub offset : ℕ
  pub length : ℕ
  pub serial_nbrs : Option (ℕ × ℕ)

unfoldable pub parse_serial_nbrs : ℕ → Cursor → Scan (Option (ℕ × ℕ) × Cursor)
parse_serial_nbrs code c =
    if is_checkpoint code
    then (do
      (ckpt, c₁) ← extract_small_sdnv c
      (rpt, c₂) ← extract_small_sdnv c₁
      ok (some (ckpt, rpt), c₂))
    else ok (none, c)

-- The beginning of handleDataSegment.
unfoldable pub parse_data_content : ℕ → Cursor → Scan (DataContent × Cursor)
parse_data_content code c = do
  (client, c₁) ← extract_small_sdnv c
  (offset, c₂) ← extract_small_sdnv c₁
  (length, c₃) ← extract_small_sdnv c₂
  (nbrs, c₄) ← parse_serial_nbrs code c₃
  ok (record { client_svc_id = client; offset = offset; length = length; serial_nbrs = nbrs }, c₄)

-- A claim's end is computed in 32 bits.
unfoldable pub load_claims_array : ℕ → ℕ → ℕ → Cursor → Scan (List ReceptionClaim × Cursor)
load_claims_array zero lower upper c = ok ([], c)
load_claims_array (suc count) lower upper c = do
  (offset, c₁) ← extract_small_sdnv c
  (length, c₂) ← extract_small_sdnv c₁
  let start = (offset + lower) % u32
  if length == 0 || ltb upper ((start + length) % u32) then reject else do
    (claims, c₃) ← load_claims_array count lower upper c₂
    ok (record { offset = start; length = length } ∷ claims, c₃)

pub record ReportContent : Type 0 where
  pub rpt_serial_nbr : ℕ
  pub ckpt_serial_nbr : ℕ
  pub upper_bound : ℕ
  pub lower_bound : ℕ
  pub reception_claims : List ReceptionClaim

-- The beginning of handleRS, with the memory for the claims granted.
unfoldable pub parse_report_content : Cursor → Scan (ReportContent × Cursor)
parse_report_content c = do
  (rpt, c₁) ← extract_small_sdnv c
  (ckpt, c₂) ← extract_small_sdnv c₁
  (upper, c₃) ← extract_small_sdnv c₂
  (lower, c₄) ← extract_small_sdnv c₃
  (count, c₅) ← extract_small_sdnv c₄
  (claims, c₆) ← load_claims_array count lower upper c₅
  ok (
    record {
      rpt_serial_nbr = rpt;
      ckpt_serial_nbr = ckpt;
      upper_bound = upper;
      lower_bound = lower;
      reception_claims = claims;
    },
    c₆,
  )
