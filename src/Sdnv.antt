-- ===== src/Sdnv.antt =====
-- Self-delimiting numeric values: `encodeSdnv` and `decodeSdnv` of ltp/ici/library/platform.c, and
-- `_extractSdnv` and `_extractSmallSdnv` of ltp/ici/library/ion.c.
-- A uvast is a number below 2 ^ 64. `x & 0x7f` is `x % 128`, `x >> 7` is `x / 128` (the mask that
-- the source puts on the shifted value keeps all its bits), and `|` on disjoint bits is `+`.
pub mod Encode
pub mod Length
pub mod Decode
pub mod RoundTrip
mod Tests
use mini_ltp.Prelude.{
  ℕ, zero, suc, ◌+◌, ◌-◌, ◌*◌, ◌/◌, ◌%◌, ◌^◌, List, [], ◌∷◌, Bool, ◌||◌, ltb, leb, ◌==◌,
  if◌then◌else◌, Scan, ok, reject, over_read, ◌>>=◌,
}

abbrev pub u64 : ℕ
u64 = 2 ^ 64

abbrev pub u32 : ℕ
u32 = 2 ^ 32

-- The do-while loop that counts the bytes.
unfoldable pub sdnv_length_loop : ℕ → ℕ → ℕ → ℕ
sdnv_length_loop zero remnant length = length
sdnv_length_loop (suc fuel) remnant length =
    let rest = sdnv_length_loop fuel (remnant / 128) (length + 1) in
    if remnant / 128 == 0 then length + 1 else rest

-- Ten rounds of seven bits are more than a uvast has.
unfoldable pub sdnv_length : ℕ → ℕ
sdnv_length val = sdnv_length_loop 10 val 0

-- The loop that fills the text from its end; the flag is 0 for the byte written first.
unfoldable pub fill_text : ℕ → ℕ → ℕ → List ℕ → List ℕ
fill_text zero remnant flag text = text
fill_text (suc i) remnant flag text =
    fill_text i (remnant / 128) 128 ((remnant % 128 + flag) ∷ text)

unfoldable pub encode_sdnv : ℕ → List ℕ
encode_sdnv val = fill_text (sdnv_length val) val 0 []

-- The list is the memory from the cursor on. The first argument counts the bytes that may still
-- be read; the second one those read so far.
unfoldable pub decode_loop : ℕ → ℕ → ℕ → List ℕ → Scan (ℕ × ℕ × List ℕ)
decode_loop zero size val text = reject
decode_loop (suc left) size val [] = over_read
decode_loop (suc left) size val (b ∷ text) =
    let val' = val * 128 % u64 + b % 128 in
    let rest = decode_loop left (size + 1) val' text in
    if b / 128 % 2 == 0 then ok (val', size + 1, text) else rest

-- The value, its length in bytes and the memory behind it.
unfoldable pub decode_sdnv : List ℕ → Scan (ℕ × ℕ × List ℕ)
decode_sdnv text = decode_loop 10 0 0 text

-- `*cursor` and `*bytesRemaining`. The count is an int, kept as its bit pattern below 2 ^ 32.
pub record Cursor : Type 0 where
  pub bytes : List ℕ
  pub remaining : ℕ

-- `remnant < 1` for the int that the pattern stands for.
abbrev pub below_one : ℕ → Bool
below_one r = r == 0 || leb (2 ^ 31) r

abbrev pub sub32 : ℕ → ℕ → ℕ
sub32 a b = (a + u32 - b) % u32

unfoldable pub extract_sdnv : Cursor → Scan (ℕ × Cursor)
extract_sdnv c = if below_one c.remaining then reject else do
  (val, size, rest) ← decode_sdnv c.bytes
  ok (val, record { bytes = rest; remaining = sub32 c.remaining size })

-- The value is truncated to an unsigned int.
unfoldable pub extract_small_sdnv : Cursor → Scan (ℕ × Cursor)
extract_small_sdnv c = if below_one c.remaining then reject else do
  (val, size, rest) ← decode_sdnv c.bytes
  ok (val % u32, record { bytes = rest; remaining = sub32 c.remaining size })
