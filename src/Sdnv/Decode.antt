-- ===== src/Sdnv/Decode.antt =====
-- What a decoding takes from any input, well formed or not.
use mini_ltp.Prelude.{
  ℕ, zero, suc, ◌+◌, ◌*◌, ◌/◌, ◌%◌, ◌≤◌, ◌<◌, ◌≡◌, refl, List, [], ◌∷◌, length, All, arith, ok,
  over_read,
}
use mini_ltp.Sdnv.{u64, decode_loop, decode_sdnv}

decode_loop_takes :
    (left size val : ℕ) (text : List ℕ) (v n : ℕ) (rest : List ℕ)
    → val < u64
    → decode_loop left size val text ≡ ok (v, n, rest)
    → (v < u64) × (size < n) × (n ≤ size + left) × (length text + size ≡ length rest + n)
unfolding decode_loop
decode_loop_takes zero size val text v n rest hv e = cc
decode_loop_takes (suc left) size val [] v n rest hv e = cc
decode_loop_takes (suc left) size val (b ∷ text) v n rest hv e =
    ground (arith, decode_loop_takes left (size + 1) (val * 128 % u64 + b % 128) text v n rest)

-- A decoding that succeeds gives a uvast and takes 1 to 10 bytes.
decode_sdnv_takes :
    (text : List ℕ) (v n : ℕ) (rest : List ℕ)
    → decode_sdnv text ≡ ok (v, n, rest)
    → (v < u64) × (0 < n) × (n ≤ 10) × (length text ≡ length rest + n)
unfolding decode_sdnv
decode_sdnv_takes text v n rest e = ground (arith, decode_loop_takes 10 0 0 text v n rest)

decode_loop_cut :
    (left size val : ℕ) (text : List ℕ)
    → All (λ b. b / 128 % 2 ≡ 1) text
    → length text < left
    → decode_loop left size val text ≡ over_read
unfolding decode_loop
decode_loop_cut zero size val text h l = absurd (omega arith)
decode_loop_cut (suc left) size val [] h l = refl
decode_loop_cut (suc left) size val (b ∷ text) (h, hs) l =
    ground (arith, decode_loop_cut left (size + 1) (val * 128 % u64 + b % 128) text hs)

-- Without a last byte the reader runs off the end of the memory.
pub decode_sdnv_cut :
    (text : List ℕ)
    → All (λ b. b / 128 % 2 ≡ 1) text
    → length text < 10
    → decode_sdnv text ≡ over_read
unfolding decode_sdnv
decode_sdnv_cut text h l = decode_loop_cut 10 0 0 text h l
