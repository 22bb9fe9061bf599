-- ===== src/Sdnv/RoundTrip.antt =====
-- Decoding what was encoded.
use mini_ltp.Prelude.{
  ℕ, zero, suc, ◌+◌, ◌-◌, ◌*◌, ◌/◌, ◌%◌, ◌^◌, ◌<◌, ◌≡◌, refl, ◌∙◌, ap₂, List, [], ◌∷◌, ◌++◌, length,
  length-append, false, append_assoc, arith, ok,
}
use mini_ltp.Sdnv.{
  u64, u32, below_one, sub32, encode_sdnv, decode_loop, decode_sdnv, Cursor, extract_sdnv,
  extract_small_sdnv,
}
use mini_ltp.Sdnv.Encode.{
  continuation, encode_sdnv-continuation, length-continuation, length-encode_sdnv,
}

last_byte :
    (left size val b : ℕ) (rest : List ℕ)
    → b < 128
    → decode_loop (suc left) size val (b ∷ rest) ≡ ok (val * 128 % u64 + b, size + 1, rest)
unfolding decode_loop
last_byte left size val b rest h = ground arith

inner_byte :
    (left size val b : ℕ) (rest : List ℕ)
    → b < 128
    → decode_loop (suc left) size val ((b + 128) ∷ rest)
      ≡ decode_loop left (size + 1) (val * 128 % u64 + b) rest
unfolding decode_loop
inner_byte left size val b rest h = ground arith

-- `k` groups with the continuation bit: the reader holds their value and reads on.
decode_loop-continuation :
    (k left n size m r : ℕ) (rest : List ℕ)
    → n ≡ k + left
    → m ≡ size + k
    → r < 128 ^ k
    → r < u64
    → decode_loop n size 0 (continuation k r ++ rest) ≡ decode_loop left m r rest
unfolding continuation
decode_loop-continuation zero left n size m r rest e₁ e₂ h w =
    let a : n ≡ left = omega arith in
    let b : m ≡ size = omega arith in let c : r ≡ 0 = omega arith in rw (a, b, c)
decode_loop-continuation (suc k) left n size m r rest e₁ e₂ h w =
    let b : ℕ = r % 128 in
    rw (append_assoc (continuation k (r / 128)) ((b + 128) ∷ []) rest) (
      decode_loop-continuation k (suc left) n size (size + k) (r / 128) ((b + 128) ∷ rest)
        (omega arith) refl (omega arith) (omega arith)
      ∙ inner_byte left (size + k) (r / 128) b rest (omega arith)
      ∙ ap₂ (λ s v. decode_loop left s v rest) (omega arith) (omega arith))

-- `decodeSdnv` reads back a value below 2 ^ 64 that `encodeSdnv` wrote, takes just its bytes, and
-- does not look at what follows them.
pub decode_sdnv-encode_sdnv :
    (v : ℕ) (rest : List ℕ)
    → v < u64
    → decode_sdnv (encode_sdnv v ++ rest) ≡ ok (v, length (encode_sdnv v), rest)
unfolding decode_sdnv
decode_sdnv-encode_sdnv v rest h =
    let (k, e, fits) = encode_sdnv-continuation v h in
    let b : ℕ = v % 128 in
    let size : k + 1 ≡ length (continuation k (v / 128) ++ b ∷ []) =
      omega (
        arith,
        length-append (continuation k (v / 128)) (b ∷ []),
        length-continuation k (v / 128),
      ) in
    let value : v / 128 * 128 % u64 + b ≡ v = omega arith in
    rw e (
      rw (append_assoc (continuation k (v / 128)) (b ∷ []) rest) (
        decode_loop-continuation k (suc (9 - k)) 10 0 k (v / 128) (b ∷ rest)
          (omega (arith, fits.most)) (omega arith) (omega (arith, fits.wide)) (omega arith)
        ∙ last_byte (9 - k) k (v / 128) b rest (omega arith)
        ∙ ap₂ (λ s n. ok (s, n, rest)) value size))

-- The cursor over `n` received bytes, the first of them those of `text`.
abbrev pub cursor : List ℕ → ℕ → Cursor
cursor text n = record { bytes = text; remaining = n }

module _ (v n : ℕ) (rest : List ℕ) (fits : length (encode_sdnv v) + n < 2 ^ 31) where
  not_below_one : v < u64 → below_one (length (encode_sdnv v) + n) ≡ false
  not_below_one h = let p = length-encode_sdnv v h in ground (arith, p.pos)

  moved : sub32 (length (encode_sdnv v) + n) (length (encode_sdnv v)) ≡ n
  moved = omega arith

  -- `_extractSdnv` reads one value of at most 64 bits and leaves the cursor behind it.
  pub extract_sdnv-encode_sdnv :
      v < u64
      → extract_sdnv (cursor (encode_sdnv v ++ rest) (length (encode_sdnv v) + n))
        ≡ ok (v, cursor rest n)
  unfolding extract_sdnv
  extract_sdnv-encode_sdnv h = rw (not_below_one h, decode_sdnv-encode_sdnv v rest h, moved)

  -- So does `_extractSmallSdnv` with a value of at most 32 bits.
  pub extract_small_sdnv-encode_sdnv :
      v < u32
      → extract_small_sdnv (cursor (encode_sdnv v ++ rest) (length (encode_sdnv v) + n))
        ≡ ok (v, cursor rest n)
  unfolding extract_small_sdnv
  extract_small_sdnv-encode_sdnv h =
      let h' : v < u64 = omega arith in
      let w : v % u32 ≡ v = omega arith in
      rw (not_below_one h', decode_sdnv-encode_sdnv v rest h', moved, w)
