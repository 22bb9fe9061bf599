-- ===== src/Sdnv/Tests.antt =====
-- Runs of the encoder and the decoder, and the theorems at concrete inputs.
use mini_ltp.Prelude.{ℕ, ◌≡◌, refl, List, [], ◌∷◌, ◌++◌, length, arith, ok, reject}
use mini_ltp.Sdnv.{sdnv_length, sdnv_length_loop, fill_text, encode_sdnv, decode_loop, decode_sdnv}
use mini_ltp.Sdnv.RoundTrip.{decode_sdnv-encode_sdnv}

encode_300 : encode_sdnv 300 ≡ 0x82 ∷ 0x2c ∷ []
unfolding encode_sdnv sdnv_length sdnv_length_loop fill_text
encode_300 = refl

encode_zero : encode_sdnv 0 ≡ 0 ∷ []
unfolding encode_sdnv sdnv_length sdnv_length_loop fill_text
encode_zero = refl

decode_padded : decode_sdnv (0x80 ∷ 0x05 ∷ 9 ∷ []) ≡ ok (5, 2, 9 ∷ [])
unfolding decode_sdnv decode_loop
decode_padded = refl

abbrev ten_ff : List ℕ
ten_ff = 255 ∷ 255 ∷ 255 ∷ 255 ∷ 255 ∷ 255 ∷ 255 ∷ 255 ∷ 255 ∷ 255 ∷ 1 ∷ []

decode_too_long : decode_sdnv ten_ff ≡ reject
unfolding decode_sdnv decode_loop
decode_too_long = refl

decode_sdnv-encode_sdnv_example :
    decode_sdnv (encode_sdnv 300 ++ 7 ∷ []) ≡ ok (300, length (encode_sdnv 300), 7 ∷ [])
decode_sdnv-encode_sdnv_example = decode_sdnv-encode_sdnv 300 (7 ∷ []) (omega arith)
