-- ===== src/Sdnv/Encode.antt =====
-- What `encodeSdnv` writes: the groups of seven bits, highest first, as few as hold the value.
use mini_ltp.Prelude.{
  ℕ, zero, suc, ◌+◌, ◌-◌, ◌/◌, ◌%◌, ◌^◌, ◌≤◌, ◌<◌, ◌≡◌, refl, sym, ap, ◌∙◌, ◌⊎◌, inl, inr, List, [],
  ◌∷◌, ◌++◌, length, length-append, append_assoc, arith, ◌==◌, Bool-cases,
}
use mini_ltp.Sdnv.{u64, sdnv_length, sdnv_length_loop, fill_text, encode_sdnv}

-- The bytes before the last one: `i` groups of `r`, each with the continuation bit.
unfoldable pub continuation : ℕ → ℕ → List ℕ
continuation zero r = []
continuation (suc i) r = continuation i (r / 128) ++ (r % 128 + 128) ∷ []

fill_text-continuation :
    (i r : ℕ) (text : List ℕ) → fill_text i r 128 text ≡ continuation i r ++ text
unfolding fill_text continuation
fill_text-continuation zero r text = refl
fill_text-continuation (suc i) r text =
    fill_text-continuation i (r / 128) ((r % 128 + 128) ∷ text)
    ∙ sym (append_assoc (continuation i (r / 128)) ((r % 128 + 128) ∷ []) text)

-- The length found is enough for the value, and no shorter one is.
pub record Fits (r n k : ℕ) : Type 0 where
  pub pos : 1 ≤ k
  pub most : k ≤ n
  pub wide : r < 128 ^ k
  pub least : (k ≡ 1) ⊎ (128 ^ (k - 1) ≤ r)

Fits-suc : (r n k : ℕ) → 0 < r / 128 → Fits (r / 128) n k → Fits r (suc n) (suc k)
Fits-suc r n zero p f = absurd (omega (arith, f.pos))
Fits-suc r n (suc k) p f = record {
  pos = omega arith;
  most = omega (arith, f.most);
  wide = omega (arith, f.wide);
  least = inr (below f.least);
}
  where
    below : (suc k ≡ 1) ⊎ (128 ^ (suc k - 1) ≤ r / 128) → 128 ^ (suc (suc k) - 1) ≤ r
    below (inl e) = let e' : k ≡ 0 = omega (arith, e) in rw e' (omega arith)
    below (inr h) =
        let e₁ : suc k - 1 ≡ k = omega arith in
        let e₂ : suc (suc k) - 1 ≡ suc k = omega arith in rw e₂ (omega (arith, rw e₁ at h))

Fits-one : (r n : ℕ) → r / 128 ≡ 0 → Fits r (suc n) 1
Fits-one r n h = record {
  pos = omega arith;
  most = omega arith;
  wide = omega arith;
  least = inl refl;
}

Measured : (f r n : ℕ) → Type 0
Measured f r n = (k : ℕ) × (sdnv_length_loop f r n ≡ n + k) × Fits r f k

Measured-suc : (f r n : ℕ) → 0 < r / 128 → Measured f (r / 128) (n + 1) → Measured (suc f) r n
unfolding Measured sdnv_length_loop
Measured-suc f r n p (k, e, fits) = (suc k, ground (arith, e), Fits-suc r f k p fits)

sdnv_length_loop-Fits :
    (f r n : ℕ)
    → r < 128 ^ suc f
    → (k : ℕ) × (sdnv_length_loop (suc f) r n ≡ n + k) × Fits r (suc f) k
unfolding sdnv_length_loop Measured
sdnv_length_loop-Fits zero r n h = (1, ground arith, Fits-one r 0 (omega arith))
sdnv_length_loop-Fits (suc f) r n h = elim (Bool-cases (r / 128 == 0)) [
  | inl done ↦ (1, rw done, Fits-one r (suc f) (ground arith))
  | inr more ↦
      Measured-suc (suc f) r n (ground arith)
        (sdnv_length_loop-Fits f (r / 128) (n + 1) (omega arith))
]

filled :
    (v k : ℕ)
    → sdnv_length v ≡ 0 + suc k
    → fill_text (sdnv_length v) v 0 [] ≡ continuation k (v / 128) ++ (v % 128) ∷ []
unfolding fill_text
filled v k e =
    let e' : sdnv_length v ≡ suc k = omega (arith, e) in
    let z : v % 128 + 0 ≡ v % 128 = omega arith in
    rw (e', fill_text) (rw z (fill_text-continuation k (v / 128) ((v % 128) ∷ [])))

-- The bytes of a value: a group of seven bits in each, highest first.
pub encode_sdnv-continuation :
    (v : ℕ)
    → v < u64
    → (k : ℕ) × (encode_sdnv v ≡ continuation k (v / 128) ++ (v % 128) ∷ []) × Fits v 10 (suc k)
unfolding encode_sdnv
encode_sdnv-continuation v h = go (sdnv_length_loop-Fits 9 v 0 (omega arith))
  where
    go :
        (k : ℕ) × (sdnv_length_loop 10 v 0 ≡ 0 + k) × Fits v 10 k
        → (k : ℕ) × (fill_text (sdnv_length v) v 0 [] ≡ continuation k (v / 128) ++ (v % 128) ∷ [])
          × Fits v 10 (suc k)
    go (zero, e, fits) = absurd (omega (arith, fits.pos))
    go (suc k, e, fits) = (k, filled v k (unfold sdnv_length in e), fits)

pub length-continuation : (k r : ℕ) → length (continuation k r) ≡ k
unfolding continuation
length-continuation zero r = refl
length-continuation (suc k) r = omega (
  arith,
  length-append (continuation k (r / 128)) ((r % 128 + 128) ∷ []),
  length-continuation k (r / 128),
)

-- A uvast takes 1 to 10 bytes, as few as hold it: a value of k bytes is below 128 ^ k, and it is
-- at least 128 ^ (k - 1) unless k is 1.
pub length-encode_sdnv : (v : ℕ) → v < u64 → Fits v 10 (length (encode_sdnv v))
length-encode_sdnv v h =
    let (k, e, fits) = encode_sdnv-continuation v h in
    let n : length (encode_sdnv v) ≡ suc k =
      ap length e
      ∙ length-append (continuation k (v / 128)) ((v % 128) ∷ [])
      ∙ omega (arith, length-continuation k (v / 128)) in
    rw n fits
