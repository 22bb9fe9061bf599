-- ===== src/Prelude/Outcome.antt =====
-- The outcome of a routine that reads a received segment.

-- `reject` is the early `return 0` by which a segment is ignored; `over_read` is a read behind
-- the last byte of the memory that holds the segment.
pub data Scan {ℓ} (A : Type ℓ) : Type ℓ where
  ok : A → Scan A
  reject : Scan A
  over_read : Scan A

infixl 5 ◌>>=◌
abbrev pub ◌>>=◌ {ℓ κ} : {A : Type ℓ} {B : Type κ} → Scan A → (A → Scan B) → Scan B
ok a >>= f = f a
reject >>= f = reject
over_read >>= f = over_read
