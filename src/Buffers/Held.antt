-- ===== src/Buffers/Held.antt =====
-- A buffer that holds the part from `lo` to `hi` of a block as far as it has been received.
use mini_ltp.Prelude.{
  ℕ, ◌+◌, ◌-◌, ◌≤◌, ◌<◌, ◌≡◌, inl, inr, Bool, true, ◌||◌, ltb, if◌then◌else◌, arith, Bool-cases,
}
use mini_ltp.Claims.Cover.{in_range}
use mini_ltp.Buffers.{write_bytes}

module _ (content : ℕ → ℕ) (lo hi : ℕ) where
  -- A buffer for the bytes from `lo` to `hi`, of which `recv` says which ones have been received: it
  -- holds these, and its size ends with one of them.
  pub record Held (recv : ℕ → Bool) (buffer : ℕ → ℕ) (size : ℕ) : Type 0 where
    pub holds :
        (i : ℕ) → recv i ≡ true → lo ≤ i → i < hi → (i - lo < size) × (buffer (i - lo) ≡ content i)
    pub ends : 0 < size → (recv (lo + size - 1) ≡ true) × (lo + size ≤ hi)

  module _ (recv recv' : ℕ → Bool) (buffer : ℕ → ℕ) (size : ℕ) (v : Held recv buffer size) where
    pub Held-kept : ((i : ℕ) → lo ≤ i → i < hi → recv' i ≡ recv i) → Held recv' buffer size
    Held-kept same = record {
      holds = λ i r l h. v.holds i (ground (arith, same i l h)) l h;
      ends = λ p. (
        ground (arith, same (lo + size - 1) (omega arith) (ground (arith, v.ends p)), v.ends p),
        ground (arith, v.ends p),
      );
    }

    pub Held-written :
        (cursor : ℕ → ℕ) (at pos count : ℕ)
        → pos ≡ lo + at
        → 0 < count
        → pos + count ≤ hi
        → ((j : ℕ) → j < count → cursor j ≡ content (pos + j))
        → ((i : ℕ) → lo ≤ i → i < hi → recv' i ≡ (in_range i pos count || recv i))
        → Held recv'
            (write_bytes at count cursor buffer)
            (if ltb size (at + count) then at + count else size)
    unfolding write_bytes
    Held-written cursor at pos count e p h same added = record {
      holds = λ i r a b. elim (Bool-cases (in_range i pos count)) [
        | inl new ↦
            let moved : i - lo - at ≡ i - pos = ground arith in
            let back : pos + (i - pos) ≡ i = ground arith in
            (ground arith, ground (arith, moved, back, same (i - pos)))
        | inr old ↦
            let (below, kept) = v.holds i (ground (arith, added i a b)) a b in
            (ground arith, ground (arith, kept))
      ];
      ends = λ z. elim (Bool-cases (ltb size (at + count))) [
        | inl grown ↦
            let top : lo + (at + count) - 1 ≡ pos + count - 1 = omega arith in
            rw grown (
              rw top (ground (arith, added (pos + count - 1) (omega arith) (omega arith))),
              omega arith,
            )
        | inr same_size ↦
            let some_size : 0 < size = ground arith in
            let (r, b) = v.ends some_size in
            rw same_size (ground (arith, added (lo + size - 1) (omega arith) (omega arith)), b)
      ];
    }
