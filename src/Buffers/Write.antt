-- ===== src/Buffers/Write.antt =====
-- What acceptRedContent writes where a segment lies in the heap buffer, in the file, or in both.
use mini_ltp.Prelude.{
  ℕ, ◌+◌, ◌-◌, ◌≤◌, ◌<◌, ◌≡◌, refl, ◌⊎◌, inl, inr, false, ltb, ◌==◌, if◌then◌else◌, arith, some,
}
use mini_ltp.Claims.{add32}
use mini_ltp.Reception.{RecvSeg}
use mini_ltp.Reception.Disjoint.{int_limit}
use mini_ltp.Buffers.{
  Buffers, bytes_for_heap, bytes_for_file, write_bytes, write_heap, offset_in_file, write_file,
  write_rest, write_content,
}

-- The heap buffer is as large as it may be, or the segment ends within it.
abbrev pub Fits : ℕ → RecvSeg → Buffers → Type 0
Fits max_acq_in_heap seg b =
    (b.heap_buffer_size ≡ max_acq_in_heap)
    ⊎ ((seg.offset + seg.length ≤ b.heap_buffer_size) × (b.heap_buffer_size ≤ max_acq_in_heap))

module _ (m : ℕ) (seg : RecvSeg) (bound : seg.offset + seg.length < int_limit)
    (p : 0 < seg.length) where
  no_wrap : add32 seg.offset seg.length ≡ seg.offset + seg.length
  no_wrap = omega arith

  pub all_in_heap :
      seg.offset + seg.length ≤ m → (bytes_for_heap m seg ≡ seg.length) × (bytes_for_file m seg ≡ 0)
  unfolding bytes_for_heap bytes_for_file
  all_in_heap h = (ground arith, ground (arith, no_wrap))

  pub all_in_file :
      m ≤ seg.offset → (bytes_for_heap m seg ≡ 0) × (bytes_for_file m seg ≡ seg.length)
  unfolding bytes_for_heap bytes_for_file
  all_in_file h = (ground arith, ground (arith, no_wrap))

  pub across :
      seg.offset < m
      → m < seg.offset + seg.length
      → (bytes_for_heap m seg ≡ m - seg.offset)
        × (bytes_for_file m seg ≡ seg.offset + seg.length - m)
  unfolding bytes_for_heap bytes_for_file
  across l h = (ground arith, ground (arith, no_wrap))

  pub in_heap_lem :
      (b : Buffers)
      → Fits m seg b
      → seg.offset < m
      → (count : ℕ) → seg.offset + count ≤ m
      → count ≤ seg.length
      → seg.offset + count ≤ b.heap_buffer_size
  in_heap_lem b (inl e) l count h k = omega arith
  in_heap_lem b (inr (e, k)) l count h c = omega arith

module _ (cursor : ℕ → ℕ) (offset count : ℕ) (b : Buffers) where
  abbrev pub heap_written : Buffers
  heap_written = record b {
    heap_buffer = write_bytes offset count cursor b.heap_buffer;
    block_obj_size =
        if ltb b.block_obj_size (offset + count) then offset + count else b.block_obj_size;
  }

  pub write_heap-some :
      0 < count
      → offset + count ≤ b.heap_buffer_size
      → write_heap offset count cursor b ≡ some heap_written
  unfolding write_heap
  write_heap-some p h =
      let n : (count == 0) ≡ false = ground arith in
      let f : ltb b.heap_buffer_size (offset + count) ≡ false = ground arith in rw (n, f)

  abbrev pub file_written : Buffers
  file_written = record b {
    file_buffer = write_bytes (offset - b.heap_buffer_size) count cursor b.file_buffer;
    block_file_size =
        if ltb b.block_file_size (offset - b.heap_buffer_size + count)
        then offset - b.heap_buffer_size + count
        else b.block_file_size;
  }

  in_file_lem : offset_in_file offset b ≡ offset - b.heap_buffer_size
  unfolding offset_in_file
  in_file_lem = ground arith

  pub write_file_some : 0 < count → write_file offset count cursor b ≡ file_written
  unfolding write_file
  write_file_some p = let n : (count == 0) ≡ false = ground arith in rw (n, in_file_lem)

pub write_heap_none :
    (cursor : ℕ → ℕ) (offset : ℕ) (b : Buffers) → write_heap offset 0 cursor b ≡ some b
unfolding write_heap
write_heap_none cursor offset b = refl

pub write_file_none : (cursor : ℕ → ℕ) (offset : ℕ) (b : Buffers) → write_file offset 0 cursor b ≡ b
unfolding write_file
write_file_none cursor offset b = refl

pub write_content_lem :
    (m : ℕ) (seg : RecvSeg) (cursor : ℕ → ℕ) (b b' : Buffers) (for_heap for_file : ℕ)
    → bytes_for_heap m seg ≡ for_heap
    → bytes_for_file m seg ≡ for_file
    → write_heap seg.offset for_heap cursor b ≡ some b'
    → write_content m seg cursor b
      ≡ some (write_file seg.offset for_file (λ i. cursor (for_heap + i)) b')
unfolding write_content write_rest
write_content_lem m seg cursor b b' for_heap for_file e f s = rw (e, s, e, f)
