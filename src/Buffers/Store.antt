-- ===== src/Buffers/Store.antt =====
-- The buffers hold the bytes of the segments that have been received.
use mini_ltp.Prelude.{
  ℕ, ◌+◌, ◌-◌, ◌≤◌, ◌<◌, ◌≡◌, refl, ap, ◌∙◌, inl, inr, Bool, ◌||◌, leb, arith, some, Bool-cases,
}
use mini_ltp.Claims.Cover.{in_range}
use mini_ltp.Reception.{RecvSeg}
use mini_ltp.Reception.Disjoint.{int_limit}
use mini_ltp.Buffers.{Buffers, write_content}
use mini_ltp.Buffers.Held.{Held, Held-kept, Held-written}
use mini_ltp.Buffers.Write.{
  Fits, all_in_heap, all_in_file, across, in_heap_lem, heap_written, write_heap-some, file_written,
  write_file_some, write_heap_none, write_file_none, write_content_lem,
}

-- The buffers of a session of which `recv` says what bytes have been received: the first
-- `max_acq_in_heap` bytes belong into the heap buffer, and the others into the file.
pub record IsStored (max_acq_in_heap : ℕ) (content : ℕ → ℕ) (recv : ℕ → Bool) (b : Buffers)
    : Type 0 where
  pub heap : Held content 0 max_acq_in_heap recv b.heap_buffer b.block_obj_size
  pub file : Held content max_acq_in_heap int_limit recv b.file_buffer b.block_file_size

module _ (m : ℕ) (content : ℕ → ℕ) (recv recv' : ℕ → Bool) (seg : RecvSeg) (cursor : ℕ → ℕ) where
  module _ (b : Buffers) (v : IsStored m content recv b) (p : 0 < seg.length)
      (bound : seg.offset + seg.length < int_limit)
      (same : (j : ℕ) → j < seg.length → cursor j ≡ content (seg.offset + j))
      (added : (i : ℕ) → recv' i ≡ (in_range i seg.offset seg.length || recv i)) where
    abbrev Written : Type 0
    Written =
        (b' : Buffers) × (write_content m seg cursor b ≡ some b')
        × IsStored m content recv' b'
        × (b'.heap_buffer_size ≡ b.heap_buffer_size)

    file_only : Fits m seg b → m ≤ seg.offset → b.heap_buffer_size ≡ m
    file_only (inl same_size) h = same_size
    file_only (inr (far, near)) h = absurd (omega arith)

    written_in_heap : Fits m seg b → seg.offset + seg.length ≤ m → Written
    written_in_heap fits h =
        let (e, f) = all_in_heap m seg bound p h in
        let b' : Buffers = heap_written cursor seg.offset seg.length b in
        (
          b',
          write_content_lem m seg cursor b b' seg.length 0 e f (
                write_heap-some cursor seg.offset seg.length b p
                  (in_heap_lem m seg bound p b fits (omega arith) seg.length h (omega arith)))
              ∙ ap some (write_file_none (λ i. cursor (seg.length + i)) seg.offset b'),
          record {
            heap =
                Held-written content 0 m recv recv' b.heap_buffer b.block_obj_size v.heap cursor
                  seg.offset seg.offset seg.length (omega arith) p h same (λ i l u. added i);
            file =
                Held-kept content m int_limit recv recv' b.file_buffer b.block_file_size v.file
                  (λ i l u. ground (arith, added i));
          },
          refl,
        )

    written_in_file : Fits m seg b → m ≤ seg.offset → Written
    written_in_file fits h =
        let (e, f) = all_in_file m seg bound p h in
        let size : b.heap_buffer_size ≡ m = file_only fits h in
        let b' : Buffers = file_written (λ i. cursor (0 + i)) seg.offset seg.length b in
        (
          b',
          write_content_lem m seg cursor b b 0 seg.length e f (write_heap_none cursor seg.offset b)
              ∙ ap some (write_file_some (λ i. cursor (0 + i)) seg.offset seg.length b p),
          record {
            heap =
                Held-kept content 0 m recv recv' b.heap_buffer b.block_obj_size v.heap
                  (λ i l u. ground (arith, added i));
            file =
                Held-written content m int_limit recv recv' b.file_buffer b.block_file_size v.file
                  (λ i. cursor (0 + i)) (seg.offset - b.heap_buffer_size) seg.offset seg.length
                  (omega arith) p (omega arith)
                  (λ j k. let start : 0 + j ≡ j = omega arith in rw start (same j k))
                  (λ i l u. added i);
          },
          refl,
        )

    written_across : Fits m seg b → seg.offset < m → m < seg.offset + seg.length → Written
    written_across fits l h =
        let (e, f) = across m seg bound p l h in
        let size : b.heap_buffer_size ≡ m = elim fits [
          | inl same_size ↦ same_size
          | inr (far, near) ↦ absurd (omega arith)
        ] in
        let heaped : Buffers = heap_written cursor seg.offset (m - seg.offset) b in
        let rest : ℕ → ℕ = λ i. cursor (m - seg.offset + i) in
        let b' : Buffers = file_written rest seg.offset (seg.offset + seg.length - m) heaped in
        (
          b',
          write_content_lem m seg cursor b heaped (m - seg.offset) (seg.offset + seg.length - m) e f
                (write_heap-some cursor seg.offset (m - seg.offset) b (omega arith) (omega arith))
              ∙ ap some (
                  write_file_some rest seg.offset (seg.offset + seg.length - m) heaped
                    (omega arith)),
          record {
            heap =
                Held-written content 0 m recv recv' b.heap_buffer b.block_obj_size v.heap cursor
                  seg.offset seg.offset (m - seg.offset) (omega arith) (omega arith) (omega arith)
                  (λ j k. same j (omega arith)) (λ i a u. ground (arith, added i));
            file =
                Held-written content m int_limit recv recv' b.file_buffer b.block_file_size v.file
                  rest (seg.offset - b.heap_buffer_size) m (seg.offset + seg.length - m)
                  (omega arith) (omega arith) (omega arith)
                  (λ j k.
                    let back : seg.offset + (m - seg.offset + j) ≡ m + j = omega arith in
                    rw (← back) (same (m - seg.offset + j) (omega arith)))
                  (λ i a u. ground (arith, added i));
          },
          refl,
        )

    pub written : Fits m seg b → Written
    written fits = elim (Bool-cases (leb m seg.offset)) [
      | inl file ↦ written_in_file fits (ground arith)
      | inr some_heap ↦ elim (Bool-cases (leb (seg.offset + seg.length) m)) [
        | inl heap ↦ written_in_heap fits (ground arith)
        | inr both ↦ written_across fits (ground arith) (ground arith)
      ]
    ]
