-- ===== src/Queue/Contents.antt =====
-- Which segments stand in a queue.
use mini_ltp.Prelude.{
  ℕ, ◌+◌, ◌≡◌, refl, length, List, [], ◌∷◌, ◌++◌, Bool, false, ◌||◌, ◌&&◌, ◌==◌, arith, Bool-cases,
  inl, inr,
}
use mini_ltp.Segment.{no_ctrl_flag}
use mini_ltp.Queue.{QueuedSeg, is_ack, enqueue_ack_segment}

module _ (p : QueuedSeg → Bool) where
  abbrev pub queued : List QueuedSeg → Bool
  queued [] = false
  queued (seg ∷ segments) = p seg || queued segments

  pub queued-append : (xs ys : List QueuedSeg) → queued (xs ++ ys) ≡ (queued xs || queued ys)
  queued-append [] ys = refl
  queued-append (x ∷ xs) ys = ground (arith, queued-append xs ys)

  pub queued-enqueue_ack_segment :
      (ack : QueuedSeg) (xs : List QueuedSeg)
      → queued (enqueue_ack_segment ack xs) ≡ (p ack || queued xs)
  unfolding enqueue_ack_segment
  queued-enqueue_ack_segment ack [] = refl
  queued-enqueue_ack_segment ack (x ∷ xs) = elim (Bool-cases (is_ack x)) [
    | inl a ↦ rw a (ground (arith, queued-enqueue_ack_segment ack xs))
    | inr a ↦ rw a refl
  ]

-- A data segment of the session, and a segment of one type for it.
abbrev pub is_data_of : ℕ → QueuedSeg → Bool
is_data_of nbr seg = no_ctrl_flag seg.seg_type_code && seg.session_nbr == nbr

abbrev pub is_for : ℕ → ℕ → QueuedSeg → Bool
is_for code nbr seg = seg.seg_type_code == code && seg.session_nbr == nbr

pub length-enqueue_ack_segment :
    (ack : QueuedSeg) (xs : List QueuedSeg) → length (enqueue_ack_segment ack xs) ≡ length xs + 1
unfolding enqueue_ack_segment
length-enqueue_ack_segment ack [] = refl
length-enqueue_ack_segment ack (x ∷ xs) = elim (Bool-cases (is_ack x)) [
  | inl a ↦ rw a (omega (arith, length-enqueue_ack_segment ack xs))
  | inr a ↦ rw a (omega arith)
]
