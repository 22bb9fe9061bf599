-- ===== src/Queue/Acks.antt =====
-- Acknowledgments overtake data, and not one another.
use mini_ltp.Prelude.{◌≡◌, refl, ap, inl, inr, List, [], ◌∷◌, ◌++◌, true, false, Bool-cases, All}
use mini_ltp.Queue.{QueuedSeg, is_ack, enqueue_ack_segment}

abbrev BeginsWithoutAck : List QueuedSeg → Type 0
BeginsWithoutAck [] = Unit {0}
BeginsWithoutAck (seg ∷ segments) = is_ack seg ≡ false

-- The queue is cut behind the acknowledgments at its head, and the new one goes there.
abbrev pub Overtakes : QueuedSeg → List QueuedSeg → List QueuedSeg → Type 0
Overtakes ack segments segments' =
    (acks : List QueuedSeg) × (rest : List QueuedSeg) × (segments ≡ acks ++ rest)
    × (segments' ≡ acks ++ ack ∷ rest)
    × All (λ seg. is_ack seg ≡ true) acks
    × BeginsWithoutAck rest

-- An acknowledgment is queued behind the acknowledgments at the head of the queue and before
-- everything else, and the order of the other segments stays.
pub enqueue_ack_segment-Overtakes :
    (ack : QueuedSeg) (segments : List QueuedSeg)
    → Overtakes ack segments (enqueue_ack_segment ack segments)
unfolding enqueue_ack_segment
enqueue_ack_segment-Overtakes ack [] = ([], [], refl, refl, tt, tt)
enqueue_ack_segment-Overtakes ack (seg ∷ segments) = elim (Bool-cases (is_ack seg)) [
  | inl e ↦
      let (acks, rest, split, split', a, b) = enqueue_ack_segment-Overtakes ack segments in
      (seg ∷ acks, rest, ap (λ l. seg ∷ l) split, rw e (ap (λ l. seg ∷ l) split'), (e, a), b)
  | inr e ↦ ([], seg ∷ segments, refl, rw e refl, tt, e)
]
