-- ===== src/Queue/Tests.antt =====
-- An acknowledgment that overtakes data.
use mini_ltp.Prelude.{◌≡◌, refl, List, [], ◌∷◌}
use mini_ltp.Queue.{QueuedSeg, is_ack, enqueue_ack_segment, cancel_ack_segment, cancel_req_segment}
use mini_ltp.Queue.Acks.{Overtakes, enqueue_ack_segment-Overtakes}

abbrev ack : QueuedSeg
ack = cancel_ack_segment 13 1 7

abbrev waiting : List QueuedSeg
waiting = cancel_ack_segment 15 1 6 ∷ cancel_req_segment 12 1 5 2 ∷ []

overtaken :
    enqueue_ack_segment ack waiting
    ≡ cancel_ack_segment 15 1 6 ∷ ack ∷ cancel_req_segment 12 1 5 2 ∷ []
unfolding enqueue_ack_segment is_ack cancel_ack_segment cancel_req_segment
overtaken = refl

enqueue_ack_segment-Overtakes_example : Overtakes ack waiting (enqueue_ack_segment ack waiting)
enqueue_ack_segment-Overtakes_example = enqueue_ack_segment-Overtakes ack waiting
