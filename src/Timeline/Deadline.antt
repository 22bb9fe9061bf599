-- ===== src/Timeline/Deadline.antt =====
-- When a timer that is set runs out.
use mini_ltp.Prelude.{ℕ, ◌+◌, ◌/◌, ◌<◌, ◌≡◌, ◌⊎◌, List}
use mini_ltp.Timer.{Timer, TimerState}
use mini_ltp.Timer.Outage.{IsRunning}
use mini_ltp.Timeline.{LtpEvent, Link, rad_time, seg_arrival_time_offset, deadline}
use mini_ltp.Timeline.Order.{IsSorted, InsertedInOrder}

-- The times that the segment needs until it has arrived, and until the answer is due.
abbrev pub outbound_delay : Link → ℕ → ℕ
outbound_delay link segment_length =
    rad_time link segment_length + link.owlt_outbound + link.own_qtime / 2

abbrev round_trip : Link → ℕ → ℕ
round_trip link segment_length =
    outbound_delay link segment_length + link.remote_qtime + link.owlt_inbound + link.own_qtime / 2

module _ (link : Link) (current_sec segment_length : ℕ) (event : LtpEvent) (timer : Timer) where
  -- Either the remote engine transmits, the timer runs, and its event stands in the timeline; or the
  -- timer waits for the link.
  abbrev pub IsTimed : List LtpEvent → Timer × List LtpEvent → Type 0
  IsTimed timeline (timer', timeline') =
      (timer'.seg_arrival_time ≡ current_sec + outbound_delay link segment_length)
      × (timer'.ack_deadline ≡ current_sec + round_trip link segment_length)
      × (timer'.expiration_count ≡ timer.expiration_count)
      × ((0 < link.remote_xmit_rate
            × IsRunning timer'
            × InsertedInOrder (record event { scheduled_time = timer'.ack_deadline }) timeline
                timeline'
            × IsSorted timeline')
          ⊎ ((link.remote_xmit_rate ≡ 0)
              × (timer'.state ≡ TimerState.suspended)
              × (timeline' ≡ timeline)))

  abbrev timed : Timer
  timed = record timer {
    seg_arrival_time = current_sec + seg_arrival_time_offset link segment_length;
    ack_deadline = deadline link current_sec segment_length event.type;
  }
