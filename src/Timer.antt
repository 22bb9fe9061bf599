-- ===== src/Timer.antt =====
-- The timers of checkpoints, reports and cancellations: suspendTimer and resumeTimer of
-- ltp/library/libltpP.c, which stop a timer while the remote engine cannot transmit.
-- Times are seconds since 1970, and delays are short enough for an int. Of the timeline only the timer's own event matters here: it is the
-- time for which the event is scheduled, or none.
pub mod Outage
mod Tests
use mini_ltp.Prelude.{ℕ, ◌+◌, ◌-◌, ltb, if◌then◌else◌, Option, none, some}

pub data TimerState : Type 0 where
  suspended : TimerState
  running : TimerState

pub record Timer : Type 0 where
  pub seg_arrival_time : ℕ
  pub ack_deadline : ℕ
  pub expiration_count : ℕ
  pub state : TimerState
  pub event : Option ℕ

-- When the remote engine starts to transmit the acknowledgment.
unfoldable pub ack_xmit_start_time : Timer → ℕ → ℕ
ack_xmit_start_time timer q_time = timer.seg_arrival_time + q_time

unfoldable pub suspend_timer : ℕ → ℕ → Timer → Timer
suspend_timer suspend_time q_time timer =
    if ltb (ack_xmit_start_time timer q_time) suspend_time
    then timer
    else record timer { event = none; state = suspended }

-- A delay that is not positive leaves the deadline alone.
unfoldable pub revised_deadline : ℕ → ℕ → Timer → ℕ
revised_deadline resume_time q_time timer =
    timer.ack_deadline + (resume_time - ack_xmit_start_time timer q_time)

unfoldable pub resume_timer : ℕ → ℕ → Timer → Timer
resume_timer resume_time q_time timer = record timer {
  ack_deadline = revised_deadline resume_time q_time timer;
  state = running;
  event = some (revised_deadline resume_time q_time timer);
}
