-- ===== src/Timer/Tests.antt =====
-- The theorem on timers at a concrete input.
use mini_ltp.Prelude.{◌+◌, ◌≤◌, ◌<◌, ◌≡◌, refl, ◌⊎◌, none, some}
use mini_ltp.Timer.{Timer, TimerState, ack_xmit_start_time, suspend_timer, resume_timer}
use mini_ltp.Timer.Outage.{IsRunning, delayed_start, resume_timer-suspend_timer}

abbrev waiting : Timer
waiting = record {
  seg_arrival_time = 1000;
  ack_deadline = 1030;
  expiration_count = 0;
  state = TimerState.running;
  event = some 1030;
}

moved : (resume_timer 1500 10 (suspend_timer 1005 10 waiting)).ack_deadline ≡ 1520
unfolding resume_timer suspend_timer ack_xmit_start_time mini_ltp.Timer.revised_deadline
moved = refl

resume_timer-suspend_timer_example :
    ((suspend_timer 1005 10 waiting ≡ waiting) × (ack_xmit_start_time waiting 10 < 1005))
    ⊎ ((1005 ≤ ack_xmit_start_time waiting 10)
        × ((suspend_timer 1005 10 waiting).state ≡ TimerState.suspended)
        × ((suspend_timer 1005 10 waiting).event ≡ none)
        × IsRunning (resume_timer 1500 10 (suspend_timer 1005 10 waiting))
        × ((resume_timer 1500 10 (suspend_timer 1005 10 waiting)).ack_deadline
              + ack_xmit_start_time waiting 10
            ≡ waiting.ack_deadline + delayed_start 1500 10 waiting))
resume_timer-suspend_timer_example =
    resume_timer-suspend_timer 1005 1500 10 waiting (record { state = refl; event = refl })
