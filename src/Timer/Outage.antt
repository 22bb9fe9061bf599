-- ===== src/Timer/Outage.antt =====
-- What an outage of the link does to a timer.
use mini_ltp.Prelude.{
  ℕ, ◌+◌, ◌≤◌, ◌<◌, ◌≡◌, refl, ◌⊎◌, inl, inr, ltb, if◌then◌else◌, arith, none, some, Bool-cases,
}
use mini_ltp.Timer.{
  Timer, TimerState, ack_xmit_start_time, suspend_timer, revised_deadline, resume_timer,
}

-- A timer whose event is posted for its deadline.
pub record IsRunning (t : Timer) : Type 0 where
  pub state : t.state ≡ TimerState.running
  pub event : t.event ≡ some t.ack_deadline

-- When the acknowledgment can be transmitted where the link is out until `resume_time`.
abbrev pub delayed_start : ℕ → ℕ → Timer → ℕ
delayed_start resume_time q_time t =
    if ltb (ack_xmit_start_time t q_time) resume_time
    then resume_time
    else ack_xmit_start_time t q_time

-- The link is out from `suspend_time` to `resume_time`. A timer that is running with an event for its
-- deadline, and whose acknowledgment should have been under way before, stays as it is. One whose
-- acknowledgment should have been under way no earlier is suspended without an event, and once it
-- is resumed it is running with an event for its new deadline, which leaves as much time after the
-- acknowledgment can be transmitted as the old deadline left after it should have been.
pub resume_timer-suspend_timer :
    (suspend_time resume_time q_time : ℕ) (t : Timer)
    → IsRunning t
    → ((suspend_timer suspend_time q_time t ≡ t) × (ack_xmit_start_time t q_time < suspend_time))
      ⊎ ((suspend_time ≤ ack_xmit_start_time t q_time)
          × ((suspend_timer suspend_time q_time t).state ≡ TimerState.suspended)
          × ((suspend_timer suspend_time q_time t).event ≡ none)
          × IsRunning (resume_timer resume_time q_time (suspend_timer suspend_time q_time t))
          × ((resume_timer resume_time q_time (suspend_timer suspend_time q_time t)).ack_deadline
                + ack_xmit_start_time t q_time
              ≡ t.ack_deadline + delayed_start resume_time q_time t))
unfolding suspend_timer resume_timer revised_deadline ack_xmit_start_time
resume_timer-suspend_timer suspend_time resume_time q_time t v =
    elim (Bool-cases (ltb (t.seg_arrival_time + q_time) suspend_time)) [
      | inl begun ↦ inl (rw begun (refl, ground arith))
      | inr later ↦
          inr (
            rw later
              (ground arith, refl, refl, record { state = refl; event = refl }, ground arith))
    ]
