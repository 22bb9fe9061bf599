-- ===== src/Timeline.antt =====
-- The timeline of the engine: insertLtpTimelineEvent, cancelEvent and setTimer of
-- ltp/library/libltpP.c, with SIGNAL_REDUNDANCY at its default 1.0. The list is written from its
-- first event. Delays fit an int.
pub mod Order
pub mod Cancellation
pub mod Deadline
mod Tests
use mini_ltp.Prelude.{
  ℕ, ◌+◌, ◌-◌, ◌*◌, ◌/◌, ◌%◌, List, [], ◌∷◌, Bool, ◌&&◌, leb, ltb, ◌==◌, if◌then◌else◌, Option,
  none, some,
}
use mini_ltp.Sdnv.{u32}
use mini_ltp.Timer.{Timer, TimerState}

pub data LtpEventType : Type 0 where
  resend_checkpoint : LtpEventType
  resend_xmit_cancel : LtpEventType
  resend_report : LtpEventType
  resend_recv_cancel : LtpEventType
  forget_export_session : LtpEventType
  forget_import_session : LtpEventType

abbrev pub event_code : LtpEventType → ℕ
event_code LtpEventType.resend_checkpoint = 1
event_code LtpEventType.resend_xmit_cancel = 2
event_code LtpEventType.resend_report = 3
event_code LtpEventType.resend_recv_cancel = 4
event_code LtpEventType.forget_export_session = 5
event_code LtpEventType.forget_import_session = 6

pub record LtpEvent : Type 0 where
  pub ref_nbr1 : ℕ
  pub ref_nbr2 : ℕ
  pub ref_nbr3 : ℕ
  pub parm : ℕ
  pub scheduled_time : ℕ
  pub type : LtpEventType

-- The search from the end of the list for the last event that is not scheduled later, and the
-- insertion behind it.
unfoldable pub insert_after_last : LtpEvent → List LtpEvent → Option (List LtpEvent)
insert_after_last new [] = none
insert_after_last new (event ∷ events) = elim (insert_after_last new events) [
  | some events' ↦ some (event ∷ events')
  | none ↦ if leb event.scheduled_time new.scheduled_time then some (event ∷ new ∷ events) else none
]

unfoldable pub insert_ltp_timeline_event : LtpEvent → List LtpEvent → List LtpEvent
insert_ltp_timeline_event new events = elim (insert_after_last new events) [
  | some events' ↦ events'
  | none ↦ new ∷ events
]

abbrev pub is_event : LtpEventType → ℕ → ℕ → ℕ → LtpEvent → Bool
is_event type nbr1 nbr2 nbr3 event =
    event_code event.type == event_code type
    && event.ref_nbr1 == nbr1
    && event.ref_nbr2 == nbr2
    && event.ref_nbr3 == nbr3

unfoldable pub cancel_event : LtpEventType → ℕ → ℕ → ℕ → List LtpEvent → List LtpEvent
cancel_event type nbr1 nbr2 nbr3 [] = []
cancel_event type nbr1 nbr2 nbr3 (event ∷ events) =
    let further = event ∷ cancel_event type nbr1 nbr2 nbr3 events in
    if is_event type nbr1 nbr2 nbr3 event then events else further

-- What setTimer reads of the span and the engine.
pub record Link : Type 0 where
  pub local_xmit_rate : ℕ
  pub remote_xmit_rate : ℕ
  pub owlt_outbound : ℕ
  pub owlt_inbound : ℕ
  pub remote_qtime : ℕ
  pub own_qtime : ℕ
  pub max_timeouts : ℕ

abbrev est_link_ohd : ℕ
est_link_ohd = 16

unfoldable pub rad_time : Link → ℕ → ℕ
rad_time link segment_length =
    if link.local_xmit_rate == 0 then 0 else (segment_length + est_link_ohd) / link.local_xmit_rate

unfoldable pub seg_arrival_time_offset : Link → ℕ → ℕ
seg_arrival_time_offset link segment_length =
    (rad_time link segment_length + link.owlt_outbound + link.own_qtime / 2) % u32

unfoldable pub ack_deadline_offset : Link → ℕ → ℕ
ack_deadline_offset link segment_length =
    seg_arrival_time_offset link segment_length
    + link.remote_qtime
    + link.owlt_inbound
    + link.own_qtime / 2

-- The expiration count of a burst, -1.
abbrev pub burst_count : ℕ
burst_count = u32 - 1

unfoldable pub deadline : Link → ℕ → ℕ → LtpEventType → ℕ
deadline link current_sec segment_length LtpEventType.forget_export_session =
    current_sec + ack_deadline_offset link segment_length * link.max_timeouts
deadline link current_sec segment_length type =
    current_sec + ack_deadline_offset link segment_length

unfoldable pub set_timer : Link → ℕ → ℕ → LtpEvent → Timer → List LtpEvent → Timer × List LtpEvent
set_timer link current_sec segment_length event timer timeline =
    if timer.expiration_count == burst_count
    then (timer, timeline)
    else let timed : Timer = record timer {
      seg_arrival_time = current_sec + seg_arrival_time_offset link segment_length;
      ack_deadline = deadline link current_sec segment_length event.type;
    } in
      if ltb 0 link.remote_xmit_rate
      then (
        record timed { state = TimerState.running; event = some timed.ack_deadline },
        insert_ltp_timeline_event (record event { scheduled_time = timed.ack_deadline }) timeline,
      )
      else (record timed { state = TimerState.suspended }, timeline)
