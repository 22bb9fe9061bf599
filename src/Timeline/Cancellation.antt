-- ===== src/Timeline/Cancellation.antt =====
-- What is left once an event is canceled.
use mini_ltp.Prelude.{
  ℕ, ◌≡◌, refl, ap, ◌∙◌, ◌⊎◌, inl, inr, List, [], ◌∷◌, ◌++◌, true, false, Bool-cases, All,
}
use mini_ltp.Timeline.{LtpEvent, LtpEventType, is_event, cancel_event}
use mini_ltp.Timeline.Order.{IsNotEarlier, IsSorted}

module _ (type : LtpEventType) (nbr1 nbr2 nbr3 : ℕ) where
  abbrev NoneOf : List LtpEvent → Type 0
  NoneOf = All (λ event. is_event type nbr1 nbr2 nbr3 event ≡ false)

  -- Either nothing matches and nothing is removed, or just the first match is removed.
  abbrev pub Canceled : List LtpEvent → List LtpEvent → Type 0
  Canceled events events' =
      (NoneOf events × (events' ≡ events))
      ⊎ ((before : List LtpEvent) × (event : LtpEvent) × (after : List LtpEvent) × NoneOf before
          × (is_event type nbr1 nbr2 nbr3 event ≡ true)
          × (events ≡ before ++ event ∷ after)
          × (events' ≡ before ++ after))

  cancel_here :
      (event : LtpEvent) (events : List LtpEvent)
      → is_event type nbr1 nbr2 nbr3 event ≡ true
      → cancel_event type nbr1 nbr2 nbr3 (event ∷ events) ≡ events
  unfolding cancel_event
  cancel_here event events m = rw m

  cancel_further :
      (event : LtpEvent) (events : List LtpEvent)
      → is_event type nbr1 nbr2 nbr3 event ≡ false
      → cancel_event type nbr1 nbr2 nbr3 (event ∷ events)
        ≡ event ∷ cancel_event type nbr1 nbr2 nbr3 events
  unfolding cancel_event
  cancel_further event events m = rw m

  first-Canceled :
      (events : List LtpEvent) → Canceled events (cancel_event type nbr1 nbr2 nbr3 events)
  unfolding cancel_event
  first-Canceled [] = inl (tt, refl)
  first-Canceled (event ∷ events) = elim (Bool-cases (is_event type nbr1 nbr2 nbr3 event)) [
    | inl m ↦ inr ([], event, events, tt, m, refl, cancel_here event events m)
    | inr m ↦ elim (first-Canceled events) [
      | inl (n, e) ↦ inl ((m, n), cancel_further event events m ∙ ap (λ l. event ∷ l) e)
      | inr (before, found, after, n, y, split, split') ↦ inr (
        event ∷ before,
        found,
        after,
        (m, n),
        y,
        ap (λ l. event ∷ l) split,
        cancel_further event events m ∙ ap (λ l. event ∷ l) split',
      )
    ]
  ]

  IsNotEarlier-cancel_event :
      (time : ℕ) (events : List LtpEvent)
      → IsNotEarlier time events
      → IsNotEarlier time (cancel_event type nbr1 nbr2 nbr3 events)
  unfolding cancel_event
  IsNotEarlier-cancel_event time [] u = tt
  IsNotEarlier-cancel_event time (event ∷ events) (h, u) =
      elim (Bool-cases (is_event type nbr1 nbr2 nbr3 event)) [
        | inl m ↦ rw m u
        | inr m ↦ rw m (h, IsNotEarlier-cancel_event time events u)
      ]

  cancel_event-IsSorted :
      (events : List LtpEvent)
      → IsSorted events
      → IsSorted (cancel_event type nbr1 nbr2 nbr3 events)
  unfolding cancel_event
  cancel_event-IsSorted [] v = tt
  cancel_event-IsSorted (event ∷ events) (u, v) =
      elim (Bool-cases (is_event type nbr1 nbr2 nbr3 event)) [
        | inl m ↦ rw m v
        | inr m ↦ rw m (
          IsNotEarlier-cancel_event event.scheduled_time events u,
          cancel_event-IsSorted events v,
        )
      ]

  -- Of a timeline in order, a cancellation removes just the first event of that type and with those
  -- numbers, and nothing where there is none; the timeline stays in order.
  pub cancel_event-Canceled :
      (events : List LtpEvent)
      → IsSorted events
      → Canceled events (cancel_event type nbr1 nbr2 nbr3 events)
        × IsSorted (cancel_event type nbr1 nbr2 nbr3 events)
  cancel_event-Canceled events v = (first-Canceled events, cancel_event-IsSorted events v)
