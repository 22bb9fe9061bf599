-- ===== src/Timeline/Order.antt =====
-- Where a new event goes.
use mini_ltp.Prelude.{
  ℕ, ◌≤◌, ◌<◌, ◌≡◌, refl, ap, List, [], ◌∷◌, ◌++◌, leb, arith, none, some, Bool-cases, Option-cases,
  inl, inr, All,
}
use mini_ltp.Timeline.{LtpEvent, insert_after_last, insert_ltp_timeline_event}

abbrev pub IsNotEarlier : ℕ → List LtpEvent → Type 0
IsNotEarlier time = All (λ event. time ≤ event.scheduled_time)

abbrev IsNotLater : ℕ → List LtpEvent → Type 0
IsNotLater time = All (λ event. event.scheduled_time ≤ time)

abbrev IsLater : ℕ → List LtpEvent → Type 0
IsLater time = All (λ event. time < event.scheduled_time)

-- The times do not fall.
abbrev pub IsSorted : List LtpEvent → Type 0
IsSorted [] = Unit {0}
IsSorted (event ∷ events) = IsNotEarlier event.scheduled_time events × IsSorted events

-- The new event stands behind all events that are not later, and before all later ones.
abbrev pub InsertedInOrder : LtpEvent → List LtpEvent → List LtpEvent → Type 0
InsertedInOrder new events events' =
    (before : List LtpEvent) × (after : List LtpEvent) × (events ≡ before ++ after)
    × (events' ≡ before ++ new ∷ after)
    × IsNotLater new.scheduled_time before
    × IsLater new.scheduled_time after

IsLater-none :
    (new : LtpEvent) (events : List LtpEvent)
    → insert_after_last new events ≡ none
    → IsLater new.scheduled_time events
unfolding insert_after_last
IsLater-none new [] e = tt
IsLater-none new (event ∷ events) e = elim (Option-cases (insert_after_last new events)) [
  | inl n ↦ (ground (arith, n), IsLater-none new events n)
  | inr (events', s) ↦ absurd (ground (arith, s))
]

none_later :
    (new : LtpEvent) (time : ℕ) (events : List LtpEvent)
    → new.scheduled_time < time
    → IsNotEarlier time events
    → insert_after_last new events ≡ none
unfolding insert_after_last
none_later new time [] t v = refl
none_later new time (event ∷ events) t (h, v) = ground (arith, none_later new time events t v)

IsLater-IsNotEarlier :
    (time : ℕ) (events : List LtpEvent) → IsLater time events → IsNotEarlier time events
IsLater-IsNotEarlier time [] a = tt
IsLater-IsNotEarlier time (event ∷ events) (h, a) =
    (omega arith, IsLater-IsNotEarlier time events a)

IsNotEarlier-between :
    (time : ℕ) (new : LtpEvent) (before after : List LtpEvent)
    → time ≤ new.scheduled_time
    → IsNotEarlier time (before ++ after)
    → IsNotEarlier time (before ++ new ∷ after)
IsNotEarlier-between time new [] after t u = (t, u)
IsNotEarlier-between time new (event ∷ before) after t (h, u) =
    (h, IsNotEarlier-between time new before after t u)

module _ (new : LtpEvent) where
  head_no_later :
      (event : LtpEvent) (events events' : List LtpEvent)
      → IsNotEarlier event.scheduled_time events
      → insert_after_last new events ≡ some events'
      → event.scheduled_time ≤ new.scheduled_time
  head_no_later event events events' v s =
      elim (Bool-cases (leb event.scheduled_time new.scheduled_time)) [
        | inl t ↦ ground arith
        | inr t ↦
            let n : insert_after_last new events ≡ none =
              none_later new event.scheduled_time events (ground arith) v in
            absurd (ground (arith, n, s))
      ]

  some_Inserted :
      (events events' : List LtpEvent)
      → IsSorted events
      → insert_after_last new events ≡ some events'
      → InsertedInOrder new events events'
  unfolding insert_after_last
  some_Inserted [] events' v e = cc
  some_Inserted (event ∷ events) events' (u, v) e =
      elim (Option-cases (insert_after_last new events)) [
        | inr (rest, s) ↦
            let (before, after, split, split', b, a) = some_Inserted events rest v s in
            (
              event ∷ before,
              after,
              ap (λ l. event ∷ l) split,
              ground (arith, s, split'),
              (head_no_later event events rest u s, b),
              a,
            )
        | inl n ↦ elim (Bool-cases (leb event.scheduled_time new.scheduled_time)) [
          | inl t ↦ (
            event ∷ [],
            events,
            refl,
            ground (arith, n),
            (ground arith, tt),
            IsLater-none new events n,
          )
          | inr t ↦ absurd (ground (arith, n))
        ]
      ]

  inserted-some :
      (events events' : List LtpEvent)
      → insert_after_last new events ≡ some events'
      → insert_ltp_timeline_event new events ≡ events'
  unfolding insert_ltp_timeline_event
  inserted-some events events' s = ground (arith, s)

  inserted-none :
      (events : List LtpEvent)
      → insert_after_last new events ≡ none
      → insert_ltp_timeline_event new events ≡ new ∷ events
  unfolding insert_ltp_timeline_event
  inserted-none events n = ground (arith, n)

  inserted_lem :
      (events : List LtpEvent)
      → IsSorted events
      → InsertedInOrder new events (insert_ltp_timeline_event new events)
  inserted_lem events v = elim (Option-cases (insert_after_last new events)) [
    | inl n ↦ rw (inserted-none events n) ([], events, refl, refl, tt, IsLater-none new events n)
    | inr (events', s) ↦ rw (inserted-some events events' s) (some_Inserted events events' v s)
  ]

  Sorted_between :
      (before after : List LtpEvent)
      → IsSorted (before ++ after)
      → IsNotLater new.scheduled_time before
      → IsLater new.scheduled_time after
      → IsSorted (before ++ new ∷ after)
  Sorted_between [] after v b a = (IsLater-IsNotEarlier new.scheduled_time after a, v)
  Sorted_between (event ∷ before) after (u, v) (h, b) a = (
    IsNotEarlier-between event.scheduled_time new before after h u,
    Sorted_between before after v b a,
  )

  -- A new event goes into a timeline in order behind every event that is not later and before every
  -- later one, and the timeline stays in order.
  pub insert_ltp_timeline_event-InsertedInOrder :
      (events : List LtpEvent)
      → IsSorted events
      → InsertedInOrder new events (insert_ltp_timeline_event new events)
        × IsSorted (insert_ltp_timeline_event new events)
  insert_ltp_timeline_event-InsertedInOrder events v =
      let (before, after, split, split', b, a) = inserted_lem events v in
      (
        (before, after, split, split', b, a),
        rw split' (Sorted_between before after (rw split at v) b a),
      )
