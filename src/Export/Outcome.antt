-- ===== src/Export/Outcome.antt =====
-- What the outcomes of a report promise, and the bounds of the extents to retransmit.
use mini_ltp.Prelude.{
  ℕ, ◌==◌, some, ◌^◌, ◌≤◌, ◌<◌, ◌≡◌, ◌⊎◌, inl, inr, List, [], ◌∷◌, ◌++◌, Bool, true, false, ◌&&◌,
  ◌||◌, not, ltb, leb, if◌then◌else◌, length, All, arith, Bool-cases, min,
}
use mini_ltp.Sdnv.{u32, u64}
use mini_ltp.Segment.{ReceptionClaim}
use mini_ltp.Segment.Inbound.{ReportContent}
use mini_ltp.Claims.{ExportExtent, add32, gaps, end_of, add_transmission_extent}
use mini_ltp.Claims.Cover.{covered, Separated}
use mini_ltp.Claims.Merge.{IsNew}
use mini_ltp.Issue.{IssuedSeg, Ckpt, Output}
use mini_ltp.Issue.Sendable.{IsSendable}
use mini_ltp.Issue.Carried.{carried, IsExtent}
use mini_ltp.Export.{RsOutcome, find_checkpoint}
use mini_ltp.Export.Serials.{Rising, is_seen}

All-append :
    (fuel : ℕ) (xs ys : List ExportExtent)
    → All (IsExtent fuel) xs
    → All (IsExtent fuel) ys
    → All (IsExtent fuel) (xs ++ ys)
All-append fuel [] ys h k = k
All-append fuel (x ∷ xs) ys (h, hs) k = (h, All-append fuel xs ys hs k)

add_transmission_extent-IsExtent :
    (fuel start finish : ℕ)
    → finish ≤ fuel
    → finish < 2 ^ 31
    → All (IsExtent fuel) (add_transmission_extent start finish)
unfolding add_transmission_extent
add_transmission_extent-IsExtent fuel start finish h k = elim (Bool-cases (ltb start finish)) [
  | inl more ↦ let lt : start < finish = ground arith in rw more ((omega arith, omega arith), tt)
  | inr none_left ↦ rw none_left tt
]

-- The gaps end within the report's bounds.
pub gaps-IsExtent :
    (fuel start upper : ℕ) (cs : List ReceptionClaim)
    → upper ≤ fuel
    → upper < 2 ^ 31
    → All (IsExtent fuel) (gaps start upper cs)
unfolding gaps
gaps-IsExtent fuel start upper [] h k = add_transmission_extent-IsExtent fuel start upper h k
gaps-IsExtent fuel start upper (c ∷ cs) h k =
    All-append fuel (add_transmission_extent start (min c.offset upper))
      (gaps (if ltb start (end_of c) then end_of c else start) upper cs)
      (add_transmission_extent-IsExtent fuel start (min c.offset upper) (omega arith) (omega arith))
      (gaps-IsExtent fuel (if ltb start (end_of c) then end_of c else start) upper cs h k)

-- What the sender knows: the claims of the report and of those before it.
abbrev pub known : Output → ReportContent → ℕ → Bool
known out rs b = covered b rs.reception_claims || covered b out.session.claims

-- The segments that a retransmission queues: they may be sent, and carry the bytes within the
-- report's bounds that nobody has claimed. The claims that are kept are those known.
pub record IsRepaired (out : Output) (rs : ReportContent) (out' : Output) : Type 0 where
  pub segs : List IssuedSeg
  pub queued : out'.span.segments ≡ out.span.segments ++ segs
  pub sendable : All (IsSendable out.span.max_segment_size out.session.red_part_length) segs
  pub carries :
      (b : ℕ)
      → carried b segs ≡ (leb rs.lower_bound b && ltb b rs.upper_bound && not (known out rs b))
  pub claims : (b : ℕ) → covered b out'.session.claims ≡ known out rs b
  pub separated : Separated 0 out'.session.claims

-- Nothing is queued, and no claim is added.
abbrev Unchanged : Output → Output → Type 0
Unchanged out out' = (out'.span ≡ out.span) × (out'.session.claims ≡ out.session.claims)

abbrev IsFresh : Output → ReportContent → Type 0
IsFresh out rs = is_seen rs.rpt_serial_nbr out.session.rs_serial_nbrs ≡ false

-- The state notes that the report has come, besides those before, in their order.
abbrev Notes : Output → ReportContent → Output → Type 0
Notes out rs out' =
    ((n : ℕ)
      → is_seen n out'.session.rs_serial_nbrs
        ≡ (rs.rpt_serial_nbr == n || is_seen n out.session.rs_serial_nbrs))
    × Rising 0 out'.session.rs_serial_nbrs

-- The report cites no checkpoint that is missing.
abbrev pub Cites : Output → ReportContent → Type 0
Cites out rs =
    (rs.ckpt_serial_nbr ≡ 0)
    ⊎ ((cp : Ckpt) × (find_checkpoint rs.ckpt_serial_nbr out.session.checkpoints ≡ some cp))

-- The report has claims, and a scope within the red part that is not empty.
abbrev pub IsSound : Output → ReportContent → Type 0
IsSound out rs =
    (rs.upper_bound ≤ out.session.red_part_length)
    × (rs.lower_bound < rs.upper_bound)
    × (0 < length rs.reception_claims)

abbrev pub IsAllKnown : Output → ReportContent → Type 0
IsAllKnown out rs = (b : ℕ) → b < out.session.red_part_length → known out rs b ≡ true

-- The green part has been sent, or there is none.
abbrev IsSent : Output → Type 0
IsSent out =
    (out.session.red_part_length ≡ out.session.total_length) ⊎ (out.session.eob_sent ≡ true)

-- The session may not send another checkpoint.
abbrev AtLimit : Output → Type 0
AtLimit out =
    (add32 out.session.last_ckpt_serial_nbr 1 ≡ 0)
    ⊎ (out.session.max_checkpoints ≤ length out.session.checkpoints)

-- When each outcome of a report that is new comes, and what it does.
abbrev pub Applied : Output → ReportContent → RsOutcome → Type 0
Applied out rs (RsOutcome.redundant out') = ⊥
Applied out rs (RsOutcome.no_checkpoint out') = ⊥
Applied out rs (RsOutcome.bogus out') = ¬ IsSound out rs × (out' ≡ out)
Applied out rs (RsOutcome.finished out') = IsSound out rs × IsAllKnown out rs × IsSent out
Applied out rs (RsOutcome.waiting out') =
    IsSound out rs
    × IsAllKnown out rs
    × ¬ IsSent out
    × (out'.session.final_ack ≡ true)
    × (out'.span ≡ out.span)
    × (out'.session.rs_serial_nbrs ≡ out.session.rs_serial_nbrs)
Applied out rs (RsOutcome.canceled out') = IsSound out rs × ¬ IsAllKnown out rs × AtLimit out
Applied out rs (RsOutcome.retransmitted out') =
    IsSound out rs
    × ¬ IsAllKnown out rs
    × ¬ AtLimit out
    × IsRepaired out rs out'
    × (out'.session.rs_serial_nbrs ≡ out.session.rs_serial_nbrs)
Applied out rs RsOutcome.no_fuel = ⊥

-- When each outcome comes, and what it does.
abbrev pub Settled : Output → ReportContent → RsOutcome → Type 0
Settled out rs (RsOutcome.redundant out') =
    (is_seen rs.rpt_serial_nbr out.session.rs_serial_nbrs ≡ true) × (out' ≡ out)
Settled out rs (RsOutcome.no_checkpoint out') =
    IsFresh out rs × ¬ Cites out rs × Unchanged out out' × Notes out rs out'
Settled out rs (RsOutcome.bogus out') =
    IsFresh out rs × Cites out rs × ¬ IsSound out rs × Unchanged out out' × Notes out rs out'
Settled out rs (RsOutcome.finished out') =
    IsFresh out rs × Cites out rs × IsSound out rs × IsAllKnown out rs × IsSent out
Settled out rs (RsOutcome.waiting out') =
    IsFresh out rs
    × Cites out rs
    × IsSound out rs
    × IsAllKnown out rs
    × ¬ IsSent out
    × (out'.session.final_ack ≡ true)
    × (out'.span ≡ out.span)
    × Notes out rs out'
Settled out rs (RsOutcome.canceled out') =
    IsFresh out rs × Cites out rs × IsSound out rs × ¬ IsAllKnown out rs × AtLimit out
Settled out rs (RsOutcome.retransmitted out') =
    IsFresh out rs
    × Cites out rs
    × IsSound out rs
    × ¬ IsAllKnown out rs
    × ¬ AtLimit out
    × IsRepaired out rs out'
    × Notes out rs out'
Settled out rs RsOutcome.no_fuel = ⊥

-- A session in good order, with the limits of the fields of a segment, and a report whose claims are
-- not empty and end within its upper bound, below 2 ^ 32.
pub record IsExporting (own : ℕ) (out : Output) (rs : ReportContent) : Type 0 where
  pub own_id : own < u64
  pub rpt : rs.rpt_serial_nbr < u32
  pub nbr : out.session.session_nbr < u32
  pub client : out.session.client_svc_id < u32
  pub red : out.session.red_part_length < 2 ^ 31
  pub room : 43 ≤ out.span.max_segment_size
  pub int_size : out.span.max_segment_size < 2 ^ 31
  pub live : out.session.is_stopped ≡ false
  pub separated : Separated 0 out.session.claims
  pub serials : Rising 0 out.session.rs_serial_nbrs
  pub old_within : (b : ℕ) → covered b out.session.claims ≡ true → b < out.session.red_part_length
  pub new_claims : All IsNew rs.reception_claims
  pub new_within : (b : ℕ) → covered b rs.reception_claims ≡ true → b < rs.upper_bound
