-- ===== src/Export/Apply.antt =====
-- The claims of a report applied to the session: which of the four ways the handling takes, and when.
use mini_ltp.Prelude.{
  ℕ, ◌^◌, ◌≤◌, ◌<◌, ◌≡◌, refl, sym, ◌∙◌, inl, inr, List, Bool, true, false, ◌||◌, leb, ◌==◌, length,
  arith, Bool-cases,
}
use mini_ltp.Segment.{ReceptionClaim}
use mini_ltp.Segment.Inbound.{ReportContent}
use mini_ltp.Claims.{add32, merge_claims, is_complete, gaps}
use mini_ltp.Claims.Cover.{covered}
use mini_ltp.Claims.Merge.{merge_claims-covered}
use mini_ltp.Claims.Gaps.{gaps-merge_claims, is_complete_all, is_complete-covered}
use mini_ltp.Issue.{Context, Output, issue_segments}
use mini_ltp.Issue.Size.{IsRoomy}
use mini_ltp.Issue.Carried.{IssuedAll, issue_segments-IssuedAll}
use mini_ltp.Export.{with_claims, end_session, retransmit, is_bogus, apply_claims}
use mini_ltp.Export.Outcome.{IsExporting, IsSound, IsAllKnown, Applied, gaps-IsExtent, known}

module _ (fuel own : ℕ) (rs : ReportContent) (out : Output) (v : IsExporting own out rs) where
  abbrev merged : List ReceptionClaim
  merged = merge_claims rs.reception_claims out.session.claims

  covered-merged : (b : ℕ) → covered b merged ≡ known out rs b
  covered-merged b =
      (merge_claims-covered b rs.reception_claims out.session.claims v.new_claims v.separated).0

  abbrev context : Context
  context = record {
    own_engine_id = own;
    report_serial_nbr = rs.rpt_serial_nbr;
    checkpoint_serial_nbr = add32 out.session.last_ckpt_serial_nbr 1;
  }

  roomy : IsRoomy context out.span (with_claims out merged).session
  roomy = record {
    own = v.own_id;
    rpt = v.rpt;
    ckpt = omega arith;
    nbr = v.nbr;
    client = v.client;
    red = v.red;
    room = v.room;
    int_size = v.int_size;
  }

  merged_within :
      IsSound out rs → (b : ℕ) → covered b merged ≡ true → b < out.session.red_part_length
  merged_within (bound, scope, some_claims) b e =
      ground (arith, covered-merged b, v.old_within b, v.new_within b)

  some_unknown :
      IsSound out rs → is_complete out.session.red_part_length merged ≡ false → ¬ IsAllKnown out rs
  some_unknown good part all =
      let whole : is_complete out.session.red_part_length merged ≡ true =
        is_complete-covered out.session.red_part_length merged
          (merge_claims-covered 0 rs.reception_claims out.session.claims v.new_claims v.separated).1
          (merged_within good) (omega (arith, good)) (λ b h. covered-merged b ∙ all b h) in
      ground (arith, part, whole)

  retransmit-Applied :
      IsSound out rs
      → is_complete out.session.red_part_length merged ≡ false
      → out.session.red_part_length ≤ fuel
      → Applied out rs (retransmit fuel own out rs merged)
  unfolding retransmit
  retransmit-Applied good part k =
      let h : rs.upper_bound ≤ out.session.red_part_length = good.0 in
      let unknown : ¬ IsAllKnown out rs = some_unknown good part in
      let ctx : Context = context in
      let lower : ℕ = rs.lower_bound in
      let upper : ℕ = rs.upper_bound in
      let red : out.session.red_part_length < 2 ^ 31 = v.red in
      let i : IssuedAll (with_claims out merged) (gaps lower upper merged)
          (issue_segments fuel context (with_claims out merged) (gaps lower upper merged)) =
        issue_segments-IssuedAll fuel context (with_claims out merged) (gaps lower upper merged)
          roomy v.live (gaps-IsExtent fuel lower upper merged (omega arith) (omega arith)) in
      let at_limit : Bool =
        add32 out.session.last_ckpt_serial_nbr 1 == 0
        || leb out.session.max_checkpoints (length out.session.checkpoints) in
      elim (Bool-cases at_limit) [
        | inl full ↦ rw full (good, unknown, ground arith)
        | inr some_left ↦
            rw (some_left, i.returns)
              (
                good,
                unknown,
                (λ l. ground arith),
                record {
                  segs = i.segs;
                  queued = i.queued;
                  sendable = i.sendable;
                  carries = λ b.
                      i.carries b
                      ∙ gaps-merge_claims b lower upper rs.reception_claims out.session.claims
                          v.new_claims v.separated (omega arith);
                  claims = λ b. rw i.kept.claims (covered-merged b);
                  separated =
                      rw i.kept.claims
                        (merge_claims-covered 0 rs.reception_claims out.session.claims v.new_claims
                          v.separated).1;
                },
                i.kept.reports,
              )
      ]

  end_session-Applied :
      IsSound out rs
      → is_complete out.session.red_part_length merged ≡ true
      → Applied out rs (end_session out)
  unfolding end_session
  end_session-Applied good e =
      let all : (b : ℕ) → b < out.session.red_part_length → known out rs b ≡ true =
        λ b h. sym (covered-merged b) ∙ is_complete_all out.session.red_part_length merged e b h in
      elim (Bool-cases
        (out.session.red_part_length == out.session.total_length || out.session.eob_sent)) [
          | inl over ↦ rw over (good, all, ground arith)
          | inr green_left ↦ rw green_left (good, all, (λ s. ground arith), refl, refl, refl)
        ]

  not_bogus : is_bogus out.session rs ≡ false → IsSound out rs
  unfolding is_bogus
  not_bogus e = ground arith

  bogus : is_bogus out.session rs ≡ true → ¬ IsSound out rs
  unfolding is_bogus
  bogus e good = ground (arith, e, good)

  pub apply_claims-Applied :
      out.session.red_part_length ≤ fuel → Applied out rs (apply_claims fuel own out rs)
  unfolding apply_claims
  apply_claims-Applied k = elim (Bool-cases (is_bogus out.session rs)) [
    | inl bad ↦ rw bad (bogus bad, refl)
    | inr good ↦ elim (Bool-cases (is_complete out.session.red_part_length merged)) [
      | inl all ↦ rw (good, all) (end_session-Applied (not_bogus good) all)
      | inr some_left ↦ rw (good, some_left) (retransmit-Applied (not_bogus good) some_left k)
    ]
  ]
