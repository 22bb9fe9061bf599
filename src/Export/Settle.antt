-- ===== src/Export/Settle.antt =====
-- How a report settles the session: each outcome, and what it says of the bytes of the block.
use mini_ltp.Prelude.{
  ℕ, ◌≤◌, ◌≡◌, refl, inl, inr, List, false, ◌==◌, none, some, arith, Bool-cases, Option-cases,
}
use mini_ltp.Segment.Inbound.{ReportContent}
use mini_ltp.Issue.{Output}
use mini_ltp.Export.{
  RsOutcome, with_serial_nbrs, apply_claims, note_serial_nbr, find_checkpoint, cite, handle_rs,
}
use mini_ltp.Export.Serials.{Noted, note_serial_nbr-Noted}
use mini_ltp.Export.Apply.{apply_claims-Applied}
use mini_ltp.Export.Outcome.{IsExporting, Cites, Applied, Settled}

module _ (fuel own : ℕ) (rs : ReportContent) where
  -- A report that is new and cites no missing checkpoint.
  Applied-Settled :
      (out : Output) (nbrs : List ℕ) (o : RsOutcome)
      → Noted 0 rs.rpt_serial_nbr out.session.rs_serial_nbrs (some nbrs)
      → Cites out rs
      → Applied (with_serial_nbrs out nbrs) rs o
      → Settled out rs o
  Applied-Settled out nbrs (RsOutcome.redundant out') n c h = absurd h
  Applied-Settled out nbrs (RsOutcome.no_checkpoint out') n c h = absurd h
  Applied-Settled out nbrs (RsOutcome.bogus out') (f, n, r) c (bad, e) =
      rw e (f, c, bad, (refl, refl), (n, r (omega arith)))
  Applied-Settled out nbrs (RsOutcome.finished out') (f, n, r) c (good, all, sent) =
      (f, c, good, all, sent)
  Applied-Settled out nbrs (RsOutcome.waiting out') (f, n, r) c
        (good, all, green, final, same, nb) =
      (f, c, good, all, green, final, same, rw nb (n, r (omega arith)))
  Applied-Settled out nbrs (RsOutcome.canceled out') (f, n, r) c (good, part, limit) =
      (f, c, good, part, limit)
  Applied-Settled out nbrs (RsOutcome.retransmitted out') (f, n, r) c (good, part, more, h, nb) = (
    f,
    c,
    good,
    part,
    more,
    record {
      segs = h.segs;
      queued = h.queued;
      sendable = h.sendable;
      carries = h.carries;
      claims = h.claims;
      separated = h.separated;
    },
    rw nb (n, r (omega arith)),
  )
  Applied-Settled out nbrs RsOutcome.no_fuel n c h = absurd h

  module _ (out : Output) (v : IsExporting own out rs)
      (enough : out.session.red_part_length ≤ fuel) where
    uncited :
        (rs.ckpt_serial_nbr == 0) ≡ false
        → find_checkpoint rs.ckpt_serial_nbr out.session.checkpoints ≡ none
        → ¬ Cites out rs
    uncited some_cited missing (inl e) = ground arith
    uncited some_cited missing (inr (cp, found)) = cc

    settled_lem :
        (nbrs : List ℕ)
        → Noted 0 rs.rpt_serial_nbr out.session.rs_serial_nbrs (some nbrs)
        → Cites out rs
        → Settled out rs (apply_claims fuel own (with_serial_nbrs out nbrs) rs)
    settled_lem nbrs n c =
        let w : IsExporting own (with_serial_nbrs out nbrs) rs = record {
          own_id = v.own_id;
          rpt = v.rpt;
          nbr = v.nbr;
          client = v.client;
          red = v.red;
          room = v.room;
          int_size = v.int_size;
          live = v.live;
          separated = v.separated;
          serials = n.2 (omega arith);
          old_within = v.old_within;
          new_claims = v.new_claims;
          new_within = v.new_within;
        } in
        Applied-Settled out nbrs _ n c
          (apply_claims-Applied fuel own rs (with_serial_nbrs out nbrs) w enough)

    cite-Settled :
        (nbrs : List ℕ)
        → Noted 0 rs.rpt_serial_nbr out.session.rs_serial_nbrs (some nbrs)
        → Settled out rs (cite fuel own (with_serial_nbrs out nbrs) rs).1
    cite-Settled nbrs n = elim (Bool-cases (rs.ckpt_serial_nbr == 0)) [
      | inl none_cited ↦ rw none_cited (settled_lem nbrs n (inl (ground arith)))
      | inr some_cited ↦
          elim (Option-cases (find_checkpoint rs.ckpt_serial_nbr out.session.checkpoints)) [
            | inl missing ↦
                rw (some_cited, missing)
                  (n.0, (λ c. uncited some_cited missing c), (refl, refl), (n.1, n.2 (omega arith)))
            | inr (cp, found) ↦ rw (some_cited, found) (settled_lem nbrs n (inr (cp, found)))
          ]
    ]

    handle_seen :
        note_serial_nbr rs.rpt_serial_nbr out.session.rs_serial_nbrs ≡ none
        → (handle_rs fuel own out rs).outcome ≡ RsOutcome.redundant out
    unfolding handle_rs
    handle_seen e = rw e

    handle_fresh :
        (nbrs : List ℕ)
        → note_serial_nbr rs.rpt_serial_nbr out.session.rs_serial_nbrs ≡ some nbrs
        → (handle_rs fuel own out rs).outcome ≡ (cite fuel own (with_serial_nbrs out nbrs) rs).1
    unfolding handle_rs
    handle_fresh nbrs e = rw e

    -- A report, whose claims are not empty and end within its upper bound, below 2 ^ 32, comes to a
    -- session in good order whose segments have room for the longest header, and the fuel is at least
    -- the length of the red part. Then the handling ends. A report whose serial number has come before
    -- changes nothing; any other is noted, unless the session ends with it. A report that cites a
    -- checkpoint that is missing, and one that is not sound, that is without claims or without a scope
    -- in the red part, change neither the queue nor the claims. After any other, where each byte of the
    -- red part has been claimed, the session is finished if its green part has been sent, and waits for
    -- that with the flag of the final acknowledgment if not; where some byte has not, the session is
    -- canceled if it is at the limit of its checkpoints, and if not, the segments queued carry just the
    -- bytes within the report's bounds that have not been claimed, and the session's claims are those
    -- of the report and those before it.
    pub handle_rs-Settled : Settled out rs (handle_rs fuel own out rs).outcome
    handle_rs-Settled =
        let noted : Noted 0 rs.rpt_serial_nbr out.session.rs_serial_nbrs
            (note_serial_nbr rs.rpt_serial_nbr out.session.rs_serial_nbrs) =
          note_serial_nbr-Noted 0 rs.rpt_serial_nbr out.session.rs_serial_nbrs v.serials in
        elim (Option-cases (note_serial_nbr rs.rpt_serial_nbr out.session.rs_serial_nbrs)) [
          | inl seen ↦ rw (handle_seen seen) (rw seen at noted, refl)
          | inr (nbrs, fresh) ↦ rw (handle_fresh nbrs fresh) (cite-Settled nbrs (rw fresh at noted))
        ]
