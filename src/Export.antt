-- ===== src/Export.antt =====
-- Reports at the sender of a block: handleRS of ltp/library/libltpP.c, from the report that has been
-- parsed and the session that has been found, with constructReportAckSegment and findCheckpoint.
-- Memory is granted, and there are no extensions. What stopExportSession, closeExportSession and
-- cancelSessionBySender do to the session is not modelled: the outcome says which of them are called.
pub mod Serials
pub mod Outcome
pub mod Apply
pub mod Settle
mod Tests
use mini_ltp.Prelude.{
  ℕ, zero, suc, ◌+◌, ◌%◌, ◌^◌, List, [], ◌∷◌, Bool, true, false, ◌&&◌, ◌||◌, not, ltb, leb, ◌==◌,
  if◌then◌else◌, Option, none, some, length,
}
use mini_ltp.Segment.{ReceptionClaim, Pdu, XmitSeg, ltp_ras}
use mini_ltp.Segment.Inbound.{ReportContent}
use mini_ltp.Claims.{add32, merge_claims, is_complete, gaps}
use mini_ltp.Issue.{Context, Ckpt, ExportSession, Output, issue_segments}

unfoldable pub report_ack : Output → ℕ → XmitSeg
report_ack out rpt_serial_nbr = record {
  session_nbr = out.session.session_nbr;
  remote_engine_id = out.span.engine_id;
  pdu = record {
    seg_type_code = ltp_ras;
    header_extensions_count = 0;
    trailer_extensions_count = 0;
    ckpt_serial_nbr = 0;
    rpt_serial_nbr = rpt_serial_nbr;
    client_svc_id = 0;
    offset = 0;
    length = 0;
    upper_bound = 0;
    lower_bound = 0;
    reception_claims = [];
    reason_code = 0;
  };
}

-- The serial numbers with a new one at its place; `none` where the report is redundant.
unfoldable pub note_serial_nbr : ℕ → List ℕ → Option (List ℕ)
note_serial_nbr n [] = some (n ∷ [])
note_serial_nbr n (old ∷ nbrs) =
    let further : Option (List ℕ) = elim (note_serial_nbr n nbrs) [
      | none ↦ none
      | some nbrs' ↦ some (old ∷ nbrs')
    ] in
    if ltb old n then further else if old == n then none else some (n ∷ old ∷ nbrs)

unfoldable pub find_checkpoint : ℕ → List Ckpt → Option Ckpt
find_checkpoint n [] = none
find_checkpoint n (cp ∷ ckpts) =
    let further = find_checkpoint n ckpts in
    if ltb cp.serial_nbr n then further else if cp.serial_nbr == n then some cp else none

-- How the handling of a report ends, and with which state; `no_fuel` is the loop of issueSegments
-- that does not end.
pub data RsOutcome : Type 0 where
  redundant : Output → RsOutcome
  no_checkpoint : Output → RsOutcome
  bogus : Output → RsOutcome
  -- stopExportSession and closeExportSession are called.
  finished : Output → RsOutcome
  -- LTP_FINAL_ACK is set, and the session waits for its last green segment to be sent.
  waiting : Output → RsOutcome
  -- cancelSessionBySender is called.
  canceled : Output → RsOutcome
  retransmitted : Output → RsOutcome
  no_fuel : RsOutcome

abbrev pub with_claims : Output → List ReceptionClaim → Output
with_claims out claims = record {
  span = out.span;
  session = record out.session { claims = claims };
}

-- All red data has been received. The claims have been deleted from the session.
unfoldable pub end_session : Output → RsOutcome
end_session out =
    if out.session.red_part_length == out.session.total_length || out.session.eob_sent
    then finished (with_claims out [])
    else waiting
        (record { span = out.span; session = record out.session { claims = []; final_ack = true } })

unfoldable pub retransmit : ℕ → ℕ → Output → ReportContent → List ReceptionClaim → RsOutcome
retransmit fuel own out rs claims =
    let ckpt_serial_nbr : ℕ = add32 out.session.last_ckpt_serial_nbr 1 in
    let ctx : Context = record {
      own_engine_id = own;
      report_serial_nbr = rs.rpt_serial_nbr;
      checkpoint_serial_nbr = ckpt_serial_nbr;
    } in
    let issued : RsOutcome =
      elim (issue_segments fuel ctx (with_claims out claims)
        (gaps rs.lower_bound rs.upper_bound claims)) [
          | none ↦ no_fuel
          | some out' ↦ retransmitted out'
        ] in
    if ckpt_serial_nbr == 0 || leb out.session.max_checkpoints (length out.session.checkpoints)
    then canceled (with_claims out [])
    else issued

unfoldable pub is_bogus : ExportSession → ReportContent → Bool
is_bogus session rs =
    ltb session.red_part_length rs.upper_bound
    || leb rs.upper_bound rs.lower_bound
    || length rs.reception_claims == 0

unfoldable pub apply_claims : ℕ → ℕ → Output → ReportContent → RsOutcome
apply_claims fuel own out rs =
    let claims = merge_claims rs.reception_claims out.session.claims in
    let more = retransmit fuel own out rs claims in
    if is_bogus out.session rs
    then bogus out
    else if is_complete out.session.red_part_length claims
    then end_session out
    else more

abbrev pub with_serial_nbrs : Output → List ℕ → Output
with_serial_nbrs out nbrs = record {
  span = out.span;
  session = record out.session { rs_serial_nbrs = nbrs };
}

-- The acknowledgment, the checkpoint whose timer is switched off, and the outcome.
pub record Handled : Type 0 where
  pub ack : XmitSeg
  pub deactivated : Option Ckpt
  pub outcome : RsOutcome

abbrev pub cite : ℕ → ℕ → Output → ReportContent → Option Ckpt × RsOutcome
cite fuel own out rs =
    if rs.ckpt_serial_nbr == 0
    then (none, apply_claims fuel own out rs)
    else elim (find_checkpoint rs.ckpt_serial_nbr out.session.checkpoints) [
      | none ↦ (none, no_checkpoint out)
      | some cp ↦ (some cp, apply_claims fuel own out rs)
    ]

-- After the search of the report serial numbers.
abbrev settle_rs : ℕ → ℕ → Output → ReportContent → Option (List ℕ) → Handled
settle_rs fuel own out rs none = record {
  ack = report_ack out rs.rpt_serial_nbr;
  deactivated = none;
  outcome = redundant out;
}
settle_rs fuel own out rs (some nbrs) = record {
  ack = report_ack out rs.rpt_serial_nbr;
  deactivated = (cite fuel own (with_serial_nbrs out nbrs) rs).0;
  outcome = (cite fuel own (with_serial_nbrs out nbrs) rs).1;
}

unfoldable pub handle_rs : ℕ → ℕ → Output → ReportContent → Handled
handle_rs fuel own out rs =
    settle_rs fuel own out rs (note_serial_nbr rs.rpt_serial_nbr out.session.rs_serial_nbrs)
