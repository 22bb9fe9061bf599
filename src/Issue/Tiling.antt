-- ===== src/Issue/Tiling.antt =====
-- The segments issued for an extent: they follow one another from its start to its end, and the
-- issuance ends.
use mini_ltp.Prelude.{
  ℕ, zero, suc, ◌+◌, ◌%◌, ◌^◌, ◌≤◌, ◌<◌, ◌≡◌, refl, sym, ◌∙◌, List, [], ◌∷◌, ◌++◌, append_assoc,
  append-nil, Bool, ltb, arith, Option, some, Bool-cases, inl, inr,
}
use mini_ltp.Sdnv.{u32, sub32}
use mini_ltp.Claims.{ExportExtent}
use mini_ltp.Issue.{
  Context, IssuedSeg, Output, finish_segment, note_segment, construct_data_segment, issue_extent,
}
use mini_ltp.Issue.Flags.{issued-IsTyped}
use mini_ltp.Issue.Size.{IsRoomy}
use mini_ltp.Issue.Sendable.{Tiles, issued, issued-IsSendable, sizing}

-- What issuance leaves alone.
pub record Kept (out out' : Output) : Type 0 where
  pub engine : out'.span.engine_id ≡ out.span.engine_id
  pub max_size : out'.span.max_segment_size ≡ out.span.max_segment_size
  pub nbr : out'.session.session_nbr ≡ out.session.session_nbr
  pub client : out'.session.client_svc_id ≡ out.session.client_svc_id
  pub total : out'.session.total_length ≡ out.session.total_length
  pub red : out'.session.red_part_length ≡ out.session.red_part_length
  pub claims : out'.session.claims ≡ out.session.claims
  pub reports : out'.session.rs_serial_nbrs ≡ out.session.rs_serial_nbrs

pub Kept-refl : (out : Output) → Kept out out
Kept-refl out = record {
  engine = refl;
  max_size = refl;
  nbr = refl;
  client = refl;
  total = refl;
  red = refl;
  claims = refl;
  reports = refl;
}

pub Kept-trans : {a b c : Output} → Kept a b → Kept b c → Kept a c
Kept-trans h k = record {
  engine = k.engine ∙ h.engine;
  max_size = k.max_size ∙ h.max_size;
  nbr = k.nbr ∙ h.nbr;
  client = k.client ∙ h.client;
  total = k.total ∙ h.total;
  red = k.red ∙ h.red;
  claims = k.claims ∙ h.claims;
  reports = k.reports ∙ h.reports;
}

pub IsRoomy-Kept :
    (ctx : Context) (out out' : Output)
    → Kept out out'
    → IsRoomy ctx out.span out.session
    → IsRoomy ctx out'.span out'.session
IsRoomy-Kept ctx out out' k v = record {
  own = v.own;
  rpt = v.rpt;
  ckpt = v.ckpt;
  nbr = rw k.nbr v.nbr;
  client = rw k.client v.client;
  red = rw k.red v.red;
  room = rw k.max_size v.room;
  int_size = rw k.max_size v.int_size;
}

-- The output of the issuance of the bytes from `start` to `finish`.
pub record Issued (ctx : Context) (last : Bool) (out : Output) (start finish : ℕ)
    (result : Option Output) : Type 0 where
  pub segs : List IssuedSeg
  pub out' : Output
  pub returns : result ≡ some out'
  pub queued : out'.span.segments ≡ out.span.segments ++ segs
  pub tiles :
      Tiles ctx last out.session.total_length out.span.max_segment_size out.session.red_part_length
        start finish segs
  pub kept : Kept out out'

module _ (ctx : Context) (last : Bool) where
  construct-Kept :
      (out : Output) (e : ExportExtent) → Kept out (construct_data_segment ctx last out e).0
  unfolding construct_data_segment note_segment
  construct-Kept out e = record {
    engine = refl;
    max_size = refl;
    nbr = refl;
    client = refl;
    total = refl;
    red = refl;
    claims = refl;
    reports = refl;
  }

  -- What is left of an extent is shorter, and ends where the extent does.
  construct_extent :
      (out : Output) (e : ExportExtent)
      → IsRoomy ctx out.span out.session
      → 0 < e.length
      → e.offset + e.length < 2 ^ 31
      → let e₁ = (construct_data_segment ctx last out e).1 in
        (e₁.length < e.length) × (e₁.offset + e₁.length ≡ e.offset + e.length)
  unfolding construct_data_segment
  construct_extent out e v p q =
      let (sendable, some_data, within) = issued-IsSendable ctx last out e v p q in
      (omega arith, omega arith)

  issue_extent_done :
      (fuel : ℕ) (out : Output) (e : ExportExtent)
      → e.length ≡ 0
      → issue_extent fuel ctx last out e ≡ some out
  unfolding issue_extent
  issue_extent_done zero out e h = ground arith
  issue_extent_done (suc fuel) out e h = ground arith

  issue_extent_step :
      (fuel : ℕ) (out : Output) (e : ExportExtent)
      → 0 < e.length
      → issue_extent (suc fuel) ctx last out e
        ≡ issue_extent fuel ctx last
            (construct_data_segment ctx last out e).0
            (construct_data_segment ctx last out e).1
  unfolding issue_extent
  issue_extent_step fuel out e h = ground arith

  Issued-none :
      (fuel : ℕ) (out : Output) (e : ExportExtent)
      → e.length ≡ 0
      → Issued ctx last out e.offset (e.offset + e.length) (issue_extent fuel ctx last out e)
  Issued-none fuel out e h = record {
    segs = [];
    out' = out;
    returns = issue_extent_done fuel out e h;
    queued = sym (append-nil out.span.segments);
    tiles = omega arith;
    kept = Kept-refl out;
  }

  Issued-step :
      (fuel : ℕ) (out : Output) (e : ExportExtent)
      → IsRoomy ctx out.span out.session
      → 0 < e.length
      → e.offset + e.length < 2 ^ 31
      → let (out₁, e₁) = construct_data_segment ctx last out e in
        Issued ctx last out₁ e₁.offset (e₁.offset + e₁.length) (issue_extent fuel ctx last out₁ e₁)
        → Issued ctx last out e.offset
            (e.offset + e.length)
            (issue_extent (suc fuel) ctx last out e)
  unfolding construct_data_segment finish_segment note_segment
  Issued-step fuel out e v p q i =
      let n : ℕ = (sizing ctx last out e).length in
      let (sendable, some_data, within) = issued-IsSendable ctx last out e v p q in
      let start : (e.offset + n) % u32 ≡ e.offset + n = omega arith in
      let finish : (e.offset + n) % u32 + sub32 e.length n ≡ e.offset + e.length = omega arith in
      record {
        segs = issued ctx last out e ∷ i.segs;
        out' = i.out';
        returns = issue_extent_step fuel out e p ∙ i.returns;
        queued = i.queued ∙ append_assoc out.span.segments (issued ctx last out e ∷ []) i.segs;
        tiles = (
          refl,
          sendable,
          issued-IsTyped ctx out.span out.session e last v p q,
          rw (finish, start) at i.tiles,
        );
        kept = Kept-trans (construct-Kept out e) i.kept;
      }

  -- With room in a segment for the longest header and one byte, session fields that fit their types,
  -- an extent that ends within the ints, and as much fuel as the extent has bytes, the loop over the
  -- extent ends, and the segments that it queues may be sent, have the types that their places call
  -- for, and tile the extent.
  pub issue_extent-Issued :
      (fuel : ℕ) (out : Output) (e : ExportExtent)
      → IsRoomy ctx out.span out.session
      → e.length ≤ fuel
      → e.offset + e.length < 2 ^ 31
      → Issued ctx last out e.offset (e.offset + e.length) (issue_extent fuel ctx last out e)
  issue_extent-Issued zero out e v h q = Issued-none zero out e (omega arith)
  issue_extent-Issued (suc fuel) out e v h q = elim (Bool-cases (ltb 0 e.length)) [
    | inl more ↦
        let out₁ : Output = (construct_data_segment ctx last out e).0 in
        let e₁ : ExportExtent = (construct_data_segment ctx last out e).1 in
        let (smaller, whole) = construct_extent out e v (ground arith) q in
        Issued-step fuel out e v (ground arith) q (
          issue_extent-Issued fuel out₁ e₁ (IsRoomy-Kept ctx out out₁ (construct-Kept out e) v)
            (omega arith) (omega arith))
    | inr done ↦ Issued-none (suc fuel) out e (ground arith)
  ]
