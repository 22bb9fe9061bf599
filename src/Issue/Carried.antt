-- ===== src/Issue/Carried.antt =====
-- The bytes that the segments carry, over all extents of an issuance.
use mini_ltp.Prelude.{
  ℕ, ◌+◌, ◌-◌, ◌^◌, ◌≤◌, ◌<◌, ◌≡◌, refl, sym, ap, ap₂, ◌∙◌, List, [], ◌∷◌, ◌++◌, append_assoc,
  append-nil, Bool, false, ◌||◌, arith, Option, some, All,
}
use mini_ltp.Claims.{ExportExtent}
use mini_ltp.Claims.Cover.{in_range, to_send}
use mini_ltp.Issue.{
  Context, IssuedSeg, Output, issue_extent, issue_extents, issue_segments, is_last,
}
use mini_ltp.Issue.Size.{IsRoomy}
use mini_ltp.Issue.Tiling.{Kept, Kept-refl, Kept-trans, IsRoomy-Kept, Issued, issue_extent-Issued}
use mini_ltp.Issue.Sendable.{IsSendable, Tiles}

-- Does a segment carry byte `b` of the block?
abbrev pub carried : ℕ → List IssuedSeg → Bool
carried b [] = false
carried b (i ∷ is) = in_range b i.seg.pdu.offset i.seg.pdu.length || carried b is

carried-append :
    (b : ℕ) (xs ys : List IssuedSeg) → carried b (xs ++ ys) ≡ (carried b xs || carried b ys)
carried-append b [] ys = ground arith
carried-append b (i ∷ xs) ys = ground (arith, carried-append b xs ys)

in_range_split :
    (b start n finish : ℕ)
    → start + n ≤ finish
    → (in_range b start n || in_range b (start + n) (finish - (start + n)))
      ≡ in_range b start (finish - start)
in_range_split b start n finish h = ground arith

module _ (ctx : Context) (last : Bool) (total max_size red : ℕ) where
  Tiles-le :
      (start finish : ℕ) (segs : List IssuedSeg)
      → Tiles ctx last total max_size red start finish segs
      → start ≤ finish
  Tiles-le start finish [] t = omega arith
  Tiles-le start finish (i ∷ is) (e, s, y, t) =
      omega (arith, Tiles-le (start + i.seg.pdu.length) finish is t)

  carried-Tiles :
      (b start finish : ℕ) (segs : List IssuedSeg)
      → Tiles ctx last total max_size red start finish segs
      → carried b segs ≡ in_range b start (finish - start)
  carried-Tiles b start finish [] t = ground arith
  carried-Tiles b start finish (i ∷ is) (e, s, y, t) =
      let n : ℕ = i.seg.pdu.length in
      ap₂ (λ x y. x || y) (ap (λ o. in_range b o n) e) (carried-Tiles b (start + n) finish is t)
      ∙ in_range_split b start n finish (Tiles-le (start + n) finish is t)

  Tiles-All :
      (start finish : ℕ) (segs : List IssuedSeg)
      → Tiles ctx last total max_size red start finish segs
      → All (IsSendable max_size red) segs
  Tiles-All start finish [] t = tt
  Tiles-All start finish (i ∷ is) (e, s, y, t) =
      (s, Tiles-All (start + i.seg.pdu.length) finish is t)

All-append :
    (max_size red : ℕ) (xs ys : List IssuedSeg)
    → All (IsSendable max_size red) xs
    → All (IsSendable max_size red) ys
    → All (IsSendable max_size red) (xs ++ ys)
All-append max_size red [] ys h k = k
All-append max_size red (x ∷ xs) ys (h, hs) k = (h, All-append max_size red xs ys hs k)

-- An extent that the fuel is enough for, within the block lengths that an int holds.
abbrev pub IsExtent : ℕ → ExportExtent → Type 0
IsExtent fuel e = (e.length ≤ fuel) × (e.offset + e.length < 2 ^ 31)

-- The output of the issuance of a list of extents.
pub record IssuedAll (out : Output) (extents : List ExportExtent) (result : Option Output)
    : Type 0 where
  pub segs : List IssuedSeg
  pub out' : Output
  pub returns : result ≡ some out'
  pub queued : out'.span.segments ≡ out.span.segments ++ segs
  pub sendable : All (IsSendable out.span.max_segment_size out.session.red_part_length) segs
  pub carries : (b : ℕ) → carried b segs ≡ to_send b extents
  pub kept : Kept out out'

module _ (fuel : ℕ) (ctx : Context) where
  issue_extents_step :
      (out out' : Output) (e : ExportExtent) (es : List ExportExtent)
      → issue_extent fuel ctx (is_last es) out e ≡ some out'
      → issue_extents fuel ctx out (e ∷ es) ≡ issue_extents fuel ctx out' es
  unfolding issue_extents
  issue_extents_step out out' e es h = ground arith

  IssuedAll-cons :
      (out : Output) (e : ExportExtent) (es : List ExportExtent)
      → (i : Issued ctx
          (is_last es)
          out
          e.offset
          (e.offset + e.length)
          (issue_extent fuel ctx (is_last es) out e))
      → IssuedAll i.out' es (issue_extents fuel ctx i.out' es)
      → IssuedAll out (e ∷ es) (issue_extents fuel ctx out (e ∷ es))
  IssuedAll-cons out e es i j =
      let max_size : ℕ = out.span.max_segment_size in
      let red : ℕ = out.session.red_part_length in
      let total : ℕ = out.session.total_length in
      record {
        segs = i.segs ++ j.segs;
        out' = j.out';
        returns = issue_extents_step out i.out' e es i.returns ∙ j.returns;
        queued =
            j.queued
            ∙ ap (λ q. q ++ j.segs) i.queued
            ∙ append_assoc out.span.segments i.segs j.segs;
        sendable =
            All-append max_size red i.segs j.segs
              (Tiles-All ctx (is_last es) total max_size red _ _ i.segs i.tiles)
              (rw (i.kept.max_size, i.kept.red) at j.sendable);
        carries = λ b.
            let whole : e.offset + e.length - e.offset ≡ e.length = omega arith in
            carried-append b i.segs j.segs
            ∙ ap₂ (λ x y. x || y)
                (rw whole at
                  (carried-Tiles ctx (is_last es) total max_size red b _ _ i.segs i.tiles))
                (j.carries b);
        kept = Kept-trans i.kept j.kept;
      }

  issue_extents-IssuedAll :
      (out : Output) (es : List ExportExtent)
      → IsRoomy ctx out.span out.session
      → All (IsExtent fuel) es
      → IssuedAll out es (issue_extents fuel ctx out es)
  unfolding issue_extents
  issue_extents-IssuedAll out [] v h = record {
    segs = [];
    out' = out;
    returns = refl;
    queued = sym (append-nil out.span.segments);
    sendable = tt;
    carries = λ b. refl;
    kept = Kept-refl out;
  }
  issue_extents-IssuedAll out (e ∷ es) v ((h, k), hs) =
      let i = issue_extent-Issued ctx (is_last es) fuel out e v h k in
      IssuedAll-cons out e es i
        (issue_extents-IssuedAll i.out' es (IsRoomy-Kept ctx out i.out' i.kept v) hs)

issue_segments_live :
    (fuel : ℕ) (ctx : Context) (out : Output) (es : List ExportExtent)
    → out.session.is_stopped ≡ false
    → issue_segments fuel ctx out es ≡ issue_extents fuel ctx out es
unfolding issue_segments
issue_segments_live fuel ctx out es h = ground arith

-- The segments issued for a session that is not stopped, with room in a segment for the longest
-- header and one byte, session fields that fit their types, extents that end within the ints, and as
-- much fuel as the longest extent has bytes: the issuance ends, the segments may all be sent, and
-- together they carry exactly the bytes of the extents.
pub issue_segments-IssuedAll :
    (fuel : ℕ) (ctx : Context) (out : Output) (es : List ExportExtent)
    → IsRoomy ctx out.span out.session
    → out.session.is_stopped ≡ false
    → All (IsExtent fuel) es
    → IssuedAll out es (issue_segments fuel ctx out es)
issue_segments-IssuedAll fuel ctx out es v live h =
    rw (issue_segments_live fuel ctx out es live) (issue_extents-IssuedAll fuel ctx out es v h)
