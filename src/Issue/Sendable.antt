-- ===== src/Issue/Sendable.antt =====
-- The segments that may be sent, and that constructDataSegment makes such segments.
use mini_ltp.Prelude.{
  ℕ, ◌+◌, ◌-◌, ◌^◌, ◌≤◌, ◌<◌, ◌≡◌, refl, List, [], ◌∷◌, Bool, true, false, ltb, arith,
  if◌then◌else◌, Bool-cases, inl, inr, ◌⊎◌,
}
use mini_ltp.Claims.{ExportExtent}
use mini_ltp.Issue.{
  Context, Span, ExportSession, Sizing, IssuedSeg, Output, size_segment, remaining_red_bytes,
  finish_segment, segment_type,
}
use mini_ltp.Issue.Flags.{IsTyped}
use mini_ltp.Issue.Size.{IsRoomy, Sized, overhead_of, size_red-Sized, size_green-Sized}

-- A segment that may be sent: it has data, its size is within the span's limit, and its data and
-- its type are red if it starts in the red part, and green otherwise.
pub record IsSendable (max_size red_part : ℕ) (i : IssuedSeg) : Type 0 where
  pub some_data : 0 < i.seg.pdu.length
  pub fits : i.header_length + i.content_length ≤ max_size
  pub colour :
      (i.seg.pdu.offset + i.seg.pdu.length ≤ red_part) × (i.seg.pdu.seg_type_code ≤ 3)
      ⊎ (red_part ≤ i.seg.pdu.offset) × (4 ≤ i.seg.pdu.seg_type_code)

-- Sendable segments of the right types, each starting where the one before it ends.
module _ (ctx : Context) (last : Bool) (total max_size red_part : ℕ) where
  abbrev pub Tiles : ℕ → ℕ → List IssuedSeg → Type 0
  Tiles start finish [] = start ≡ finish
  Tiles start finish (i ∷ is) =
      (i.seg.pdu.offset ≡ start)
      × IsSendable max_size red_part i
      × IsTyped ctx last red_part total finish i
      × Tiles (start + i.seg.pdu.length) finish is

segment_type_colour : (s : Sizing) → (segment_type true s ≤ 3) × (4 ≤ segment_type false s)
unfolding segment_type
segment_type_colour s = (ground arith, ground arith)

module _ (ctx : Context) (span : Span) (session : ExportSession) (e : ExportExtent) where
  finish_red :
      (s : Sizing) (n : ℕ)
      → 0 < session.red_part_length - e.offset
      → Sized span.max_segment_size (overhead_of ctx session e.offset s) n s.length
      → n ≤ session.red_part_length - e.offset
      → IsSendable span.max_segment_size session.red_part_length
          (finish_segment ctx span session e s)
  unfolding finish_segment remaining_red_bytes
  finish_red s n h z k = record {
    some_data = z.some_data;
    fits = omega (arith, z.fits);
    colour =
        let red : ltb 0 (session.red_part_length - e.offset) ≡ true = ground arith in
        rw red (inl (omega (arith, z.within), (segment_type_colour s).0));
  }

  finish_green :
      (s : Sizing) (n : ℕ)
      → session.red_part_length ≤ e.offset
      → Sized span.max_segment_size (overhead_of ctx session e.offset s) n s.length
      → IsSendable span.max_segment_size session.red_part_length
          (finish_segment ctx span session e s)
  unfolding finish_segment remaining_red_bytes
  finish_green s n h z = record {
    some_data = z.some_data;
    fits = omega (arith, z.fits);
    colour =
        let green : ltb 0 (session.red_part_length - e.offset) ≡ false = ground arith in
        rw green (inr (h, (segment_type_colour s).1));
  }

module _ (ctx : Context) (last : Bool) where
  abbrev pub sizing : Output → ExportExtent → Sizing
  sizing out e = size_segment ctx out.span out.session last e

  abbrev pub issued : Output → ExportExtent → IssuedSeg
  issued out e = finish_segment ctx out.span out.session e (sizing out e)

  -- One segment of an extent that is not empty.
  pub issued-IsSendable :
      (out : Output) (e : ExportExtent)
      → IsRoomy ctx out.span out.session
      → 0 < e.length
      → e.offset + e.length < 2 ^ 31
      → IsSendable out.span.max_segment_size out.session.red_part_length (issued out e)
        × (0 < (sizing out e).length)
        × ((sizing out e).length ≤ e.length)
  unfolding size_segment remaining_red_bytes
  issued-IsSendable out e v p q =
      elim (Bool-cases (ltb 0 (out.session.red_part_length - e.offset))) [
        | inl h ↦
            let red : ℕ = out.session.red_part_length - e.offset in
            let n : ℕ = if ltb e.length red then e.length else red in
            let z =
              size_red-Sized ctx out.span out.session v e last red n refl p (omega arith)
                (omega arith) (ground arith) (omega (arith, v.red)) in
            rw h (
              finish_red ctx out.span out.session e _ n (ground arith) z (ground arith),
              z.some_data,
              ground (arith, z.within),
            )
        | inr h ↦
            let z =
              size_green-Sized ctx out.span out.session v e last p (omega arith) (omega arith) in
            rw h (
              finish_green ctx out.span out.session e _ e.length (ground arith) z,
              z.some_data,
              z.within,
            )
      ]
