-- ===== src/Issue/Size.antt =====
-- The size of each segment: at least one byte, one colour, and never more than the span allows.
use mini_ltp.Prelude.{ℕ, ◌+◌, ◌^◌, ◌≤◌, ◌<◌, ◌≡◌, Bool, true, false, ltb, arith, if◌then◌else◌}
use mini_ltp.Sdnv.{u32, u64, sub32, sdnv_length}
use mini_ltp.Sdnv.Length.{sdnv_length_mono, sdnv_length_small, sdnv_length_large}
use mini_ltp.Claims.{ExportExtent}
use mini_ltp.Issue.{
  Context, Span, ExportSession, Sizing, segment_header_length, known_overhead, checkpoint_overhead,
  reduced_length, size_red, size_green,
}

-- The numbers have the widths of their C types, and a segment of the span has room for the longest
-- header and one byte of data.
pub record IsRoomy (ctx : Context) (span : Span) (session : ExportSession) : Type 0 where
  pub own : ctx.own_engine_id < u64
  pub rpt : ctx.report_serial_nbr < u32
  pub ckpt : ctx.checkpoint_serial_nbr < u32
  pub nbr : session.session_nbr < u32
  pub client : session.client_svc_id < u32
  pub red : session.red_part_length < 2 ^ 31
  pub room : 43 ≤ span.max_segment_size
  pub int_size : span.max_segment_size < 2 ^ 31

module _ (ctx : Context) (span : Span) (session : ExportSession)
    (v : IsRoomy ctx span session) where
  pub header_bound : segment_header_length ctx session ≤ 17
  unfolding segment_header_length
  header_bound = omega (
    arith,
    sdnv_length_large ctx.own_engine_id v.own,
    sdnv_length_small session.session_nbr v.nbr,
  )

  pub known_bound : (offset : ℕ) → offset < u32 → known_overhead session offset ≤ 10
  unfolding known_overhead
  known_bound offset h =
      omega (arith, sdnv_length_small session.client_svc_id v.client, sdnv_length_small offset h)

  pub checkpoint_bound : checkpoint_overhead ctx ≤ 10
  unfolding checkpoint_overhead
  checkpoint_bound = omega (
    arith,
    sdnv_length_small ctx.report_serial_nbr v.rpt,
    sdnv_length_small ctx.checkpoint_serial_nbr v.ckpt,
  )

-- What is true of a segment's data: `n` bytes of the `red_bytes` that the extent has of its colour.
pub record Sized (max_size overhead red_bytes n : ℕ) : Type 0 where
  pub some_data : 0 < n
  pub within : n ≤ red_bytes
  pub fits : n + overhead ≤ max_size

reduced_length-Sized :
    (max_size overhead : ℕ) (last : Bool) (red_bytes : ℕ)
    → overhead < max_size
    → max_size < 2 ^ 31
    → 2 ≤ red_bytes
    → (last ≡ false → max_size < red_bytes + overhead)
    → Sized max_size overhead red_bytes (reduced_length max_size overhead last red_bytes)
unfolding reduced_length
reduced_length-Sized max_size overhead true red_bytes h k l m = ground arith
reduced_length-Sized max_size overhead false red_bytes h k l m = ground arith

-- The bytes of the whole segment behind the header: what finish_segment computes.
abbrev pub overhead_of : Context → ExportSession → ℕ → Sizing → ℕ
overhead_of ctx session offset s =
    segment_header_length ctx session
    + (known_overhead session offset
        + (if s.is_checkpoint then checkpoint_overhead ctx else 0)
        + sdnv_length s.length)

module _ (ctx : Context) (span : Span) (session : ExportSession) (v : IsRoomy ctx span session)
    (e : ExportExtent) where
  abbrev base : ℕ
  base = segment_header_length ctx session + known_overhead session e.offset

  pub size_red-Sized :
      (last : Bool) (red red_bytes : ℕ)
      → red_bytes ≡ (if ltb e.length red then e.length else red)
      → 0 < e.length
      → e.length < u32
      → e.offset < u32
      → 0 < red
      → red < 2 ^ 31
      → let s = size_red ctx span session last e red in
        Sized span.max_segment_size (overhead_of ctx session e.offset s) red_bytes s.length
  unfolding size_red
  size_red-Sized true red red_bytes eq p q r k l =
      let overhead : ℕ = base + sdnv_length red_bytes in
      let small : red_bytes < u32 = ground (arith, eq) in
      let positive : 0 < red_bytes = ground (arith, eq) in
      rw (← eq) (
        ground (
          arith,
          v.room,
          v.int_size,
          header_bound ctx span session v,
          known_bound ctx span session v e.offset r,
          checkpoint_bound ctx span session v,
          sdnv_length_small red_bytes small,
          reduced_length-Sized span.max_segment_size overhead true red_bytes,
          sdnv_length_mono (reduced_length span.max_segment_size overhead true red_bytes) red_bytes,
        ))
  size_red-Sized false red red_bytes eq p q r k l =
      let overhead : ℕ = base + sdnv_length red_bytes in
      let small : red_bytes < u32 = ground (arith, eq) in
      let positive : 0 < red_bytes = ground (arith, eq) in
      rw (← eq) (
        ground (
          arith,
          v.room,
          v.int_size,
          header_bound ctx span session v,
          known_bound ctx span session v e.offset r,
          checkpoint_bound ctx span session v,
          sdnv_length_small red_bytes small,
          reduced_length-Sized span.max_segment_size overhead false red_bytes,
          sdnv_length_mono (reduced_length span.max_segment_size overhead false red_bytes)
              red_bytes,
        ))

  pub size_green-Sized :
      (last : Bool)
      → 0 < e.length
      → e.length < 2 ^ 31
      → e.offset < u32
      → let s = size_green ctx span session last e in
        Sized span.max_segment_size (overhead_of ctx session e.offset s) e.length s.length
  unfolding size_green
  size_green-Sized last p q r = ground (
    arith,
    v.room,
    v.int_size,
    header_bound ctx span session v,
    known_bound ctx span session v e.offset r,
    sdnv_length_small e.length (omega arith),
    sdnv_length_mono (sub32 span.max_segment_size (base + sdnv_length e.length)) e.length,
  )
