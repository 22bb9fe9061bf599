-- ===== src/Reception/Whole.antt =====
-- When the count of bytes received says that the red part has arrived.
use mini_ltp.Prelude.{ℕ, ◌+◌, ◌≤◌, ◌<◌, ◌≡◌, List, [], ◌∷◌, true, arith, ◌↔◌}
use mini_ltp.Reception.{RecvSeg, ImportSession, is_whole}
use mini_ltp.Reception.Disjoint.{
  received, total, Disjoint, Disjoint-le, total_le, received_below, IsReceiving,
}

full_covers :
    (lo hi b : ℕ) (ss : List RecvSeg)
    → Disjoint lo hi ss
    → lo + total ss ≡ hi
    → lo ≤ b
    → b < hi
    → received b ss ≡ true
full_covers lo hi b [] d t l h = ground arith
full_covers lo hi b (s ∷ ss) (a, p, d) t l h =
    let top : s.offset + s.length + total ss ≤ hi = total_le (s.offset + s.length) hi ss d in
    ground (arith, full_covers (s.offset + s.length) hi b ss d)

covers_full :
    (lo hi : ℕ) (ss : List RecvSeg)
    → Disjoint lo hi ss
    → ((b : ℕ) → lo ≤ b → b < hi → received b ss ≡ true)
    → lo + total ss ≡ hi
covers_full lo hi [] d f = ground (arith, f lo)
covers_full lo hi (s ∷ ss) (a, p, d) f =
    let top : s.offset + s.length ≤ hi = Disjoint-le (s.offset + s.length) hi ss d in
    let start : s.offset ≡ lo =
      ground (arith, f lo, received_below (s.offset + s.length) hi lo ss d) in
    let rest : s.offset + s.length + total ss ≡ hi =
      covers_full (s.offset + s.length) hi ss d (λ b l h. ground (arith, f b (omega arith) h)) in
    omega arith

-- In a session in good order whose red part has a known length, the count of bytes received equals
-- that length just if every byte of the red part has been received.
pub is_whole_iff :
    (session : ImportSession)
    → IsReceiving session
    → 0 < session.red_part_length
    → (is_whole session ≡ true)
      ↔ ((b : ℕ) → b < session.red_part_length → received b session.red_segments ≡ true)
unfolding is_whole
is_whole_iff session v p =
    let d : Disjoint 0 session.red_part_length session.red_segments = v.within p in
    (
      λ e b h.
          full_covers 0 session.red_part_length b session.red_segments d (ground (arith, v.counted))
            (omega arith) h,
      λ f.
          let t : 0 + total session.red_segments ≡ session.red_part_length =
            covers_full 0 session.red_part_length session.red_segments d (λ b l h. f b h) in
          ground (arith, v.counted),
    )
