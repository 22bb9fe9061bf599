-- ===== src/Reception/Disjoint.antt =====
-- The bytes that a list of received segments stands for, and its form: rising, without overlaps.
use mini_ltp.Prelude.{ℕ, ◌+◌, ◌-◌, ◌^◌, ◌≤◌, ◌<◌, ◌≡◌, List, [], ◌∷◌, Bool, false, ◌||◌, arith}
use mini_ltp.Claims.Cover.{in_range}
use mini_ltp.Reception.{RecvSeg, ImportSession}

abbrev pub received : ℕ → List RecvSeg → Bool
received b [] = false
received b (s ∷ ss) = in_range b s.offset s.length || received b ss

abbrev pub total : List RecvSeg → ℕ
total [] = 0
total (s ∷ ss) = s.length + total ss

-- Segments from `lo` on, up to `hi`.
abbrev pub Disjoint : ℕ → ℕ → List RecvSeg → Type 0
Disjoint lo hi [] = lo ≤ hi
Disjoint lo hi (s ∷ ss) = (lo ≤ s.offset) × (0 < s.length) × Disjoint (s.offset + s.length) hi ss

pub Disjoint-le : (lo hi : ℕ) (ss : List RecvSeg) → Disjoint lo hi ss → lo ≤ hi
Disjoint-le lo hi [] d = d
Disjoint-le lo hi (s ∷ ss) (a, b, d) =
    omega (arith, Disjoint-le (s.offset + s.length) hi ss d, a, b)

Disjoint_lower :
    (lo lo' hi : ℕ) (ss : List RecvSeg) → lo' ≤ lo → Disjoint lo hi ss → Disjoint lo' hi ss
Disjoint_lower lo lo' hi [] h d = omega arith
Disjoint_lower lo lo' hi (s ∷ ss) h (a, b, d) = (omega arith, b, d)

-- The segments have room between their bounds.
pub total_le : (lo hi : ℕ) (ss : List RecvSeg) → Disjoint lo hi ss → lo + total ss ≤ hi
total_le lo hi [] d = omega arith
total_le lo hi (s ∷ ss) (a, b, d) = omega (arith, total_le (s.offset + s.length) hi ss d, a)

pub received_below :
    (lo hi b : ℕ) (ss : List RecvSeg) → Disjoint lo hi ss → b < lo → received b ss ≡ false
received_below lo hi b [] d h = ground arith
received_below lo hi b (s ∷ ss) (a, p, d) h =
    ground (arith, received_below (s.offset + s.length) hi b ss d)

-- Bytes up to a bound that is an int.
abbrev pub int_limit : ℕ
int_limit = 2 ^ 31

-- The state of an import session: the segments do not overlap, end within the ints and within the
-- red part if its length is known, and their lengths add up to the count of bytes received.
pub record IsReceiving (session : ImportSession) : Type 0 where
  pub disjoint : Disjoint 0 (int_limit - 1) session.red_segments
  pub counted : session.red_part_received ≡ total session.red_segments
  pub int_length : session.red_part_length < int_limit
  pub within : 0 < session.red_part_length → Disjoint 0 session.red_part_length session.red_segments
