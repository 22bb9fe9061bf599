-- ===== src/Block/Send.antt =====
-- The block stays in good order as service data units are appended.
use mini_ltp.Prelude.{
  ℕ, ◌+◌, ◌≤◌, ◌<◌, ◌≡◌, ◌⊎◌, List, [], ◌∷◌, ◌++◌, Bool, true, ◌||◌, ltb, leb, Option, none, some,
  length, All,
}
use mini_ltp.Block.{Sdu, BufferedBlock, is_released, red_length}

abbrev pub total : List Sdu → ℕ
total [] = 0
total (sdu ∷ sdus) = length sdu.bytes + total sdus

abbrev total_red : List Sdu → ℕ
total_red [] = 0
total_red (sdu ∷ sdus) = sdu.red_part_length + total_red sdus

-- All units but the last are red, so that the red parts, one after the other, start the block.
abbrev GreenLast : List Sdu → Type 0
GreenLast [] = Unit {0}
GreenLast (sdu ∷ []) = sdu.red_part_length ≤ length sdu.bytes
GreenLast (sdu ∷ next ∷ sdus) = (sdu.red_part_length ≡ length sdu.bytes) × GreenLast (next ∷ sdus)

-- The lengths are those of the units; green data comes last; units that are not empty are for one
-- client; and the session that is over the limit has no red data.
pub record IsBlock (block : BufferedBlock) : Type 0 where
  pub sized : block.length_of_buffered_block ≡ total block.svc_data_objects
  pub red_sized : block.red_length_of_buffered_block ≡ total_red block.svc_data_objects
  pub green_last : GreenLast block.svc_data_objects
  pub one_client :
      All
        (λ sdu. 0 < length sdu.bytes → sdu.client_svc_id ≡ block.client_svc_id_of_buffered_block)
        block.svc_data_objects
  pub limited :
      block.max_export_sessions < block.export_sessions → block.red_length_of_buffered_block ≡ 0

-- The unit that ltp_send appends.
abbrev pub sdu_of : ℕ → List ℕ → ℕ → Sdu
sdu_of client bytes red = record {
  client_svc_id = client;
  bytes = bytes;
  red_part_length = red_length bytes red;
}

-- What becomes of a unit. It waits while the span has no session, or the block has bytes and is with ltpmeter or is another
-- client's, or is empty but over the limit of sessions, which keeps red data out. Otherwise it is the
-- last unit of the block, which goes to ltpmeter if it is large enough or has green data.
abbrev pub Sent : ℕ → List ℕ → ℕ → BufferedBlock → Option (BufferedBlock × Bool) → Type 0
Sent client bytes red block none =
    (block.current_export_session_obj ≡ 0)
    ⊎ (0 < total block.svc_data_objects)
      × ((is_released block ≡ true) ⊎ ¬ (client ≡ block.client_svc_id_of_buffered_block))
    ⊎ (total block.svc_data_objects ≡ 0)
      × (block.max_export_sessions < block.export_sessions)
      × (0 < red_length bytes red)
Sent client bytes red block (some (new, released)) =
    (0 < block.current_export_session_obj)
    × IsBlock new
    × (new.svc_data_objects ≡ block.svc_data_objects ++ sdu_of client bytes red ∷ [])
    × (released ≡ (
        leb block.aggr_size_limit (total new.svc_data_objects)
        || ltb (total_red new.svc_data_objects) (total new.svc_data_objects)))
