-- ===== src/Block/Tests.antt =====
-- A block of two units, one of them partly green, and reads from a block.
use mini_ltp.Prelude.{◌≡◌, refl, [], ◌∷◌, List, ℕ, take, drop, concat}
use mini_ltp.Block.{BufferedBlock, read_from_export_block}
use mini_ltp.Block.Send.{sdu_of}
use mini_ltp.Block.Read.{read_from_export_block-concat}

abbrev one_unit : BufferedBlock
one_unit = record {
  current_export_session_obj = 88;
  export_sessions = 1;
  max_export_sessions = 2;
  aggr_size_limit = 10;
  length_of_buffered_block = 3;
  red_length_of_buffered_block = 3;
  client_svc_id_of_buffered_block = 1;
  svc_data_objects = sdu_of 1 (5 ∷ 6 ∷ 7 ∷ []) 4294967295 ∷ [];
}

abbrev units : List (List ℕ)
units = (1 ∷ 2 ∷ 3 ∷ []) ∷ (4 ∷ []) ∷ (5 ∷ 6 ∷ []) ∷ []

across : read_from_export_block 2 3 units ≡ 3 ∷ 4 ∷ 5 ∷ []
unfolding read_from_export_block
across = refl

read_from_export_block-concat_example :
    read_from_export_block 2 3 units ≡ take 3 (drop 2 (concat units))
read_from_export_block-concat_example = read_from_export_block-concat 2 3 units
