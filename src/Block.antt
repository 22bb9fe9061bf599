-- ===== src/Block.antt =====
-- The block that service data units are gathered in: sduCanBeAppendedToBlock and ltp_send of
-- ltp/library/libltp.c, and readFromExportBlock of ltp/library/libltpP.c.
-- A zero-copy object is the list of its bytes; zco_transmit reads the next ones. Where ltp_send waits
-- for the block to open, the model has `none`. An object that does not exist is 0.
pub mod Read
pub mod Send
mod Tests
use mini_ltp.Prelude.{
  ℕ, ◌+◌, ◌-◌, ◌%◌, List, [], ◌∷◌, ◌++◌, Bool, true, false, ◌||◌, not, ltb, leb, ◌==◌,
  if◌then◌else◌, Option, none, some, length, take, drop, min,
}
use mini_ltp.Sdnv.{u32}

-- A service data unit that has been appended, with its client and the length of its red part.
pub record Sdu : Type 0 where
  pub client_svc_id : ℕ
  pub bytes : List ℕ
  pub red_part_length : ℕ

-- The parts of an LtpSpan that describe the block, and the SDUs of its session.
pub record BufferedBlock : Type 0 where
  pub current_export_session_obj : ℕ
  pub export_sessions : ℕ
  pub max_export_sessions : ℕ
  pub aggr_size_limit : ℕ
  pub length_of_buffered_block : ℕ
  pub red_length_of_buffered_block : ℕ
  pub client_svc_id_of_buffered_block : ℕ
  pub svc_data_objects : List Sdu

unfoldable pub sdu_can_be_appended_to_block : BufferedBlock → ℕ → ℕ → Bool
sdu_can_be_appended_to_block block client_svc_id red_part_length =
    if block.length_of_buffered_block == 0
    then if ltb block.max_export_sessions block.export_sessions then red_part_length == 0 else true
    else not (
        ltb block.red_length_of_buffered_block block.length_of_buffered_block
        || leb block.aggr_size_limit block.length_of_buffered_block
        || not (client_svc_id == block.client_svc_id_of_buffered_block))

unfoldable pub append_sdu : Sdu → BufferedBlock → BufferedBlock
append_sdu sdu block = record block {
  length_of_buffered_block = (block.length_of_buffered_block + length sdu.bytes) % u32;
  red_length_of_buffered_block = (block.red_length_of_buffered_block + sdu.red_part_length) % u32;
  client_svc_id_of_buffered_block = sdu.client_svc_id;
  svc_data_objects = block.svc_data_objects ++ sdu ∷ [];
}

-- Whether the block is given to ltpmeter.
unfoldable pub is_released : BufferedBlock → Bool
is_released block =
    leb block.aggr_size_limit block.length_of_buffered_block
    || ltb block.red_length_of_buffered_block block.length_of_buffered_block

-- LTP_ALL_RED, or any length that is too great, stands for the whole unit.
unfoldable pub red_length : List ℕ → ℕ → ℕ
red_length bytes red_part_length =
    if ltb (length bytes) red_part_length then length bytes else red_part_length

unfoldable pub ltp_send : ℕ → List ℕ → ℕ → BufferedBlock → Option (BufferedBlock × Bool)
ltp_send client_svc_id bytes red_part_length block =
    let sdu : Sdu = record {
      client_svc_id = client_svc_id;
      bytes = bytes;
      red_part_length = red_length bytes red_part_length;
    } in
    if block.current_export_session_obj == 0
    then none
    else if sdu_can_be_appended_to_block block client_svc_id sdu.red_part_length
    then some (append_sdu sdu block, is_released (append_sdu sdu block))
    else none

-- The bytes that are copied into the buffer.
unfoldable pub read_from_export_block : ℕ → ℕ → List (List ℕ) → List ℕ
read_from_export_block offset count [] = []
read_from_export_block offset count (sdu ∷ sdus) =
    let skipped = read_from_export_block (offset - length sdu) count sdus in
    let bytes_to_read : ℕ = min count (length sdu - offset) in
    let further = read_from_export_block 0 (count - bytes_to_read) sdus in
    if leb (length sdu) offset
    then skipped
    else take bytes_to_read (drop offset sdu)
      ++ (if count - bytes_to_read == 0 then [] else further)
