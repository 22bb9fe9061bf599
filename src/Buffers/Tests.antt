-- ===== src/Buffers/Tests.antt =====
-- A block of 12 bytes that arrives in two segments, with a heap buffer of 8 bytes.
use mini_ltp.Prelude.{ℕ, ◌+◌, ◌<◌, ◌≡◌, refl, some, arith, true}
use mini_ltp.Reception.{
  insert_data_segment, is_beyond_red_part, search_place, is_free, overlaps_previous, overlaps_next,
  seg_upper_bound, insert_segment, is_whole,
}
use mini_ltp.Import.{is_end_of_red_part, note_end_of_red_part, note_end_of_block}
use mini_ltp.Buffers.{
  Import, Arrival, Acceptance, empty_session, empty_buffers, heap_buffer_size_for,
  start_import_session, bytes_for_heap, bytes_for_file, write_bytes, write_heap, offset_in_file,
  write_file, write_rest, write_content, stored_with, accept_red_content, note_ends, take_in,
  delivered,
}
use mini_ltp.Buffers.Acquire.{IsSegment}
use mini_ltp.Buffers.Reach.{Reached}
use mini_ltp.Buffers.Deliver.{red_part, delivered-red_part, take_in-accepted}
use mini_ltp.Buffers.Overrun.{empty_end, take_in-overrun}

abbrev content : ℕ → ℕ
content i = i + 100

abbrev arrival : ℕ → ℕ → ℕ → Arrival
arrival code offset length = record {
  red = record {
    seg_type_code = code;
    seg = record { offset = offset; length = length };
    ckpt_serial_nbr = 1;
    rpt_serial_nbr = 0;
  };
  cursor = λ j. offset + j + 100;
}

abbrev start : Arrival
start = arrival 0 0 6

abbrev end : Arrival
end = arrival 2 6 6

abbrev opened : Import
opened = record { session = empty_session 5 1; buffers = empty_buffers 8 }

abbrev import_of : Acceptance → Import
import_of (Acceptance.accepted i upper) = i
import_of Acceptance.overrun = opened
import_of Acceptance.failure = opened

abbrev after_start : Import
after_start = import_of (take_in 10 8 start opened)

abbrev after_end : Import
after_end = import_of (take_in 10 8 end after_start)

start-IsSegment : IsSegment 12 content start
unfolding is_end_of_red_part
start-IsSegment = record {
  some_bytes = omega arith;
  int_end = omega arith;
  inside = omega arith;
  last = λ e. absurd (cc e);
  bytes = λ j h. refl;
}

end-IsSegment : IsSegment 12 content end
end-IsSegment = record {
  some_bytes = omega arith;
  int_end = omega arith;
  inside = omega arith;
  last = λ e. refl;
  bytes = λ j h. refl;
}

opened_lem : start_import_session 0 4 8 5 1 0 start.red.seg ≡ some opened
unfolding start_import_session heap_buffer_size_for is_end_of_red_part
opened_lem = refl

runs :
    (take_in 10 8 start opened ≡ Acceptance.accepted after_start 6)
    × (take_in 10 8 end after_start ≡ Acceptance.accepted after_end 12)
    × (0 < after_end.session.red_part_length)
    × (is_whole after_end.session ≡ true)
unfolding is_whole take_in note_ends accept_red_content stored_with write_content write_rest
    write_heap write_file bytes_for_heap bytes_for_file offset_in_file write_bytes
    insert_data_segment is_beyond_red_part search_place is_free overlaps_previous overlaps_next
    seg_upper_bound insert_segment note_end_of_red_part note_end_of_block is_end_of_red_part
runs = (refl, refl, omega arith, refl)

both-Reached : Reached 8 12 10 content 0 4 5 1 after_end
both-Reached =
    Reached.next end after_start after_end 12
      (Reached.first start opened after_start 6 start-IsSegment opened_lem runs.0) end-IsSegment
      runs.1

delivered-red_part_example : delivered after_end.buffers 9 ≡ red_part 12 content 9
delivered-red_part_example =
    delivered-red_part 8 12 10 content 0 4 5 1 after_end both-Reached (omega arith) runs.2 runs.3 9

take_in-accepted_example :
    (i' : Import) × (upper : ℕ) × (take_in 10 8 start after_end ≡ Acceptance.accepted i' upper)
take_in-accepted_example =
    take_in-accepted 8 12 10 content 0 4 5 1 after_end both-Reached start start-IsSegment

end_code : is_end_of_red_part 2 ≡ true
unfolding is_end_of_red_part
end_code = refl

take_in-overrun_example :
    (i : Import) × (i' : Import) × (start_import_session 0 4 560 5 1 2 (empty_end 2 content).red.seg
      ≡ some i)
    × (take_in 10 560 (empty_end 2 content) i ≡ Acceptance.accepted i' 0)
    × (take_in 10 560 end i' ≡ Acceptance.overrun)
take_in-overrun_example =
    take_in-overrun 5 1 560 10 2 0 4 content end end_code (omega arith) (omega arith) (omega arith)
      (omega arith) (omega arith)
