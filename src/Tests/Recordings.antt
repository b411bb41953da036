-- ===== src/Tests/Recordings.antt =====
-- Recordings of the ring, its deferred post-processing, and the commands of a module.
use datahandlinglibs.Base.{
  ◌/◌, ℕ, ◌+◌, ◌<◌, ◌≡◌, refl, true, false, none, some, List, [], ◌∷◌, arith, length, replicate,
  ◌%◌, ◌^◌,
}
use datahandlinglibs.Readout.{DummyFrame, dummy_less}
use datahandlinglibs.IterableQueue.Holds.{Holds}
use datahandlinglibs.LatencyBuffer.Ring.{binary_buffer, binary_reach, binary_buffer-Laws}
use datahandlinglibs.FileIo.{Disk, new_writer}
use datahandlinglibs.RequestHandler.Record.{
  Recording, record_thread, record_command, not_configured,
}
use datahandlinglibs.RequestHandler.Setup
use datahandlinglibs.RequestHandler.Setup.{HandlerConf, Setup}
use datahandlinglibs.RequestHandler.Setup.Once
use datahandlinglibs.RequestHandler.Setup.Once.{configure, begin_run, commands, commands-scrap}
use datahandlinglibs.RequestHandler.Record.Chain.{Apart, record_thread-Apart}
use datahandlinglibs.RequestHandler.ZeroCopy
use datahandlinglibs.RequestHandler.ZeroCopy.{Shape, Wrote, chunk_turns}
use datahandlinglibs.RequestHandler.ZeroCopy.Chunks.{
  Follows, total, chunk_turns_lem, chunk_turns-minus_one,
}
use datahandlinglibs.DataHandling.Deferred.{Deferral, begin_cycle, deferred_round}
use datahandlinglibs.DataHandling.Deferred.Round.{deferred_round_lem, deferred_round-popped}
use datahandlinglibs.DataHandling.Lifecycle.{Command, conf, scrap, start, stop, record_data, fresh}
use datahandlinglibs.DataHandling.Lifecycle.Order.{
  AllOrdered, states, after, all_acts, all_acts-Ordered,
}
use datahandlinglibs.Tests.Data.{
  rt10, rt10-Laws, frame_of, three_frames, ring, ring-Holds, three_frames-Ascending,
}
use datahandlinglibs.Tests.Files.{plain, two_bytes, empty_disk}

abbrev recording : Recording DummyFrame
recording = record {
  writer = record new_writer { filename = "rec"; is_open = true; bad = false };
  next_timestamp = 0;
  payloads_written = 0;
  bytes_written = 0;
  recording = false;
  written = [];
  warnings = 0;
  disk = empty_disk;
}

-- Two rounds over the same ring, in the first of which a clean-up is requested.
record_thread-Apart_example :
    (r' : Recording DummyFrame) × (disk' : Disk) × (xs : List DummyFrame) × (record_thread rt10
        (binary_buffer rt10)
        plain
        two_bytes
        4
        ((true, ring) ∷ (false, ring) ∷ [])
        recording
        empty_disk
      ≡ some (r', disk'))
    × (r'.written ≡ xs)
    × Apart rt10 (binary_buffer rt10) plain two_bytes 0 xs
    × (r'.payloads_written % 2 ^ 32 ≡ (recording.payloads_written + length xs) % 2 ^ 32)
record_thread-Apart_example =
    record_thread-Apart rt10 (binary_buffer rt10) plain two_bytes Holds (binary_reach rt10)
      (binary_buffer-Laws rt10 rt10-Laws) ((true, ring) ∷ (false, ring) ∷ []) 4 recording empty_disk
      (
        (three_frames, ring-Holds, three_frames-Ascending, omega arith),
        ((three_frames, ring-Holds, three_frames-Ascending, omega arith), tt),
      )

abbrev from_first : Deferral DummyFrame
from_first = record { first_cycle = false; processed_element = frame_of 100 }

abbrev from_popped : Deferral DummyFrame
from_popped = record { first_cycle = false; processed_element = frame_of 90 }

begins : (d : Deferral DummyFrame) → d.first_cycle ≡ false → begin_cycle rt10 ring d ≡ some d
unfolding begin_cycle
begins d e = rw e refl

not_before : dummy_less (frame_of 100) (frame_of 100) ≡ false
not_before = refl

before : dummy_less (frame_of 90) (frame_of 100) ≡ true
before = refl

deferred_round_lem_example :
    deferred_round rt10 4 5 2 ring from_first
    ≡ some (
      frame_of 100 ∷ frame_of 110 ∷ [],
      record { first_cycle = false; processed_element = frame_of 115 },
    )
deferred_round_lem_example =
    deferred_round_lem rt10 rt10-Laws ring (frame_of 100) (frame_of 120)
      (frame_of 110 ∷ frame_of 120 ∷ []) from_first from_first 4 5 2 ring-Holds
      three_frames-Ascending refl (omega arith) (omega arith) (omega arith) (omega arith)
      (begins from_first refl) (omega arith) not_before

deferred_round-popped_example : deferred_round rt10 4 5 2 ring from_popped ≡ none
deferred_round-popped_example =
    deferred_round-popped rt10 rt10-Laws ring (frame_of 100) (frame_of 120)
      (frame_of 110 ∷ frame_of 120 ∷ []) from_popped from_popped 4 5 2 ring-Holds
      three_frames-Ascending refl (omega arith) (omega arith) (omega arith)
      (begins from_popped refl) (omega arith) (omega arith) before

abbrev module_commands : List Command
module_commands = conf ∷ start 1 ∷ record_data ∷ stop ∷ start 2 ∷ scrap ∷ []

all_acts-Ordered_example : AllOrdered false (states (all_acts false true module_commands) fresh)
all_acts-Ordered_example = all_acts-Ordered false true module_commands

-- In callback mode the flush of `stop` stands beside a registered `consume_payload`.
stop_in_callback_mode :
    (after (all_acts true true (conf ∷ start 1 ∷ stop ∷ [])) fresh).flush_race ≡ true
unfolding datahandlinglibs.DataHandling.Lifecycle.acts datahandlinglibs.DataHandling.Lifecycle.act
stop_in_callback_mode = refl

abbrev shape : Shape
shape = record { buffer_size = 12; payload_size = 3; chunk_size = 4; timestamp_at = λ n. n }

abbrev at_ten : datahandlinglibs.RequestHandler.ZeroCopy.Recording
at_ten = record {
  write_pointer = 10;
  next_timestamp_to_record = 9;
  bytes_written = 0;
  failed_writes = 0;
  written = [];
}

chunk_turns_lem_example :
    (let r' = chunk_turns shape 6 (Wrote.bytes 2 ∷ Wrote.bytes 0 ∷ []) at_ten in
      (ws : List (ℕ × ℕ)) × (r'.written ≡ ws)
      × Follows 12 10 ws r'.write_pointer
      × (r'.write_pointer < 12))
chunk_turns_lem_example =
    chunk_turns_lem shape 6 (Wrote.bytes 2 ∷ Wrote.bytes 0 ∷ []) at_ten (omega arith) (omega arith)

chunk_turns-minus_one_example :
    (let r' = chunk_turns shape 6 (replicate 2 Wrote.minus_one) at_ten in
      (ws : List (ℕ × ℕ)) × (r'.written ≡ ws)
      × (r'.bytes_written % 2 ^ 64 ≡ (at_ten.bytes_written + total ws) % 2 ^ 64)
      × (r'.failed_writes ≡ 0))
chunk_turns-minus_one_example = chunk_turns-minus_one shape 6 2 at_ten (omega arith) (omega arith)

abbrev with_recorder : HandlerConf
with_recorder = record {
  source_id = 4;
  detector_id = 3;
  in_range = true;
  limit_of = λ n. n / 2;
  kept_of = λ n. n / 2;
  latency_buffer_size = 5;
  handler_threads = 1;
  request_timeout = 1000;
  outputs = [];
  data_recorder = some (record {
    output_file = "rec";
    stream_buffer_size = 4;
    compression_algorithm = "None";
    use_o_direct = false;
  });
  warn_on_timeout = true;
  warn_on_empty_buffer = true;
  periodic_data_transmission_ms = 0;
}

abbrev ready : Setup
ready = record {
  source_id = 4;
  detid = 3;
  buffer_capacity = 5;
  num_request_handling_threads = 1;
  request_timeout_ms = 1000;
  fragment_send_timeout_ms = 0;
  frag_out_conn_ids = [];
  recording_configured = true;
  output_file = "rec";
  stream_buffer_size = 4;
  writer = recording.writer;
  warn_on_timeout = true;
  warn_about_empty_buffer = true;
  periodic_data_transmission_ms = 0;
  pop_limit_size = 2;
  max_requested_elements = 1;
  errors = 0;
  run_marker = false;
  pool = none;
  cleanup_thread = false;
  periodic_transmission_thread = false;
  waiting_queue_thread = false;
}

abbrev again : List datahandlinglibs.RequestHandler.Setup.Once.Command
again = configure with_recorder ∷ begin_run ∷ []

abbrev after_scrap : Recording DummyFrame
after_scrap = record recording {
  writer =
      (commands plain again
        (datahandlinglibs.RequestHandler.Setup.scrap plain ready empty_disk)).0.writer;
}

commands-scrap_example : record_command after_scrap ≡ not_configured
commands-scrap_example = commands-scrap plain again ready empty_disk after_scrap refl refl refl
