-- ===== src/Tests/Handling.antt =====
-- Payloads that come, and times that are announced.
use datahandlinglibs.Base.{◌+◌, ◌≡◌, refl, true, some, [], ◌∷◌, ◌++◌}
use datahandlinglibs.Readout.{DummyFrame}
use datahandlinglibs.Tests.Data.{rt10, frame_of, three_frames, ring, ring-Holds}
use datahandlinglibs.IterableQueue.{Queue, write, sized, capacity}
use datahandlinglibs.IterableQueue.Holds.{Holds}
use datahandlinglibs.IterableQueue.Refine.{write_refines}
use datahandlinglibs.LatencyBuffer.Ring.{binary_buffer}
use datahandlinglibs.DataHandling.Consume.{Processing, Consumer, process_item}
use datahandlinglibs.DataHandling.Ring.{process_item-refuses}
use datahandlinglibs.DataHandling.Timesync.{SyncSettings, SyncState, run_timesync, fake_request}
use datahandlinglibs.DataHandling.Timesync.Sequence.{Changing, run_timesync_lem}

-- Payloads are moved by one tick, and those of 100 or before are too late.
abbrev shifting : Processing DummyFrame
shifting = record {
  preprocess = λ f. frame_of (f.timestamp + 1);
  cutoff = some 100;
  processing_delay_ticks = 0;
}

abbrev consumer : Consumer DummyFrame (Queue DummyFrame)
consumer = record {
  buffer = ring;
  num_payloads = 3;
  sum_payloads = 3;
  stats_packet_count = 3;
  num_payloads_overwritten = 0;
  warnings = [];
  postprocessed = [];
}

abbrev full_ring : Queue DummyFrame
full_ring = (write ring (frame_of 130)).1

full_ring-Holds : Holds full_ring (three_frames ++ (frame_of 130 ∷ []))
unfolding capacity sized write
full_ring-Holds = (write_refines (frame_of 130) ring-Holds).1

process_item-refuses_example :
    (let s' =
        process_item rt10
          (binary_buffer rt10)
          write
          shifting
          (frame_of 139)
          (record consumer { buffer = full_ring }) in
      Holds s'.buffer (three_frames ++ (frame_of 130 ∷ []))
      × (s'.postprocessed ≡ some (frame_of 130) ∷ [])
      × (s'.num_payloads_overwritten ≡ 1)
      × (s'.num_payloads ≡ 4))
unfolding sized write
process_item-refuses_example =
    process_item-refuses rt10 shifting (frame_of 139) (record consumer { buffer = full_ring })
      (three_frames ++ (frame_of 130 ∷ [])) full_ring-Holds refl refl

abbrev testing : SyncSettings
testing = record {
  run_number = 9;
  pid_of_current_process = 77;
  fake_trigger = true;
  source_id = 4;
  data_fragments_q = 5;
  sequence_default = 0;
  run_default = 0;
}

abbrev sync_state : SyncState
sync_state = record {
  msg_seqno = 0;
  prev_timestamp = 0;
  once_per_run = true;
  zero_timestamp_count = 0;
  duplicate_timestamp_count = 0;
  total_timestamp_count = 0;
  current_fake_trigger_id = 0;
  num_requests = 0;
  sum_requests = 0;
  sent = [];
  issued = [];
}

-- Nothing for the zero and for the repeated time.
run_timesync_lem_example :
    (let s' = run_timesync testing (0 ∷ 600000 ∷ 600000 ∷ 700000 ∷ []) sync_state in
      (s'.sent
        ≡ record { daq_time = 600000; run_number = 9; sequence_number = 1; source_pid = 77 }
          ∷ record { daq_time = 700000; run_number = 9; sequence_number = 2; source_pid = 77 }
          ∷ [])
      × (s'.issued ≡ fake_request testing 1 600000 ∷ fake_request testing 2 700000 ∷ [])
      × Changing 0 (600000 ∷ 700000 ∷ []))
run_timesync_lem_example = run_timesync_lem testing (0 ∷ 600000 ∷ 600000 ∷ 700000 ∷ []) sync_state
