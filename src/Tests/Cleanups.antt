-- ===== src/Tests/Cleanups.antt =====
-- Cleanups of the ring.
use datahandlinglibs.Base.{◌-◌, ◌/◌, ◌^◌, ◌≡◌, refl, true, none, some, List, [], ◌∷◌, arith}
use datahandlinglibs.Readout.{DummyFrame}
use datahandlinglibs.Tests.Data.{rt10, rt10-Laws, frame_of, three_frames, ring, ring-Holds}
use datahandlinglibs.IterableQueue.{Queue}
use datahandlinglibs.IterableQueue.Holds.{Holds}
use datahandlinglibs.LatencyBuffer.Ring.{binary_buffer, binary_reach, binary_buffer-Laws}
use datahandlinglibs.FrameErrorRegistry.{remove_errors_until}
use datahandlinglibs.RequestHandler.Exclusion.{
  Move, enter, leave, ask, begin_cleanup, open_gate, moves,
}
use datahandlinglibs.RequestHandler.Exclusion.Safe.{moves-exclude, cleanup-ends, drain}
use datahandlinglibs.RequestHandler.Cleanup.{Limits, CleanupState, cleanup}
use datahandlinglibs.RequestHandler.Cleanup.Drops.{cleanup_lem, cleanup_of_all}

abbrev half : Limits
half = record { pop_limit_size = 2; pop_share = λ n. n / 2 }

abbrev all : Limits
all = record { pop_limit_size = 2; pop_share = λ n. n }

abbrev not_recording : CleanupState (Queue DummyFrame)
not_recording = record {
  buffer = ring;
  errors = [];
  next_timestamp_to_record = 2 ^ 64 - 1;
  pop_reqs = 0;
  pops_count = 0;
  occupancy = 0;
  num_buffer_cleanups = 0;
}

cleanup_lem_example :
    (b' : Queue DummyFrame) × (cleanup rt10 (binary_buffer rt10) half not_recording
      ≡ some record not_recording {
        buffer = b';
        pop_reqs = 1;
        pops_count = 1;
        occupancy = 2;
        num_buffer_cleanups = 1;
      })
    × Holds b' (frame_of 110 ∷ frame_of 120 ∷ [])
unfolding remove_errors_until
cleanup_lem_example =
    cleanup_lem rt10 (binary_buffer rt10) Holds (binary_reach rt10)
      (binary_buffer-Laws rt10 rt10-Laws) half not_recording three_frames (frame_of 110) ring-Holds
      (omega arith) (omega arith) refl

cleanup_of_all_example : cleanup rt10 (binary_buffer rt10) all not_recording ≡ none
cleanup_of_all_example =
    cleanup_of_all rt10 (binary_buffer rt10) Holds (binary_reach rt10)
      (binary_buffer-Laws rt10 rt10-Laws) all not_recording three_frames ring-Holds (omega arith)
      refl refl

-- A request comes, a cleanup is asked for, a second request waits, the first one goes.
abbrev calls : List Move
calls = enter ∷ ask true ∷ enter ∷ leave ∷ begin_cleanup ∷ enter ∷ []

moves-exclude_example : (moves calls open_gate).reading ≡ 0
unfolding moves
moves-exclude_example = moves-exclude calls refl

cleanup-ends_example :
    moves
      (drain (moves (enter ∷ enter ∷ ask true ∷ []) open_gate).reading)
      (moves (enter ∷ enter ∷ ask true ∷ []) open_gate)
    ≡ open_gate
unfolding moves
cleanup-ends_example = cleanup-ends (enter ∷ enter ∷ ask true ∷ []) refl
