-- ===== src/Tests/Queues.antt =====
-- The ring, its iterator and the two searches on three frames.
use datahandlinglibs.Base.{◌<◌, ◌≡◌, refl, true, false, some, List, [], ◌∷◌, ◌++◌, arith, length}
use datahandlinglibs.Readout.{DummyFrame}
use datahandlinglibs.Tests.Data.{
  rt10, rt10-Laws, frame_of, three_frames, ring, ring-Holds, three_frames-Ascending,
}
use datahandlinglibs.IterableQueue.{capacity, sized, write, occupancy, pop}
use datahandlinglibs.IterableQueue.Fifo.{Call, Reply, fifo_run}
use datahandlinglibs.IterableQueue.Run.{run, run_refines}
use datahandlinglibs.IterableQueue.{Storage}
use datahandlinglibs.IterableQueue.Config.{Platform, LatencyBufferConf}
use datahandlinglibs.IterableQueue.Holds.{Holds}
use datahandlinglibs.IterableQueue.Spsc.{
  Act, acts, fresh, test_room, place_object, publish, test_object, take_object, release,
}
use datahandlinglibs.IterableQueue.Spsc.Order.{acts_in_order}
use datahandlinglibs.BinarySearchQueue
use datahandlinglibs.BinarySearchQueue.LowerBound.{lower_bound_finds, found}
use datahandlinglibs.FixedRateQueue
use datahandlinglibs.IterableQueue.Place.{place}
use datahandlinglibs.Readout.Order.{rank}
use datahandlinglibs.FixedRateQueue.LowerBound.{Steady, lower_bound_lem, lower_bound-eq-binary}

abbrev calls : List (Call DummyFrame)
calls =
    Call.write (frame_of 130)
    ∷ Call.write (frame_of 140)
    ∷ Call.read
    ∷ Call.pop 2
    ∷ Call.occupancy
    ∷ Call.back
    ∷ []

run_refines_example : run ring calls ≡ fifo_run (capacity ring) three_frames calls
run_refines_example = run_refines calls ring-Holds

-- The replies: the fifth frame is refused.
run_on_ring :
    run ring calls
    ≡ Reply.flag true
      ∷ Reply.flag false
      ∷ Reply.got true (some (frame_of 100))
      ∷ Reply.done
      ∷ Reply.count 1
      ∷ Reply.element (some (frame_of 130))
      ∷ []
unfolding run sized write datahandlinglibs.IterableQueue.read pop occupancy
    datahandlinglibs.IterableQueue.back datahandlinglibs.IterableQueue.pop_front
run_on_ring = refl

lower_bound_finds_example :
    BinarySearchQueue.lower_bound rt10 ring (frame_of 105)
    ≡ some (found rt10 ring three_frames (frame_of 105))
lower_bound_finds_example =
    lower_bound_finds rt10 rt10-Laws ring three_frames (frame_of 105) ring-Holds
      three_frames-Ascending

ring-Steady : Steady rt10 ring (frame_of 100) (frame_of 110 ∷ frame_of 120 ∷ [])
ring-Steady = record {
  holds = ring-Holds;
  moves = omega arith;
  paced = (refl, (refl, (refl, tt)));
  no_wrap = omega arith;
}

lower_bound_lem_example :
    FixedRateQueue.lower_bound rt10 ring (frame_of 105) false
    ≡ some (place 5 0 (rank rt10 105 three_frames))
unfolding sized write
lower_bound_lem_example =
    lower_bound_lem rt10 ring (frame_of 100) (frame_of 110 ∷ frame_of 120 ∷ []) ring-Steady
      (frame_of 105)

lower_bound-eq-binary_example :
    FixedRateQueue.lower_bound rt10 ring (frame_of 105) false
    ≡ BinarySearchQueue.lower_bound rt10 ring (frame_of 105)
lower_bound-eq-binary_example =
    lower_bound-eq-binary rt10 rt10-Laws ring (frame_of 100) (frame_of 110 ∷ frame_of 120 ∷ [])
      (frame_of 105) ring-Steady (omega arith) (λ e. absurd (omega (arith, e)))

-- A read between the construction of an object and its publication, and one after it.
abbrev schedule : List (Act DummyFrame)
schedule =
    test_room (frame_of 1)
    ∷ place_object
    ∷ test_object
    ∷ publish
    ∷ test_object
    ∷ test_room (frame_of 2)
    ∷ take_object
    ∷ place_object
    ∷ release
    ∷ []

acts_in_order_example :
    ((acts schedule (fresh 4)).broken ≡ false)
    × ((held : List DummyFrame) × ((acts schedule (fresh 4)).accepted
          ≡ (acts schedule (fresh 4)).returned ++ held)
        × (length held < (acts schedule (fresh 4)).queue.size))
acts_in_order_example = acts_in_order 4 schedule (omega arith) (omega arith)

-- Every allocator has memory.
abbrev platform : Platform
platform = record {
  libnuma = true;
  numa_alloc_onnode = λ n. true;
  mm_malloc = λ n a. true;
  aligned_alloc = λ a n. true;
  malloc = λ n. true;
}

abbrev aligned : LatencyBufferConf
aligned = record {
  size = 8;
  numa_aware = false;
  numa_node = 0;
  intrinsic_allocator = false;
  alignment_size = 4096;
  preallocation = true;
}

abbrev unaligned : LatencyBufferConf
unaligned = record aligned { intrinsic_allocator = true; alignment_size = 0; preallocation = false }
