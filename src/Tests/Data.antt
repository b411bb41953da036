-- ===== src/Tests/Data.antt =====
-- A ring of dummy frames, 10 ticks each: five slots, and the frames of 100, 110 and 120.
use datahandlinglibs.Base.{ℕ, List, [], ◌∷◌, arith}
use datahandlinglibs.Readout.{Readout, Laws, DummyFrame, dummy_readout, dummy_readout-Laws}
use datahandlinglibs.Readout.Order.{Ascending}
use datahandlinglibs.IterableQueue.{Queue, sized, write, capacity}
use datahandlinglibs.IterableQueue.Holds.{Holds, sized-Holds}
use datahandlinglibs.IterableQueue.Refine.{write_refines}
use datahandlinglibs.RequestHandler.{DataRequest}
use datahandlinglibs.RequestHandler.Respond.{Identity, Counters}

abbrev pub rt10 : Readout DummyFrame
rt10 = dummy_readout 10

pub rt10-Laws : Laws rt10
rt10-Laws = dummy_readout-Laws 10

abbrev pub frame_of : ℕ → DummyFrame
frame_of ts = record { timestamp = ts; another_key = 7 }

abbrev pub three_frames : List DummyFrame
three_frames = frame_of 100 ∷ frame_of 110 ∷ frame_of 120 ∷ []

abbrev pub empty_ring : Queue DummyFrame
empty_ring = sized 5

abbrev pub ring : Queue DummyFrame
ring = (write (write (write empty_ring (frame_of 100)).1 (frame_of 110)).1 (frame_of 120)).1

pub empty_ring-Holds : Holds empty_ring []
empty_ring-Holds = sized-Holds 5 (omega arith) (omega arith)

pub ring-Holds : Holds ring three_frames
unfolding sized write capacity
ring-Holds =
    (write_refines (frame_of 120)
      (write_refines (frame_of 110) (write_refines (frame_of 100) empty_ring-Holds).1).1).1

pub three_frames-Ascending : Ascending rt10 three_frames
three_frames-Ascending = (omega arith, (omega arith, tt))

abbrev pub link : Identity
link = record { fragment_type = 1; detector_id = 3; subsystem = 2; source_id = 4 }

abbrev pub no_counts : Counters
no_counts = record {
  num_requests_found = 0;
  num_requests_bad = 0;
  num_requests_old_window = 0;
  num_requests_delayed = 0;
  num_requests_timed_out = 0;
  handled_requests = 0;
}

abbrev pub request_of : ℕ → ℕ → DataRequest
request_of start stop = record {
  trigger_number = 1;
  sequence_number = 0;
  run_number = 9;
  trigger_timestamp = start;
  window_begin = start;
  window_end = stop;
  component = 4;
  data_destination = 5;
}
