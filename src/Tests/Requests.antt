-- ===== src/Tests/Requests.antt =====
-- The handler on the ring: answers, waiting and retries.
use datahandlinglibs.Base.{
  ℕ, ◌+◌, ◌*◌, ◌≤◌, ◌≡◌, refl, true, false, some, List, [], ◌∷◌, arith, replicate,
}
use datahandlinglibs.Readout.{DummyFrame}
use datahandlinglibs.Tests.Data.{
  rt10, rt10-Laws, three_frames, ring, empty_ring, ring-Holds, three_frames-Ascending, link,
  no_counts, request_of,
}
use datahandlinglibs.IterableQueue.{Queue, sized, write}
use datahandlinglibs.IterableQueue.Holds.{Holds}
use datahandlinglibs.LatencyBuffer.Ring.{binary_buffer, binary_reach, binary_buffer-Laws}
use datahandlinglibs.RequestHandler.{ResultCode, Piece, DataRequest}
use datahandlinglibs.RequestHandler.Respond.{
  RequestResult, Counters, create_fragment_header, count_bad, set_not_found, data_request,
}
use datahandlinglibs.RequestHandler.Respond.Answers.{data_request-total}
use datahandlinglibs.RequestHandler.Respond.Codes.{tally, bits_of, data_request-flags}
use datahandlinglibs.RequestHandler.Jobs.{
  RequestElement, Handler, Event, receive, run, check, check_all, steps,
}
use datahandlinglibs.RequestHandler.Jobs.Count.{total, retry}
use datahandlinglibs.RequestHandler.Jobs.Conserve.{requests, arrival, steps-requests}
use datahandlinglibs.RequestHandler.Jobs.Runs.{jobs_left, runs_in, requests_in, steps-jobs_left}
use datahandlinglibs.RequestHandler.Jobs.Served.{steps-served}
use datahandlinglibs.RequestHandler.Jobs.Deadline.{check_all_lem}

abbrev empty_answer : RequestResult DummyFrame × Counters
empty_answer = (
  record {
    result_code = ResultCode.not_found;
    data_request = request_of 115 120;
    fragment = record {
      header = set_not_found (create_fragment_header link (request_of 115 120));
      pieces = [];
    };
  },
  count_bad no_counts,
)

on_empty_ring :
    data_request rt10 (binary_buffer rt10) link empty_ring false (request_of 115 120) no_counts
    ≡ some empty_answer
unfolding data_request sized datahandlinglibs.IterableQueue.occupancy
on_empty_ring = refl

data_request-flags_example :
    (empty_answer.0.data_request ≡ request_of 115 120)
    × (empty_answer.0.fragment.header ≡ record {
      trigger_number = 1;
      trigger_timestamp = 115;
      window_begin = 115;
      window_end = 120;
      run_number = 9;
      fragment_type = 1;
      sequence_number = 0;
      detector_id = 3;
      subsystem = 2;
      source_id = 4;
      error_bits = bits_of ResultCode.not_found;
    })
    × (tally empty_answer.1 ≡ 1)
data_request-flags_example =
    data_request-flags rt10 (binary_buffer rt10) link empty_ring false (request_of 115 120)
      no_counts empty_answer.1 empty_answer.0 on_empty_ring

data_request-total_example :
    (r : RequestResult DummyFrame × Counters) × (data_request rt10
        (binary_buffer rt10)
        link
        ring
        true
        (request_of 105 140)
        no_counts
      ≡ some r)
data_request-total_example =
    data_request-total rt10 (binary_buffer rt10) link Holds (binary_reach rt10)
      (binary_buffer-Laws rt10 rt10-Laws) ring three_frames true (request_of 105 140) no_counts
      ring-Holds three_frames-Ascending

abbrev idle : Handler DummyFrame (Queue DummyFrame)
idle = record {
  buffer = ring;
  missing_frames = false;
  counters = no_counts;
  posted = [];
  waiting = [];
  sent = [];
}

-- A request for data that are to come waits, passes its time, and is answered.
abbrev events : List (Event (Queue DummyFrame))
events =
    receive (request_of 200 210)
    ∷ run 0 1000
    ∷ check (λ e. 1010)
    ∷ check (λ e. 1100)
    ∷ run 0 1200
    ∷ []

-- The handler after them.
abbrev served : Handler DummyFrame (Queue DummyFrame)
served = record idle {
  counters = record no_counts {
    num_requests_bad = 1;
    num_requests_delayed = 2;
    num_requests_timed_out = 1;
    handled_requests = 2;
  };
  sent =
      (
        request_of 200 210,
        record {
          header = set_not_found (create_fragment_header link (request_of 200 210));
          pieces = [];
        },
      )
      ∷ [];
}

served_lem : steps rt10 (binary_buffer rt10) link 100 events idle ≡ some served
unfolding steps sized write data_request datahandlinglibs.IterableQueue.occupancy
    datahandlinglibs.RequestHandler.Pieces.get_fragment_pieces datahandlinglibs.IterableQueue.front
    datahandlinglibs.IterableQueue.back
served_lem = refl

steps-requests_example :
    requests (λ dr. 1) served ≡ requests (λ dr. 1) idle + total (arrival (λ dr. 1)) events
steps-requests_example =
    steps-requests rt10 (binary_buffer rt10) link 100 (λ dr. 1) events idle served served_lem

steps-jobs_left_example :
    total runs_in events + jobs_left served ≤ jobs_left idle + 2 * total requests_in events
steps-jobs_left_example =
    steps-jobs_left rt10 (binary_buffer rt10) link 100 events idle served served_lem

abbrev two_jobs : Handler DummyFrame (Queue DummyFrame)
two_jobs = record idle {
  posted =
      record { request = request_of 200 210; is_retry = true }
      ∷ record { request = request_of 115 120; is_retry = false }
      ∷ [];
}

steps-served_example :
    (n : ℕ) × (h' : Handler DummyFrame (Queue DummyFrame)) × (steps rt10
        (binary_buffer rt10)
        link
        100
        (run 0 1000 ∷ run 0 1000 ∷ check (λ w. w.start_time + 100) ∷ replicate n (run 0 1000))
        two_jobs
      ≡ some h')
    × (h'.posted ≡ [])
    × (h'.waiting ≡ [])
    × ((w : DataRequest → ℕ) → total (λ s. w s.0) h'.sent ≡ requests w two_jobs)
steps-served_example =
    steps-served rt10 (binary_buffer rt10) link 100 Holds (binary_reach rt10)
      (binary_buffer-Laws rt10 rt10-Laws) 1000 (λ w. w.start_time + 100) two_jobs three_frames
      ring-Holds three_frames-Ascending (λ w. omega arith)

abbrev waiting_since : ℕ → ℕ → RequestElement
waiting_since window_end t = record { request = request_of 100 window_end; start_time = t }

abbrev three_waiting : List RequestElement
three_waiting = waiting_since 110 990 ∷ waiting_since 300 995 ∷ waiting_since 400 10 ∷ []

check_all_lem_example :
    ((check_all 100 120 (λ e. 1000) three_waiting idle).waiting ≡ waiting_since 300 995 ∷ [])
    × ((check_all 100 120 (λ e. 1000) three_waiting idle).posted
        ≡ retry (request_of 100 110) ∷ retry (request_of 100 400) ∷ [])
    × ((check_all 100 120 (λ e. 1000) three_waiting idle).sent ≡ [])
check_all_lem_example = check_all_lem 100 120 (λ e. 1000) three_waiting idle
