-- ===== src/Tests/Utilities.antt =====
-- Copies, error bits and published counters.
use datahandlinglibs.Base.{ℕ, ◌+◌, false, List, [], ◌∷◌}
use datahandlinglibs.RequestHandler.{ResultCode}
use datahandlinglibs.RequestHandler.Respond.{create_fragment_header}
use datahandlinglibs.RequestHandler.Opmon.{Stats, Tick, answered, published, zero_counters}
use datahandlinglibs.Tests.Data.{link, request_of}
use datahandlinglibs.Utils.RateLimiter.{Limiter}
use datahandlinglibs.Utils.ErrorBits.{Tables, Generator, generator}

abbrev zeros : List ℕ
zeros = 0 ∷ 0 ∷ 0 ∷ 0 ∷ 0 ∷ 0 ∷ []

abbrev tables : Tables
tables = record {
  error_bits = λ i. i + 5;
  error_occurrences = λ i. 3;
  no_error_occurrences = λ i. 2;
}

abbrev in_errors : Generator
in_errors = record generator { error_bits_index = 1; current_occurrence = 3 }

abbrev quiet : Stats
quiet = record {
  requests = zero_counters;
  num_requests_uncategorized = 0;
  num_buffer_cleanups = 0;
  pop_reqs = 0;
  pops_count = 0;
  response_time_acc = 0;
  response_time_min = 0;
  response_time_max = 0;
  payloads_written = 0;
  bytes_written = 0;
  num_periodic_sent = 0;
  num_periodic_send_failed = 0;
}

abbrev ticks : List Tick
ticks =
    answered ResultCode.found (create_fragment_header link (request_of 1 2))
    ∷ published 0 false
    ∷ answered ResultCode.too_old (create_fragment_header link (request_of 1 2))
    ∷ []

-- A rate of 1 MHz; the clock stands before the deadline at first.
abbrev limiter : Limiter
limiter = record { max_overshoot = 10000000; period = 1000; now = 500; deadline = 1500 }
