-- ===== src/RequestHandler/Opmon.antt =====
-- `start` and `generate_opmon_data`: the counters of a run, and their publication. Also
-- `EmptyFragmentRequestHandlerModel::issue_request`, which answers each request with no data.
pub mod Totals
use datahandlinglibs.Base.{
  ℕ, zero, suc, ◌+◌, ◌-◌, ◌*◌, ◌/◌, ◌%◌, ◌^◌, ◌≤◌, ◌<◌, min, max, ◌≡◌, refl, sym, ap, ap₂, subst,
  ◌∙◌, ◌≢◌, ◌↔◌, ◌⊎◌, inl, inr, Bool, true, false, not, ◌&&◌, ◌||◌, Option, none, some, List, [],
  ◌∷◌, ◌++◌, map, append_assoc, append-nil, arith, dec_lt, dec_le, ℕ_discrete, ltb, leb, ◌==◌,
  if◌then◌else◌, ltb→lt, lt→ltb, ltb_ge, le→ltb, leb→le, ==_iff, Bool-cases, Option-cases, ne→==,
  eq→==, ◌>>=◌, le→leb, leb_gt, bind-some, length, get_elem?, set, drop, take, replicate,
  length-append, length-set, length-replicate, length-drop, get_elem?-set_self, get_elem?-set_ne,
  get_elem?-replicate, get_elem?-none, get_elem?-some, get_elem?-append_left,
  get_elem?-append_right, get_elem?-drop, drop-eq-cons, drop-eq-nil, take-all, add32, sub32, add64,
  sub64, mul64,
}
use datahandlinglibs.RequestHandler.{ResultCode, DataRequest}
use datahandlinglibs.RequestHandler.Respond.{
  Identity, FragmentHeader, Fragment, Counters, create_empty_fragment, classify,
}

-- All statistics of the handler, each counter the bits of its atomic.
pub record Stats : Type 0 where
  pub requests : Counters
  pub num_requests_uncategorized : ℕ
  pub num_buffer_cleanups : ℕ
  pub pop_reqs : ℕ
  pub pops_count : ℕ
  pub response_time_acc : ℕ
  pub response_time_min : ℕ
  pub response_time_max : ℕ
  pub payloads_written : ℕ
  pub bytes_written : ℕ
  pub num_periodic_sent : ℕ
  pub num_periodic_send_failed : ℕ

abbrev pub zero_counters : Counters
zero_counters = record {
  num_requests_found = 0;
  num_requests_bad = 0;
  num_requests_old_window = 0;
  num_requests_delayed = 0;
  num_requests_timed_out = 0;
  handled_requests = 0;
}

-- `opmon::RequestHandlerInfo` and `opmon::RecordingInfo`; the average is `none` where it is not set.
pub record Info : Type 0 where
  pub requests : Counters
  pub num_requests_uncategorized : ℕ
  pub num_requests_waiting : ℕ
  pub tot_request_response_time : ℕ
  pub max_request_response_time : ℕ
  pub min_request_response_time : ℕ
  pub avg_request_response_time : Option ℕ
  pub num_buffer_cleanups : ℕ
  pub num_periodic_sent : ℕ
  pub num_periodic_send_failed : ℕ
  pub recording : Bool
  pub packets_recorded : ℕ
  pub bytes_recorded : ℕ

-- The counters that `start` sets to 0; the times' extremes and the periodic ones stay.
abbrev pub start_stats : Stats → Stats
start_stats s = record s {
  requests = zero_counters;
  num_requests_uncategorized = 0;
  num_buffer_cleanups = 0;
  response_time_acc = 0;
  pop_reqs = 0;
  pops_count = 0;
  payloads_written = 0;
  bytes_written = 0;
}

-- Each counter is exchanged for its first value.
unfoldable pub generate_opmon_data : ℕ → Bool → Stats → Info × Stats
generate_opmon_data waiting recording s = (
  record {
    requests = s.requests;
    num_requests_uncategorized = s.num_requests_uncategorized;
    num_requests_waiting = waiting;
    tot_request_response_time = s.response_time_acc;
    max_request_response_time = s.response_time_max;
    min_request_response_time = s.response_time_min;
    avg_request_response_time =
        if ltb 0 s.requests.handled_requests
        then some (s.response_time_acc / s.requests.handled_requests)
        else none;
    num_buffer_cleanups = s.num_buffer_cleanups;
    num_periodic_sent = s.num_periodic_sent;
    num_periodic_send_failed = s.num_periodic_send_failed;
    recording = recording;
    packets_recorded = s.payloads_written;
    bytes_recorded = s.bytes_written;
  },
  record {
    requests = zero_counters;
    num_requests_uncategorized = 0;
    num_buffer_cleanups = 0;
    pop_reqs = 0;
    pops_count = 0;
    response_time_acc = 0;
    response_time_min = 2 ^ 31 - 1;
    response_time_max = 0;
    payloads_written = 0;
    bytes_written = 0;
    num_periodic_sent = 0;
    num_periodic_send_failed = 0;
  },
)

-- The empty-fragment handler: what it sends for a request, at once.
abbrev pub issue_empty : {T : Type 0} → Identity → DataRequest → DataRequest × Fragment T
issue_empty id dr = (dr, create_empty_fragment id dr)

-- An answer of some code for a request, or a publication.
pub data Tick : Type 0 where
  answered : ResultCode → FragmentHeader → Tick
  published : ℕ → Bool → Tick

-- What is published, and the statistics after it all.
unfoldable pub monitor : List Tick → Stats → List Info × Stats
unfolding generate_opmon_data
monitor [] s = ([], s)
monitor (answered code h ∷ ts) s =
    monitor ts (record s { requests = (classify code h s.requests).1 })
monitor (published waiting recording ∷ ts) s =
    let (info, s') = generate_opmon_data waiting recording s in
    let (infos, s'') = monitor ts s' in (info ∷ infos, s'')
