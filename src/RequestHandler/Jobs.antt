-- ===== src/RequestHandler/Jobs.antt =====
-- `issue_request` and `check_waiting_requests`: requests are posted to the thread pool, wait for
-- data or for their time, and are answered.
pub mod Count
pub mod Conserve
pub mod Runs
pub mod Served
pub mod Deadline
use datahandlinglibs.Base.{
  ℕ, zero, suc, ◌+◌, ◌-◌, ◌*◌, ◌/◌, ◌%◌, ◌^◌, ◌≤◌, ◌<◌, min, max, ◌≡◌, refl, sym, ap, ap₂, subst,
  ◌∙◌, ◌≢◌, ◌↔◌, ◌⊎◌, inl, inr, Bool, true, false, not, ◌&&◌, ◌||◌, Option, none, some, List, [],
  ◌∷◌, ◌++◌, map, append_assoc, append-nil, arith, dec_lt, dec_le, ℕ_discrete, ltb, leb, ◌==◌,
  if◌then◌else◌, ltb→lt, lt→ltb, ltb_ge, le→ltb, leb→le, ==_iff, Bool-cases, Option-cases, ne→==,
  eq→==, ◌>>=◌, le→leb, leb_gt, length, get_elem?, set, drop, take, replicate, length-append,
  length-set, length-replicate, length-drop, get_elem?-set_self, get_elem?-set_ne,
  get_elem?-replicate, get_elem?-none, get_elem?-some, get_elem?-append_left,
  get_elem?-append_right, get_elem?-drop, drop-eq-cons, drop-eq-nil, take-all, add32, sub32, add64,
  sub64, mul64,
}
use datahandlinglibs.Readout.{Readout}
use datahandlinglibs.LatencyBuffer.{Buffer}
use datahandlinglibs.RequestHandler.{ResultCode, DataRequest}
use datahandlinglibs.RequestHandler.Respond.{
  Identity, Fragment, RequestResult, Counters, data_request,
}

-- A job of the thread pool: the arguments of `issue_request`.
pub record Job : Type 0 where
  pub request : DataRequest
  pub is_retry : Bool

-- `RequestElement`
pub record RequestElement : Type 0 where
  pub request : DataRequest
  pub start_time : ℕ

-- `buffer` and `missing_frames` (`has_error("MISSING_FRAMES")`) belong to other parts too. `sent`
-- are the fragments given to the sender, with their requests.
pub record Handler (T B : Type 0) : Type 0 where
  pub buffer : B
  pub missing_frames : Bool
  pub counters : Counters
  pub posted : List Job
  pub waiting : List RequestElement
  pub sent : List (DataRequest × Fragment T)

abbrev pub behind : Job → Option (Job × List Job) → Option (Job × List Job)
behind j none = none
behind j (some (i, is)) = some (i, j ∷ is)

-- The job of index `k`, and the others.
unfoldable pub take_job : ℕ → List Job → Option (Job × List Job)
take_job k [] = none
take_job zero (j ∷ js) = some (j, js)
take_job (suc k) (j ∷ js) = behind j (take_job k js)

abbrev pub is_waitable : ResultCode → Bool
is_waitable ResultCode.not_yet = true
is_waitable ResultCode.partial = true
is_waitable _ = false

abbrev pub count_handled : Counters → Counters
count_handled c = record c { handled_requests = add32 c.handled_requests 1 }

abbrev pub count_timed_out : Counters → Counters
count_timed_out c = record c {
  num_requests_bad = add32 c.num_requests_bad 1;
  num_requests_timed_out = add32 c.num_requests_timed_out 1;
}

module _ {T B : Type 0} where
  -- Posts the job.
  abbrev pub issue_request : DataRequest → Bool → Handler T B → Handler T B
  issue_request dr is_retry h = record h {
    posted = h.posted ++ (record { request = dr; is_retry = is_retry } ∷ []);
  }

  -- After `data_request`: the request waits, or its fragment is sent. `now` is the clock.
  abbrev pub finish : ℕ → ℕ → Job → Handler T B → RequestResult T × Counters → Handler T B
  finish timeout_ms now job h (r, c) =
      if is_waitable r.result_code && ltb 0 timeout_ms && not job.is_retry
      then record h {
        counters = count_handled c;
        waiting = h.waiting ++ (record { request = job.request; start_time = now } ∷ []);
      }
      else record h {
        counters = count_handled c;
        sent = h.sent ++ ((job.request, r.fragment) ∷ []);
      }

  -- The loop over the waiting requests; `now` is the clock when it stands at a request.
  unfoldable pub check_all :
      ℕ → ℕ → (RequestElement → ℕ) → List RequestElement → Handler T B → Handler T B
  check_all timeout_ms newest_ts now [] h = record h { waiting = [] }
  check_all timeout_ms newest_ts now (w ∷ ws) h =
      if ltb w.request.window_end newest_ts
      then check_all timeout_ms newest_ts now ws (issue_request w.request true h)
      else if leb timeout_ms (now w - w.start_time)
      then check_all timeout_ms newest_ts now ws
          (record (issue_request w.request true h) { counters = count_timed_out h.counters })
      else (let rest = check_all timeout_ms newest_ts now ws h in
          record rest { waiting = w ∷ rest.waiting })

-- What moves the handler: a request comes, the pool runs the job of index `k` and reads the clock
-- at its end, the waiting thread makes a pass, and other threads change the buffer.
pub data Event (B : Type 0) : Type 0 where
  receive : DataRequest → Event B
  run : ℕ → ℕ → Event B
  check : (RequestElement → ℕ) → Event B
  change : B → Bool → Event B

-- The timestamp of the newest payload, and 0 for an empty buffer.
abbrev pub newest_ts_of : {T B I : Type 0} → Readout T → Buffer T B I → B → ℕ
newest_ts_of rt buf b = elim (buf.back b) [ none ↦ 0 | some x ↦ rt.timestamp x ]

module _ {T : Type 0} (rt : Readout T) {B I : Type 0} (buf : Buffer T B I) (id : Identity)
    (timeout_ms : ℕ) where
  unfoldable pub run_job : ℕ → ℕ → Handler T B → Option (Handler T B)
  unfolding take_job
  run_job k now h = do
    (job, others) ← take_job k h.posted
    answer ← data_request rt buf id h.buffer h.missing_frames job.request h.counters
    some (finish timeout_ms now job (record h { posted = others }) answer)

  unfoldable pub check_waiting_requests : (RequestElement → ℕ) → Handler T B → Handler T B
  unfolding check_all
  check_waiting_requests now h = check_all timeout_ms (newest_ts_of rt buf h.buffer) now h.waiting h

  unfoldable pub step : Event B → Handler T B → Option (Handler T B)
  unfolding run_job check_waiting_requests
  step (receive dr) h = some (issue_request dr false h)
  step (run k now) h = run_job k now h
  step (check now) h = some (check_waiting_requests now h)
  step (change b missing) h = some record h { buffer = b; missing_frames = missing }

  unfoldable pub steps : List (Event B) → Handler T B → Option (Handler T B)
  unfolding step
  steps [] h = some h
  steps (e ∷ es) h = do h' ← step e h; steps es h'
