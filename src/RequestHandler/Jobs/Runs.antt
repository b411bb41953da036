-- ===== src/RequestHandler/Jobs/Runs.antt =====
-- A request takes two jobs at most: one that is run again does not wait again.
use datahandlinglibs.Base.{
  ℕ, ◌+◌, ◌*◌, ◌≤◌, ◌≡◌, refl, ap, inl, inr, Bool, true, false, not, ◌&&◌, some, List, [], ◌∷◌,
  arith, ltb, if◌then◌else◌, Bool-cases, ◌>>=◌, bind-some,
}
use mathlib.Core.Option.{some-injective}
use datahandlinglibs.Readout.{Readout}
use datahandlinglibs.LatencyBuffer.{Buffer}
use datahandlinglibs.RequestHandler.{DataRequest}
use datahandlinglibs.RequestHandler.Respond.{
  Identity, Fragment, RequestResult, Counters, data_request,
}
use datahandlinglibs.RequestHandler.Jobs.{
  Job, RequestElement, Handler, Event, receive, run, check, change, take_job, issue_request, finish,
  step, steps, is_waitable, run_job, check_waiting_requests, newest_ts_of,
}
use datahandlinglibs.RequestHandler.Jobs.Count.{
  total, total-append, take_job-total, check_all-load, load,
}

-- How many jobs may still be run for a job.
abbrev pub runs_left : Job → ℕ
runs_left j = if j.is_retry then 1 else 2

abbrev pub jobs_left : {T B : Type 0} → Handler T B → ℕ
jobs_left = load runs_left (λ e. 1) (λ s. 0)

first_run : (j : Job) (a b : Bool) → (a && b && not j.is_retry) ≡ true → runs_left j ≡ 2
first_run j a b e = ground arith

some_run : (j : Job) → 1 ≤ runs_left j
some_run j = ground arith

abbrev pub requests_in : {B : Type 0} → Event B → ℕ
requests_in (receive dr) = 1
requests_in (run k now) = 0
requests_in (check now) = 0
requests_in (change b missing) = 0

abbrev pub runs_in : {B : Type 0} → Event B → ℕ
runs_in (receive dr) = 0
runs_in (run k now) = 1
runs_in (check now) = 0
runs_in (change b missing) = 0

module _ {T : Type 0} (rt : Readout T) {B I : Type 0} (buf : Buffer T B I) (id : Identity)
    (timeout_ms : ℕ) where
  finish-jobs_left :
      (now : ℕ) (job : Job) (h : Handler T B) (a : RequestResult T × Counters)
      → jobs_left (finish timeout_ms now job h a) + 1 ≤ jobs_left h + runs_left job
  finish-jobs_left now job h (r, c) =
      elim (Bool-cases (is_waitable r.result_code && ltb 0 timeout_ms && not job.is_retry)) [
        | inl waits ↦ rw waits (
            omega (
              arith,
              first_run job (is_waitable r.result_code) (ltb 0 timeout_ms) waits,
              total-append {A = RequestElement} (λ e. 1) h.waiting
                  (record { request = job.request; start_time = now } ∷ []),
            ))
        | inr ends ↦ rw ends (
            omega (
              arith,
              some_run job,
              total-append {A = DataRequest × Fragment T} (λ s. 0) h.sent
                  ((job.request, r.fragment) ∷ []),
            ))
      ]

  step-jobs_left :
      (e : Event B) (h h' : Handler T B)
      → step rt buf id timeout_ms e h ≡ some h'
      → runs_in e + jobs_left h' ≤ jobs_left h + 2 * requests_in e
  unfolding step run_job check_waiting_requests
  step-jobs_left (receive dr) h h' e = omega (
    arith,
    ap jobs_left (some-injective (issue_request dr false h) h' e),
    total-append runs_left h.posted (record { request = dr; is_retry = false } ∷ []),
  )
  step-jobs_left (run k now) h h' e =
      let (taken, e1, e2) =
        bind-some (take_job k h.posted)
          (λ t.
            data_request rt buf id h.buffer h.missing_frames t.0.request h.counters
            >>= (λ a. some (finish timeout_ms now t.0 (record h { posted = t.1 }) a)))
          h' e in
      let (a, e3, e4) =
        bind-some (data_request rt buf id h.buffer h.missing_frames taken.0.request h.counters)
          (λ a. some (finish timeout_ms now taken.0 (record h { posted = taken.1 }) a)) h' e2 in
      omega (
        arith,
        take_job-total runs_left k h.posted taken.0 taken.1 e1,
        ap jobs_left (
            some-injective (finish timeout_ms now taken.0 (record h { posted = taken.1 }) a) h' e4),
        finish-jobs_left now taken.0 (record h { posted = taken.1 }) a,
      )
  step-jobs_left (check now) h h' e = omega (
    arith,
    ap jobs_left (some-injective (check_waiting_requests rt buf id timeout_ms now h) h' e),
    check_all-load runs_left (λ e. 1) (λ s. 0) timeout_ms (newest_ts_of rt buf h.buffer) now
        h.waiting h (λ x. refl),
  )
  step-jobs_left (change b missing) h h' e = omega (
    arith,
    ap jobs_left (some-injective (record h { buffer = b; missing_frames = missing }) h' e),
  )

  -- Through any sequence of events that has a result, the jobs run plus those that may still be run
  -- are at most those that might have been run before plus two for each request received: a request
  -- that was tried again never waits again.
  pub steps-jobs_left :
      (es : List (Event B)) (h h' : Handler T B)
      → steps rt buf id timeout_ms es h ≡ some h'
      → total runs_in es + jobs_left h' ≤ jobs_left h + 2 * total requests_in es
  unfolding steps
  steps-jobs_left [] h h' e = omega (arith, ap jobs_left (some-injective h h' e))
  steps-jobs_left (x ∷ es) h h' e =
      let (h1, e1, e2) =
        bind-some (step rt buf id timeout_ms x h) (λ g. steps rt buf id timeout_ms es g) h' e in
      omega (arith, step-jobs_left x h h1 e1, steps-jobs_left es h1 h' e2)
