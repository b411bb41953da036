-- ===== src/RequestHandler/Jobs/Conserve.antt =====
-- No request is lost and none is answered twice: each one is posted, waiting or sent.
use datahandlinglibs.Base.{
  ℕ, ◌+◌, ◌≡◌, refl, ap, inl, inr, false, not, ◌&&◌, some, List, [], ◌∷◌, arith, ltb, Bool-cases,
  ◌>>=◌, bind-some,
}
use mathlib.Core.Option.{some-injective}
use datahandlinglibs.Readout.{Readout}
use datahandlinglibs.LatencyBuffer.{Buffer}
use datahandlinglibs.RequestHandler.{DataRequest}
use datahandlinglibs.RequestHandler.Respond.{Identity, RequestResult, Counters, data_request}
use datahandlinglibs.RequestHandler.Jobs.{
  Job, Handler, Event, receive, run, check, change, take_job, issue_request, finish, step, steps,
  is_waitable, run_job, check_waiting_requests, newest_ts_of,
}
use datahandlinglibs.RequestHandler.Jobs.Count.{
  total, total-append, take_job-total, check_all-load, load,
}

-- The weight of the request that comes with an event.
abbrev pub arrival : {B : Type 0} → (DataRequest → ℕ) → Event B → ℕ
arrival w (receive dr) = w dr
arrival w (run k now) = 0
arrival w (check now) = 0
arrival w (change b missing) = 0

module _ {T B : Type 0} (w : DataRequest → ℕ) where
  -- The weight of the requests of a handler, wherever they are.
  abbrev pub requests : Handler T B → ℕ
  requests = load (λ j. w j.request) (λ e. w e.request) (λ s. w s.0)

  finish-requests :
      (timeout_ms now : ℕ) (job : Job) (h : Handler T B) (a : RequestResult T × Counters)
      → requests (finish timeout_ms now job h a) ≡ requests h + w job.request
  finish-requests timeout_ms now job h (r, c) =
      elim (Bool-cases (is_waitable r.result_code && ltb 0 timeout_ms && not job.is_retry)) [
        | inl waits ↦ rw waits (
            omega (
              arith,
              total-append (λ e. w e.request) h.waiting
                  (record { request = job.request; start_time = now } ∷ []),
            ))
        | inr ends ↦
            rw ends
              (omega (arith, total-append (λ s. w s.0) h.sent ((job.request, r.fragment) ∷ [])))
      ]

module _ {T : Type 0} (rt : Readout T) {B I : Type 0} (buf : Buffer T B I) (id : Identity)
    (timeout_ms : ℕ) (w : DataRequest → ℕ) where
  step-requests :
      (e : Event B) (h h' : Handler T B)
      → step rt buf id timeout_ms e h ≡ some h'
      → requests w h' ≡ requests w h + arrival w e
  unfolding step run_job check_waiting_requests
  step-requests (receive dr) h h' e = omega (
    arith,
    ap (requests w) (some-injective (issue_request dr false h) h' e),
    total-append (λ j. w j.request) h.posted (record { request = dr; is_retry = false } ∷ []),
  )
  step-requests (run k now) h h' e =
      let (taken, e1, e2) =
        bind-some (take_job k h.posted)
          (λ t.
            data_request rt buf id h.buffer h.missing_frames t.0.request h.counters
            >>= (λ a. some (finish timeout_ms now t.0 (record h { posted = t.1 }) a)))
          h' e in
      let (a, e3, e4) =
        bind-some (data_request rt buf id h.buffer h.missing_frames taken.0.request h.counters)
          (λ a. some (finish timeout_ms now taken.0 (record h { posted = taken.1 }) a)) h' e2 in
      omega (
        arith,
        take_job-total (λ j. w j.request) k h.posted taken.0 taken.1 e1,
        ap (requests w) (
            some-injective (finish timeout_ms now taken.0 (record h { posted = taken.1 }) a) h' e4),
        finish-requests w timeout_ms now taken.0 (record h { posted = taken.1 }) a,
      )
  step-requests (check now) h h' e = omega (
    arith,
    ap (requests w) (some-injective (check_waiting_requests rt buf id timeout_ms now h) h' e),
    check_all-load (λ j. w j.request) (λ e. w e.request) (λ s. w s.0) timeout_ms
        (newest_ts_of rt buf h.buffer) now h.waiting h (λ x. refl),
  )
  step-requests (change b missing) h h' e = omega (
    arith,
    ap (requests w) (some-injective (record h { buffer = b; missing_frames = missing }) h' e),
  )

  -- Through any sequence of events that has a result, in any order and whatever becomes of the
  -- buffer, the weight of the requests posted, waiting and sent is the weight before plus that of
  -- the requests received, for every weight on requests: none is lost, duplicated or changed.
  pub steps-requests :
      (es : List (Event B)) (h h' : Handler T B)
      → steps rt buf id timeout_ms es h ≡ some h'
      → requests w h' ≡ requests w h + total (arrival w) es
  unfolding steps
  steps-requests [] h h' e = omega (arith, ap (requests w) (some-injective h h' e))
  steps-requests (x ∷ es) h h' e =
      let (h1, e1, e2) =
        bind-some (step rt buf id timeout_ms x h) (λ g. steps rt buf id timeout_ms es g) h' e in
      omega (arith, step-requests x h h1 e1, steps-requests es h1 h' e2)
