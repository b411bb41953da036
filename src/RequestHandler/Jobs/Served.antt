-- ===== src/RequestHandler/Jobs/Served.antt =====
-- The requests are all answered: the posted jobs can be run whatever the buffer holds, and what
-- waits is answered after its time.
use datahandlinglibs.Base.{
  ℕ, zero, suc, ◌-◌, ◌≤◌, ◌≡◌, refl, sym, ap, subst, ◌∙◌, inl, inr, Bool, true, false, not, ◌&&◌,
  ◌||◌, some, List, [], ◌∷◌, ◌++◌, map, arith, length, replicate, ltb, leb, le→leb, Bool-cases,
  bind-some,
}
use mathlib.Core.Option.{some-injective}
use datahandlinglibs.RequestHandler.{DataRequest}
use datahandlinglibs.RequestHandler.Pieces.Frames.{keep}
use datahandlinglibs.RequestHandler.Jobs.Count.{total, total-append, retry}
use datahandlinglibs.RequestHandler.Jobs.Conserve.{arrival, requests, steps-requests}
use datahandlinglibs.RequestHandler.Jobs.Deadline.{is_due, check_all-waiting, check_all-posted}
use datahandlinglibs.Readout.{Readout}
use datahandlinglibs.Readout.Order.{Ascending}
use datahandlinglibs.LatencyBuffer.{Buffer, BufferLaws}
use datahandlinglibs.RequestHandler.Respond.{Identity, RequestResult, Counters}
use datahandlinglibs.RequestHandler.Respond.Answers.{data_request-total}
use datahandlinglibs.RequestHandler.Jobs.{
  count_timed_out, issue_request, check, newest_ts_of, Event, RequestElement,
  check_waiting_requests, check_all, run, step, steps, Job, Handler, take_job, finish, run_job,
}

abbrev all_retries : List Job → Bool
all_retries [] = true
all_retries (j ∷ js) = j.is_retry && all_retries js

or-true : (a : Bool) → (a || true) ≡ true
or-true true = refl
or-true false = refl

both : (a b : Bool) → (a && b) ≡ true → (a ≡ true) × (b ≡ true)
both true b e = (refl, e)
both false b e = absurd (cc e)

module _ {T : Type 0} (rt : Readout T) {B I : Type 0} (buf : Buffer T B I) (id : Identity)
    (timeout_ms : ℕ) (Represents : B → List T → Type 0) (reach : T → Bool → List T → List T)
    (laws : BufferLaws rt buf Represents reach) where
  -- What a handler is like that has run jobs from `h`.
  record Ran (h h' : Handler T B) (retries : Bool) : Type 0 where
    buffer : h'.buffer ≡ h.buffer
    posted : h'.posted ≡ []
    waiting : retries ≡ true → h'.waiting ≡ h.waiting

  finish-fields :
      (now : ℕ) (job : Job) (h : Handler T B) (a : RequestResult T × Counters)
      → (let h' = finish timeout_ms now job h a in
          (h'.buffer ≡ h.buffer)
          × (h'.posted ≡ h.posted)
          × (job.is_retry ≡ true → h'.waiting ≡ h.waiting))
  finish-fields now job h (r, c) = ground arith

  run_first :
      (now : ℕ) (j : Job) (js : List Job) (h : Handler T B) (xs : List T)
      → h.posted ≡ j ∷ js
      → Represents h.buffer xs
      → Ascending rt xs
      → (a : RequestResult T × Counters) × (run_job rt buf id timeout_ms 0 now h
          ≡ some (finish timeout_ms now j (record h { posted = js }) a))
  unfolding run_job take_job
  run_first now j js h xs e v asc =
      let (a, f) =
        data_request-total rt buf id Represents reach laws h.buffer xs h.missing_frames j.request
          h.counters v asc in
      (a, rw (run_job, e, f) refl)

  -- The pool runs what is posted, oldest first.
  run_posted :
      (now : ℕ) (js : List Job) (h : Handler T B) (xs : List T)
      → h.posted ≡ js
      → Represents h.buffer xs
      → Ascending rt xs
      → (h' : Handler T B) × (steps rt buf id timeout_ms (replicate (length js) (run 0 now)) h
          ≡ some h')
        × Ran h h' (all_retries js)
  unfolding steps step
  run_posted now [] h xs e v asc =
      (h, refl, record { buffer = refl; posted = e; waiting = λ _. refl })
  run_posted now (j ∷ js) h xs e v asc =
      let (a, f) = run_first now j js h xs e v asc in
      let h1 = finish timeout_ms now j (record h { posted = js }) a in
      let (buffer, posted, waiting) = finish-fields now j (record h { posted = js }) a in
      let (h', g, ran) =
        run_posted now js h1 xs posted (subst (λ b. Represents b xs) (sym buffer) v) asc in
      (
        h',
        rw f g,
        record {
          buffer = ran.buffer ∙ buffer;
          posted = ran.posted;
          waiting = λ all.
              let (one, rest) = both j.is_retry (all_retries js) all in
              ran.waiting rest ∙ waiting one;
        },
      )

  steps-append :
      (es fs : List (Event B)) (h h' : Handler T B)
      → steps rt buf id timeout_ms es h ≡ some h'
      → steps rt buf id timeout_ms (es ++ fs) h ≡ steps rt buf id timeout_ms fs h'
  unfolding steps
  steps-append [] fs h h' e = ap (steps rt buf id timeout_ms fs) (some-injective h h' e)
  steps-append (x ∷ es) fs h h' e =
      let (h1, f, g) =
        bind-some (step rt buf id timeout_ms x h) (λ k. steps rt buf id timeout_ms es k) h' e in
      rw f (steps-append es fs h1 h' g)

  -- What a pass leaves when the time of every waiting request is over.
  check_all-buffer :
      (newest_ts : ℕ) (late : RequestElement → ℕ) (ws : List RequestElement) (h : Handler T B)
      → (check_all timeout_ms newest_ts late ws h).buffer ≡ h.buffer
  unfolding check_all
  check_all-buffer newest_ts late [] h = refl
  check_all-buffer newest_ts late (w ∷ ws) h =
      elim (Bool-cases (ltb w.request.window_end newest_ts)) [
        | inl arrived ↦
            rw arrived (check_all-buffer newest_ts late ws (issue_request w.request true h))
        | inr early ↦ rw early (elim (Bool-cases (leb timeout_ms (late w - w.start_time))) [
          | inl over ↦ rw over (
              check_all-buffer newest_ts late ws
                (record (issue_request w.request true h) { counters = count_timed_out h.counters }))
          | inr waits ↦ rw waits (check_all-buffer newest_ts late ws h)
        ])
      ]

  none_left :
      (newest_ts : ℕ) (late : RequestElement → ℕ)
      → ((w : RequestElement) → timeout_ms ≤ late w - w.start_time)
      → (ws : List RequestElement) → keep (λ w. not (is_due timeout_ms newest_ts late w)) ws ≡ []
  none_left newest_ts late over [] = refl
  none_left newest_ts late over (w ∷ ws) =
      rw
        (
          le→leb timeout_ms (late w - w.start_time) (over w),
          or-true (ltb w.request.window_end newest_ts),
        )
        (none_left newest_ts late over ws)

  retries : (ws : List RequestElement) → all_retries (map (λ w. retry w.request) ws) ≡ true
  retries [] = refl
  retries (w ∷ ws) = retries ws

  check-late :
      (late : RequestElement → ℕ) (h : Handler T B)
      → ((w : RequestElement) → timeout_ms ≤ late w - w.start_time)
      → h.posted ≡ []
      → (let h' = check_waiting_requests rt buf id timeout_ms late h in
          (h'.buffer ≡ h.buffer) × (h'.waiting ≡ []) × (all_retries h'.posted ≡ true))
  unfolding check_waiting_requests
  check-late late h over empty =
      let newest_ts = newest_ts_of rt buf h.buffer in
      (
        check_all-buffer newest_ts late h.waiting h,
        check_all-waiting timeout_ms newest_ts late h.waiting h
            ∙ none_left newest_ts late over h.waiting,
        ap all_retries (
              check_all-posted timeout_ms newest_ts late h.waiting h
              ∙ ap
                  (◌++ map (λ w. retry w.request)
                    (keep (is_due timeout_ms newest_ts late) h.waiting))
                  empty)
            ∙ retries (keep (is_due timeout_ms newest_ts late) h.waiting),
      )

  after_check :
      (late : RequestElement → ℕ) (es : List (Event B)) (h : Handler T B)
      → steps rt buf id timeout_ms (check late ∷ es) h
        ≡ steps rt buf id timeout_ms es (check_waiting_requests rt buf id timeout_ms late h)
  unfolding steps step
  after_check late es h = refl

  total-nil :
      (w : DataRequest → ℕ) (h : Handler T B)
      → h.posted ≡ []
      → h.waiting ≡ []
      → requests w h ≡ total (λ s. w s.0) h.sent
  total-nil w h e f = rw (e, f) (omega arith)

  quiet :
      (w : DataRequest → ℕ) (now n : ℕ) → total (arrival {B = B} w) (replicate n (run 0 now)) ≡ 0
  quiet w now zero = refl
  quiet w now (suc n) = omega (arith, quiet w now n)

  -- Over any buffer that fills the interface and holds an ascending list, where the waiting thread
  -- reads clocks at which the time of every waiting request is over: the runs of the posted jobs, a
  -- pass of the waiting thread and some number of further runs have a result, after which nothing
  -- is posted and nothing waits, and the requests sent are those that were posted, waiting or sent
  -- before, with the same weight for every weight on requests.
  pub steps-served :
      (now : ℕ) (late : RequestElement → ℕ) (h : Handler T B) (xs : List T)
      → Represents h.buffer xs
      → Ascending rt xs
      → ((w : RequestElement) → timeout_ms ≤ late w - w.start_time)
      → (n : ℕ) × (h' : Handler T B) × (steps rt buf id timeout_ms
            (replicate (length h.posted) (run 0 now) ++ (check late ∷ replicate n (run 0 now)))
            h
          ≡ some h')
        × (h'.posted ≡ [])
        × (h'.waiting ≡ [])
        × ((w : DataRequest → ℕ) → total (λ s. w s.0) h'.sent ≡ requests w h)
  steps-served now late h xs v asc over =
      let (h1, e1, ran1) = run_posted now h.posted h xs refl v asc in
      let h2 = check_waiting_requests rt buf id timeout_ms late h1 in
      let (buffer, waiting, retried) = check-late late h1 over ran1.posted in
      let (h3, e3, ran3) =
        run_posted now h2.posted h2 xs refl
          (subst (λ b. Represents b xs) (sym (buffer ∙ ran1.buffer)) v) asc in
      let n = length h2.posted in
      let ended = ran3.waiting retried ∙ waiting in
      let firsts = replicate (length h.posted) (run 0 now) in
      let rest = check late ∷ replicate n (run 0 now) in
      let all : steps rt buf id timeout_ms (firsts ++ rest) h ≡ some h3 =
        steps-append firsts rest h h1 e1 ∙ after_check late (replicate n (run 0 now)) h1 ∙ e3 in
      (
        n,
        h3,
        all,
        ran3.posted,
        ended,
        λ w.
            sym (total-nil w h3 ran3.posted ended)
            ∙ steps-requests rt buf id timeout_ms w (firsts ++ rest) h h3 all
            ∙ omega (
              arith,
              total-append (arrival w) firsts rest,
              quiet w now (length h.posted),
              quiet w now n,
            ),
      )
