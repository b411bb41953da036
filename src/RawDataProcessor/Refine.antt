-- ===== src/RawDataProcessor/Refine.antt =====
-- detail/TaskRawDataProcessorModel.hxx: each post-processing thread sees a bounded queue of its own,
-- whatever the others do.
use datahandlinglibs.Base.{
  get_elem?-in_range, ℕ, zero, suc, ◌-◌, ◌<◌, ◌≡◌, refl, sym, ap, ap₂, subst, ◌∙◌, ◌≢◌, inl, inr,
  true, Option, none, some, List, [], ◌∷◌, ◌++◌, append-nil, arith, ℕ_discrete, ltb, ◌==◌,
  if◌then◌else◌, Option-cases, ne→==, eq→==, length, get_elem?, set, drop, take, get_elem?-set_self,
  get_elem?-set_ne, get_elem?-replicate,
}
use datahandlinglibs.RawDataProcessor.{
  start, conf, PcQueue, PcQueueLaws, Processor, write_all, postprocess_item, thread_turn,
}

-- What the consumer and the threads do, in the order of their steps.
pub data Event (T : Type 0) : Type 0 where
  post : T → Event T
  turn : ℕ → Event T

module _ {T : Type 0} where
  -- The calls of function `i`.
  abbrev pub calls_of : ℕ → List (ℕ × T) → List T
  calls_of i [] = []
  calls_of i ((j, x) ∷ log) = if j == i then x ∷ calls_of i log else calls_of i log

  calls_of-append :
      (i : ℕ) (a b : List (ℕ × T)) → calls_of i (a ++ b) ≡ calls_of i a ++ calls_of i b
  calls_of-append i [] b = refl
  calls_of-append i ((j, x) ∷ a) b = ground (arith, calls_of-append i a b)

  calls_of-call_ne :
      (i j : ℕ) (o : Option T) (log : List (ℕ × T))
      → j ≢ i
      → calls_of i (elim o [ none ↦ log | some x ↦ log ++ ((j, x) ∷ []) ]) ≡ calls_of i log
  calls_of-call_ne i j none log ne = refl
  calls_of-call_ne i j (some x) log ne =
      rw (calls_of-append i log ((j, x) ∷ []), ne→== j i ne) (append-nil _)

  pub calls_of-call :
      (i : ℕ) (xs : List T) (log : List (ℕ × T))
      → calls_of i (elim (get_elem? xs 0) [ none ↦ log | some x ↦ log ++ ((i, x) ∷ []) ])
        ≡ calls_of i log ++ take 1 xs
  calls_of-call i [] log = sym (append-nil _)
  calls_of-call i (x ∷ xs) log = rw (calls_of-append i log ((i, x) ∷ []), eq→== i i refl) refl

-- One thread on its own: what it has handled, and what waits, at most `room` items.
pub record Lane (T : Type 0) : Type 0 where
  pub handled : List T
  pub waiting : List T

module _ {T : Type 0} where
  -- An item that finds no room is lost for this thread.
  abbrev pub lane_step : ℕ → ℕ → Lane T → Event T → Lane T
  lane_step room i lane (post x) = record lane {
    waiting = if ltb (length lane.waiting) room then lane.waiting ++ (x ∷ []) else lane.waiting;
  }
  lane_step room i lane (turn j) =
      if j == i
      then record { handled = lane.handled ++ take 1 lane.waiting; waiting = drop 1 lane.waiting }
      else lane

  abbrev pub lane_run : ℕ → ℕ → Lane T → List (Event T) → Lane T
  lane_run room i lane [] = lane
  lane_run room i lane (e ∷ es) = lane_run room i (lane_step room i lane e) es

module _ {T Q : Type 0} (pc : PcQueue T Q) where
  unfoldable pub step : Processor T Q → Event T → Processor T Q
  step p (post x) = postprocess_item pc p x
  step p (turn j) = thread_turn pc p j

  unfoldable pub run : Processor T Q → List (Event T) → Processor T Q
  run p [] = p
  run p (e ∷ es) = run (step p e) es

  module _ (holds : Q → List T) (room : Q → ℕ) where
    -- The queue of thread `i`, and the calls of its function.
    pub record Shows (p : Processor T Q) (i size : ℕ) (lane : Lane T) : Type 0 where
      pub queue : Q
      pub here : get_elem? p.items_to_postprocess_queues i ≡ some queue
      pub items : holds queue ≡ lane.waiting
      pub size_law : room queue ≡ size
      pub handled_law : calls_of i p.calls ≡ lane.handled
      pub running : p.run_marker ≡ true

    get_elem?-write_all :
        (x : T) (qs : List Q) (i : ℕ) (q : Q)
        → get_elem? qs i ≡ some q
        → get_elem? (write_all pc x qs) i ≡ some (pc.write q x).0
    unfolding write_all
    get_elem?-write_all x [] i q e = absurd (cc e)
    get_elem?-write_all x (p ∷ qs) zero q e = ground arith
    get_elem?-write_all x (p ∷ qs) (suc i) q e = get_elem?-write_all x qs i q e

    turn_some :
        (p : Processor T Q) (j : ℕ) (q : Q)
        → get_elem? p.items_to_postprocess_queues j ≡ some q
        → p.run_marker ≡ true
        → thread_turn pc p j ≡ record p {
          items_to_postprocess_queues = set p.items_to_postprocess_queues j (pc.read q).0;
          calls = elim (pc.read q).1 [ none ↦ p.calls | some x ↦ p.calls ++ ((j, x) ∷ []) ];
        }
    unfolding thread_turn
    turn_some p j q e m = rw (e, m, thread_turn) refl

    turn_none :
        (p : Processor T Q) (j : ℕ)
        → get_elem? p.items_to_postprocess_queues j ≡ none
        → thread_turn pc p j ≡ p
    unfolding thread_turn
    turn_none p j e = rw (e, thread_turn) refl

    module _ (laws : PcQueueLaws pc holds room) where
      post-Shows :
          (p : Processor T Q) (i size : ℕ) (lane : Lane T) (x : T)
          → Shows p i size lane
          → Shows (postprocess_item pc p x) i size (lane_step size i lane (post x))
      unfolding postprocess_item
      post-Shows p i size lane x s = record {
        queue = (pc.write s.queue x).0;
        here = get_elem?-write_all x p.items_to_postprocess_queues i s.queue s.here;
        items =
            laws.holds-write s.queue x
            ∙ ap₂ (λ h n. if ltb (length h) n then h ++ (x ∷ []) else h) s.items s.size_law;
        size_law = laws.room-write s.queue x ∙ s.size_law;
        handled_law = s.handled_law;
        running = s.running;
      }

      -- Another thread's turn leaves this one's queue and calls.
      turn_other-Shows :
          (p : Processor T Q) (i j size : ℕ) (lane : Lane T)
          → j ≢ i
          → Shows p i size lane
          → Shows (thread_turn pc p j) i size lane
      turn_other-Shows p i j size lane ne s =
          elim (Option-cases (get_elem? p.items_to_postprocess_queues j)) [
            | inl e ↦ subst (λ r. Shows r i size lane) (sym (turn_none p j e)) s
            | inr (q, e) ↦
                subst (λ r. Shows r i size lane) (sym (turn_some p j q e s.running))
                  (record {
                    queue = s.queue;
                    here =
                        get_elem?-set_ne p.items_to_postprocess_queues j i (pc.read q).0 ne
                        ∙ s.here;
                    items = s.items;
                    size_law = s.size_law;
                    handled_law = calls_of-call_ne i j (pc.read q).1 p.calls ne ∙ s.handled_law;
                    running = s.running;
                  })
          ]

      -- Its own turn handles the oldest item that waits.
      turn_own-Shows :
          (p : Processor T Q) (i size : ℕ) (lane : Lane T)
          → Shows p i size lane
          → Shows (thread_turn pc p i) i size (record {
            handled = lane.handled ++ take 1 lane.waiting;
            waiting = drop 1 lane.waiting;
          })
      turn_own-Shows p i size lane s =
          subst
            (λ r. Shows r i size (record {
              handled = lane.handled ++ take 1 lane.waiting;
              waiting = drop 1 lane.waiting;
            }))
            (sym (turn_some p i s.queue s.here s.running))
            (record {
              queue = (pc.read s.queue).0;
              here =
                  get_elem?-set_self p.items_to_postprocess_queues i (pc.read s.queue).0
                    (get_elem?-in_range p.items_to_postprocess_queues i s.queue s.here);
              items = laws.holds-read s.queue ∙ ap (drop 1) s.items;
              size_law = laws.room-read s.queue ∙ s.size_law;
              handled_law =
                  ap
                    (λ o.
                      calls_of i (elim o [ none ↦ p.calls | some x ↦ p.calls ++ ((i, x) ∷ []) ]))
                    (laws.read_answer s.queue)
                  ∙ (calls_of-call i (holds s.queue) p.calls
                      ∙ ap₂ (λ a b. a ++ take 1 b) s.handled_law s.items);
              running = s.running;
            })

      step-Shows :
          (p : Processor T Q) (i size : ℕ) (lane : Lane T) (e : Event T)
          → Shows p i size lane
          → Shows (step p e) i size (lane_step size i lane e)
      unfolding step
      step-Shows p i size lane (post x) s = post-Shows p i size lane x s
      step-Shows p i size lane (turn j) s = elim (ℕ_discrete j i) [
        | yes e ↦ rw (e, eq→== i i refl) (turn_own-Shows p i size lane s)
        | no ne ↦ rw (ne→== j i ne) (turn_other-Shows p i j size lane ne s)
      ]

      run_lem :
          (es : List (Event T)) (p : Processor T Q) (i size : ℕ) (lane : Lane T)
          → Shows p i size lane
          → Shows (run p es) i size (lane_run size i lane es)
      unfolding run
      run_lem [] p i size lane s = s
      run_lem (e ∷ es) p i size lane s =
          run_lem es (step p e) i size (lane_step size i lane e) (step-Shows p i size lane e s)

      conf_start :
          (p : Processor T Q) (sizes i : ℕ)
          → p.items_to_postprocess_queues ≡ []
          → calls_of i p.calls ≡ []
          → i < p.post_process_functions
          → Shows (start (conf pc sizes p)) i (sizes - 1) (record { handled = []; waiting = [] })
      unfolding conf start
      conf_start p sizes i none_yet quiet h = record {
        queue = pc.make sizes;
        here = rw none_yet (get_elem?-replicate p.post_process_functions i (pc.make sizes) h);
        items = laws.holds-make sizes;
        size_law = laws.room-make sizes;
        handled_law = quiet;
        running = refl;
      }

      -- Over queues that keep their laws, a processor without queues, configured and started, shows
      -- for each of its functions, which has no calls yet, through any sequence of items handed in
      -- and turns of the threads, the queue and the calls of that thread alone with a queue of one
      -- less than the configured size: an item that finds no room is lost for this thread, and the
      -- other threads change nothing of it.
      pub processor_refines :
          (p : Processor T Q) (sizes i : ℕ) (es : List (Event T))
          → p.items_to_postprocess_queues ≡ []
          → calls_of i p.calls ≡ []
          → i < p.post_process_functions
          → Shows
              (run (start (conf pc sizes p)) es)
              i
              (sizes - 1)
              (lane_run (sizes - 1) i (record { handled = []; waiting = [] }) es)
      processor_refines p sizes i es none_yet quiet h =
          run_lem es (start (conf pc sizes p)) i (sizes - 1) (record { handled = []; waiting = [] })
            (conf_start p sizes i none_yet quiet h)
