-- ===== src/RawDataProcessor/Drain.antt =====
-- detail/TaskRawDataProcessorModel.hxx: what a thread does after `stop`.
use datahandlinglibs.Base.{
  get_elem?-in_range, ℕ, zero, suc, ◌≤◌, ◌≡◌, refl, sym, ap, subst, ◌∙◌, false, some, List, [], ◌∷◌,
  ◌++◌, append_assoc, append-nil, arith, ltb, lt→ltb, length, get_elem?, set, drop,
  get_elem?-set_self,
}
use datahandlinglibs.RawDataProcessor.{PcQueue, PcQueueLaws, Processor, thread_turn, drain, stop}
use datahandlinglibs.RawDataProcessor.Refine.{calls_of, calls_of-call}

module _ {T Q : Type 0} (pc : PcQueue T Q) (holds : Q → List T) (room : Q → ℕ)
    (laws : PcQueueLaws pc holds room) where
  -- Thread `i` of a processor that is stopping.
  record Stopping (p : Processor T Q) (i : ℕ) (done waiting : List T) : Type 0 where
    queue : Q
    here : get_elem? p.items_to_postprocess_queues i ≡ some queue
    items : holds queue ≡ waiting
    handled_law : calls_of i p.calls ≡ done
    stopped : p.run_marker ≡ false

  size : (q : Q) (xs : List T) → holds q ≡ xs → ltb 0 (pc.size_guess q) ≡ ltb 0 (length xs)
  size q xs e = ap (ltb 0) (laws.size_guess_law q ∙ ap length e)

  exits :
      (p : Processor T Q) (i : ℕ) (done : List T) → Stopping p i done [] → thread_turn pc p i ≡ p
  unfolding thread_turn
  exits p i done s = rw (s.here, s.stopped, size s.queue [] s.items, thread_turn) refl

  takes :
      (p : Processor T Q) (i : ℕ) (done : List T) (x : T) (xs : List T)
      (s : Stopping p i done (x ∷ xs))
      → thread_turn pc p i ≡ record p {
        items_to_postprocess_queues = set p.items_to_postprocess_queues i (pc.read s.queue).0;
        calls = p.calls ++ ((i, x) ∷ []);
      }
  unfolding thread_turn
  takes p i done x xs s =
      rw
        (
          s.here,
          s.stopped,
          size s.queue (x ∷ xs) s.items,
          lt→ltb 0 (length (x ∷ xs)) (omega arith),
          laws.read_answer s.queue ∙ ap (λ h. get_elem? h 0) s.items,
          thread_turn,
        )
        refl

  goes_on :
      (p : Processor T Q) (i : ℕ) (done : List T) (x : T) (xs : List T)
      → Stopping p i done (x ∷ xs)
      → Stopping (thread_turn pc p i) i (done ++ (x ∷ [])) xs
  goes_on p i done x xs s =
      subst (λ r. Stopping r i (done ++ (x ∷ [])) xs) (sym (takes p i done x xs s))
        (record {
          queue = (pc.read s.queue).0;
          here =
              get_elem?-set_self p.items_to_postprocess_queues i (pc.read s.queue).0
                (get_elem?-in_range p.items_to_postprocess_queues i s.queue s.here);
          items = laws.holds-read s.queue ∙ ap (drop 1) s.items;
          handled_law = calls_of-call i (x ∷ xs) p.calls ∙ ap (λ d. d ++ (x ∷ [])) s.handled_law;
          stopped = s.stopped;
        })

  drain_lem :
      (waiting : List T) (fuel : ℕ) (p : Processor T Q) (i : ℕ) (done : List T)
      → length waiting ≤ fuel
      → Stopping p i done waiting
      → Stopping (drain pc fuel p i) i (done ++ waiting) []
  unfolding drain
  drain_lem [] zero p i done h s = subst (λ d. Stopping p i d []) (sym (append-nil done)) s
  drain_lem (x ∷ xs) zero p i done h s = absurd (omega arith)
  drain_lem [] (suc fuel) p i done h s =
      rw (exits p i done s) (drain_lem [] fuel p i done (omega arith) s)
  drain_lem (x ∷ xs) (suc fuel) p i done h s =
      subst (λ d. Stopping (drain pc fuel (thread_turn pc p i) i) i d [])
        (append_assoc done (x ∷ []) xs)
        (drain_lem xs fuel (thread_turn pc p i) i (done ++ (x ∷ [])) (omega arith)
          (goes_on p i done x xs s))

  -- Over queues that keep their laws, after stop a thread with a queue handles exactly what waits
  -- in its queue, in order, within as many turns as items wait, and further turns change nothing.
  pub stop-drain :
      (p : Processor T Q) (i fuel : ℕ) (q : Q)
      → get_elem? p.items_to_postprocess_queues i ≡ some q
      → length (holds q) ≤ fuel
      → let after = drain pc fuel (stop p) i in
        (calls_of i after.calls ≡ calls_of i p.calls ++ holds q) × (thread_turn pc after i ≡ after)
  unfolding stop
  stop-drain p i fuel q e h =
      let d =
        drain_lem (holds q) fuel (stop p) i (calls_of i p.calls) h
          (record { queue = q; here = e; items = refl; handled_law = refl; stopped = refl }) in
      (d.handled_law, exits (drain pc fuel (stop p) i) i _ d)
