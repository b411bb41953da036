-- ===== src/IterableQueue/Run.antt =====
-- Sequences of calls: the ring cannot be told from the bounded FIFO of its elements.
use datahandlinglibs.Base.{
  ℕ, zero, suc, ◌-◌, ◌≤◌, ◌<◌, ◌≡◌, refl, ap, ap₂, ◌∙◌, List, [], ◌∷◌, none, some, arith, length,
  inl, inr, drop,
}
use datahandlinglibs.IterableQueue.{Queue, capacity, deref}
use datahandlinglibs.IterableQueue
use datahandlinglibs.IterableQueue.Holds.{Holds}
use datahandlinglibs.IterableQueue.Fifo.{Call, Reply, fifo_after, fifo_run, fifo_pop}
use datahandlinglibs.IterableQueue.Refine.{
  flush_refines, write_refines, read_refines, pop_refines, occupancy_refines, is_empty_refines,
  is_full_refines, front_refines, back_refines, size-write, size-read,
}

module _ {ℓ} {T : Type ℓ} where
  -- What a call returns, and the queue after it; a failed assertion leaves the queue.
  unfoldable pub after : Queue T → Call T → Reply T × Queue T
  after q (Call.write x) = let (b, q') = IterableQueue.write q x in (Reply.flag b, q')
  after q Call.read = let (b, x, q') = IterableQueue.read q in (Reply.got b x, q')
  after q (Call.pop n) = elim (IterableQueue.pop n q) [
    | none ↦ (Reply.failed, q)
    | some q' ↦ (Reply.done, q')
  ]
  after q Call.flush = elim (IterableQueue.flush q) [
    | none ↦ (Reply.failed, q)
    | some q' ↦ (Reply.done, q')
  ]
  after q Call.is_empty = (Reply.flag (IterableQueue.is_empty q), q)
  after q Call.is_full = (Reply.flag (IterableQueue.is_full q), q)
  after q Call.occupancy = (Reply.count (IterableQueue.occupancy q), q)
  after q Call.front = (Reply.element (deref q (IterableQueue.front q)), q)
  after q Call.back = (Reply.element (deref q (IterableQueue.back q)), q)

  unfoldable pub run : Queue T → List (Call T) → List (Reply T)
  unfolding after
  run q [] = []
  run q (c ∷ cs) = let (r, q') = after q c in r ∷ run q' cs

  fifo_pop-drop : (n : ℕ) (xs : List T) → n ≤ length xs → fifo_pop n xs ≡ some (drop n xs)
  fifo_pop-drop zero xs h = refl
  fifo_pop-drop (suc n) [] h = elim h [ ]
  fifo_pop-drop (suc n) (x ∷ xs) h = fifo_pop-drop n xs (omega arith)

  fifo_pop-none : (n : ℕ) (xs : List T) → length xs < n → fifo_pop n xs ≡ none
  fifo_pop-none zero xs h = elim h [ ]
  fifo_pop-none (suc n) [] h = refl
  fifo_pop-none (suc n) (x ∷ xs) h = fifo_pop-none n xs (omega arith)

  -- One call.
  pub after_refines :
      {q : Queue T} {xs : List T} (c : Call T)
      → Holds q xs
      → let (r, q') = after q c in
        let (r', xs') = fifo_after (capacity q) xs c in (r ≡ r') × Holds q' xs' × (q'.size ≡ q.size)
  unfolding after
  after_refines {q} {xs} (Call.write x) v =
      (ap Reply.flag (write_refines x v).0, (write_refines x v).1, size-write q x)
  after_refines {q} {xs} Call.read v =
      (ap₂ Reply.got (read_refines v).0 (read_refines v).1, (read_refines v).2, size-read q)
  after_refines {q} {xs} (Call.pop n) v = elim (pop_refines n v) [
    | inl (e, h) ↦ rw (e, after, fifo_pop-none n xs h, fifo_after) (refl, v, refl)
    | inr (q', e, h, w, c) ↦ rw (e, after, fifo_pop-drop n xs h, fifo_after) (refl, w, c)
  ]
  after_refines {q} {xs} Call.flush v =
      let (q', e, w, c) = flush_refines v in rw (e, after) (refl, w, c)
  after_refines {q} {xs} Call.is_empty v = (ap Reply.flag (is_empty_refines v), v, refl)
  after_refines {q} {xs} Call.is_full v = (ap Reply.flag (is_full_refines v), v, refl)
  after_refines {q} {xs} Call.occupancy v = (ap Reply.count (occupancy_refines v), v, refl)
  after_refines {q} {xs} Call.front v = (ap Reply.element (front_refines v), v, refl)
  after_refines {q} {xs} Call.back v = (ap Reply.element (back_refines v), v, refl)

  -- Any sequence of calls (write, read, pop, flush, isEmpty, isFull, occupancy, front, back), made
  -- one after the other on a ring that holds a list, gets the replies of the FIFO of that list
  -- bounded by the capacity; a pop of too many is the failed assertion.
  pub run_refines :
      (cs : List (Call T)) {q : Queue T} {xs : List T}
      → Holds q xs
      → run q cs ≡ fifo_run (capacity q) xs cs
  unfolding run fifo_run capacity
  run_refines [] v = refl
  run_refines (c ∷ cs) {q} {xs} v =
      let (same, w, kept) = after_refines c v in
      ap₂ ◌∷◌ same
        (run_refines cs w ∙ ap (λ n. fifo_run (n - 1) (fifo_after (capacity q) xs c).1 cs) kept)
