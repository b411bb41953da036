-- ===== src/IterableQueue/Config/Fresh.antt =====
-- A ring that was in use is empty and of the new size after `conf`, and an invalid combination of
-- settings leaves it without memory.
use datahandlinglibs.Base.{
  subst, length-append, sym, ℕ, zero, suc, ◌+◌, ◌-◌, ◌^◌, ◌≤◌, ◌<◌, ◌≡◌, refl, ap, ◌∙◌, true, false,
  Option, none, some, List, [], ◌∷◌, ◌++◌, arith, le→ltb, length, set,
}
use mathlib.Core.Option.{some-injective}
use datahandlinglibs.IterableQueue.{
  occupancy, pop, flush, pop_front, Queue, Storage, Settings, next_record,
}
use datahandlinglibs.IterableQueue.Holds.{Holds}
use datahandlinglibs.IterableQueue.Place.{place}
use datahandlinglibs.IterableQueue.Slots.{appended-Holds, appended, advanced, advanced-Holds}
use datahandlinglibs.IterableQueue.Refine.{write-accepts, flush_refines, read-test, nonempty-test}
use datahandlinglibs.IterableQueue.Config.{
  Platform, LatencyBufferConf, next_slot, destroy, free_memory, allocated, allocate_records,
  allocate_memory, set_memory_fields, fill, prefill_task, force_pagefault, reset_indices,
  check_records, conf,
}

next_slot-next_record :
    (size i : ℕ) → i < size → size < 2 ^ 31 → next_slot size i ≡ next_record size i
next_slot-next_record size i h k = ground arith

module _ {ℓ} {T : Type ℓ} where
  destroy-ends :
      (fuel : ℕ) (q : Queue T) (xs : List T)
      → Holds q xs
      → length xs < fuel
      → (rs : List (Option T)) × (destroy fuel q.size q.read_index q.write_index q.records
          ≡ some rs)
  unfolding destroy
  destroy-ends zero q xs v h = absurd (omega arith)
  destroy-ends (suc fuel) q [] v h = (q.records, rw (read-test q [] v) refl)
  destroy-ends (suc fuel) q (x ∷ xs) v h =
      let (rs, e) = destroy-ends fuel (advanced q) xs (advanced-Holds q x xs v) (omega arith) in
      (
        rs,
        rw (nonempty-test q x xs v) (
            ap (λ i. destroy fuel q.size i q.write_index (set q.records q.read_index none))
              (next_slot-next_record q.size q.read_index v.read_in v.small)
            ∙ e),
      )

  free_memory-ends :
      (q : Queue T) (xs : List T)
      → Holds q xs
      → free_memory q ≡ some (record q { storage = Storage.released; records = [] })
  unfolding free_memory
  free_memory-ends q xs v =
      let (rs, e) = destroy-ends q.size q xs v (omega (arith, v.fits)) in rw (free_memory, e) refl

  -- Where there is room for all of them, each of the writes adds an element.
  fill_adds :
      (blank : T) (n : ℕ) (q : Queue T) (xs : List T)
      → Holds q xs
      → length xs + n < q.size
      → (ys : List T) × Holds (fill blank n q) ys
        × (length ys ≡ length xs + n)
        × ((fill blank n q).read_index ≡ q.read_index)
        × ((fill blank n q).size ≡ q.size)
  unfolding fill
  fill_adds blank zero q xs v h = (xs, v, omega arith, refl, refl)
  fill_adds blank (suc n) q xs v h =
      let longer = length-append xs (blank ∷ []) in
      let (ys, w, l, r, c) =
        fill_adds blank n (appended q blank) (xs ++ (blank ∷ []))
          (appended-Holds q xs blank v (omega arith)) (omega (arith, longer)) in
      subst
        (λ q'.
          (ys : List T) × Holds (fill blank n q') ys
          × (length ys ≡ length xs + suc n)
          × ((fill blank n q').read_index ≡ q.read_index)
          × ((fill blank n q').size ≡ q.size))
        (ap (λ t. t.1) (sym (write-accepts q xs blank v (omega arith))))
        (ys, w, omega (arith, l, longer), r, c)

  pop_front-write_index : (q q' : Queue T) → pop_front q ≡ some q' → q'.write_index ≡ q.write_index
  unfolding pop_front
  pop_front-write_index q q' e = ground (arith, e)

  popped :
      (n : ℕ) (o : Option (Queue T)) (q' : Queue T)
      → elim o [ none ↦ none | some r ↦ pop n r ] ≡ some q'
      → (r : Queue T) × (o ≡ some r) × (pop n r ≡ some q')
  popped n none q' e = absurd (cc e)
  popped n (some r) q' e = (r, refl, e)

  pop-write_index : (n : ℕ) (q q' : Queue T) → pop n q ≡ some q' → q'.write_index ≡ q.write_index
  unfolding pop
  pop-write_index zero q q' e = ap (λ r. r.write_index) (sym (some-injective q q' e))
  pop-write_index (suc n) q q' e =
      let (r, f, g) = popped n (pop_front q) q' e in
      pop-write_index n r q' g ∙ pop_front-write_index q r f

  flush-write_index : (q q' : Queue T) → flush q ≡ some q' → q'.write_index ≡ q.write_index
  unfolding flush
  flush-write_index q q' e = pop-write_index (occupancy q) q q' e

  settings-Holds :
      (q : Queue T) (xs : List T) (s : Settings) → Holds q xs → Holds (record q { settings = s }) xs
  settings-Holds q xs s v = record {
    owns = v.owns;
    two = v.two;
    small = v.small;
    room = v.room;
    read_in = v.read_in;
    fits = v.fits;
    write_at = v.write_at;
    slots = v.slots;
  }

  -- On an empty ring, every slot but one is written once, and nothing is left in the ring.
  pub force_pagefault-Holds :
      (blank : T) (q : Queue T)
      → Holds q []
      → (q' : Queue T) × (force_pagefault blank q ≡ some q')
        × Holds q' []
        × (q'.size ≡ q.size)
        × (q'.settings.prefill_done ≡ true)
        × (q'.write_index ≡ place q.size q.read_index (q.size - 1))
  unfolding force_pagefault prefill_task
  force_pagefault-Holds blank q v =
      let r = record q { settings = record (q.settings) { prefill_ready = true } } in
      let (ys, w, l, same, e) =
        fill_adds blank (q.size - 1) r [] (settings-Holds q [] _ v) (omega (arith, v.two)) in
      let (q', f, u, g) = flush_refines w in
      (
        record q' { settings = record (q'.settings) { prefill_done = true } },
        rw (force_pagefault, prefill_task, f) refl,
        settings-Holds q' [] _ u,
        g ∙ e,
        refl,
        flush-write_index _ q' f
            ∙ w.write_at
            ∙ rw (e, same, l) (ap (place q.size q.read_index) (omega arith)),
      )

  -- What `conf` starts from, with memory for `n` objects.
  abbrev new_ring : LatencyBufferConf → Queue T → Queue T
  new_ring c q = reset_indices (set_memory_fields c (allocated true c.size q))

  conf_steps :
      (p : Platform) (blank : T) (c : LatencyBufferConf) (q : Queue T) (xs : List T) (r : Queue T)
      → Holds q xs
      → 2 ≤ c.size
      → allocate_records p c (record q { storage = Storage.released; records = [] }) ≡ some r
      → conf p blank c q ≡ check_records blank c (reset_indices (set_memory_fields c r))
  unfolding conf allocate_memory
  conf_steps p blank c q xs r v two e =
      rw (conf, free_memory-ends q xs v, le→ltb c.size 2 two, allocate_memory, e) refl

  -- On a ring that holds any list, conf with a size of at least 2, the intrinsic allocator, no
  -- alignment, no NUMA and no preallocation ends without an exception, on memory that was freed.
  pub conf-keeps_freed :
      (p : Platform) (blank : T) (c : LatencyBufferConf) (q : Queue T) (xs : List T)
      → Holds q xs
      → 2 ≤ c.size
      → c.numa_aware ≡ false
      → c.intrinsic_allocator ≡ true
      → c.alignment_size ≡ 0
      → c.preallocation ≡ false
      → (q' : Queue T) × (conf p blank c q ≡ some q') × (q'.storage ≡ Storage.released)
  conf-keeps_freed p blank c q xs v two numa intrinsic align lean =
      let freed = record q { storage = Storage.released; records = [] } in
      (
        reset_indices (set_memory_fields c freed),
        conf_steps p blank c q xs freed v two (none_chosen freed) ∙ simp lean refl,
        refl,
      )
    where
      none_chosen : (r : Queue T) → allocate_records p c r ≡ some r
      none_chosen r = ground (arith, numa, intrinsic, align)
