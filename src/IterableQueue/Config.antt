-- ===== src/IterableQueue/Config.antt =====
-- `free_memory`, `allocate_memory`, `prefill_task`, `conf` and `scrap`. What an allocator gives is
-- a parameter; the objects are destroyed, as for a type that is not trivially destructible.
pub mod Fresh
use datahandlinglibs.Base.{
  ℕ, zero, suc, ◌+◌, ◌-◌, ◌*◌, ◌/◌, ◌%◌, ◌^◌, ◌≤◌, ◌<◌, min, max, ◌≡◌, refl, sym, ap, ap₂, subst,
  ◌∙◌, ◌≢◌, ◌↔◌, ◌⊎◌, inl, inr, Bool, true, false, not, ◌&&◌, ◌||◌, Option, none, some, List, [],
  ◌∷◌, ◌++◌, map, append_assoc, append-nil, arith, dec_lt, dec_le, ℕ_discrete, ltb, leb, ◌==◌,
  if◌then◌else◌, ltb→lt, lt→ltb, ltb_ge, le→ltb, leb→le, ==_iff, Bool-cases, Option-cases, ne→==,
  eq→==, ◌>>=◌, le→leb, leb_gt, bind-some, length, get_elem?, set, drop, take, replicate,
  length-append, length-set, length-replicate, length-drop, get_elem?-set_self, get_elem?-set_ne,
  get_elem?-replicate, get_elem?-none, get_elem?-some, get_elem?-append_left,
  get_elem?-append_right, get_elem?-drop, drop-eq-cons, drop-eq-nil, take-all, add32, sub32, add64,
  sub64, mul64,
}
use datahandlinglibs.IterableQueue.{Queue, Storage, Settings, write, flush}

-- Whether the build has libnuma, and whether each allocator gives memory for so many objects.
pub record Platform : Type 0 where
  pub libnuma : Bool
  pub numa_alloc_onnode : ℕ → Bool
  pub mm_malloc : ℕ → ℕ → Bool
  pub aligned_alloc : ℕ → ℕ → Bool
  pub malloc : ℕ → Bool

-- `appmodel::LatencyBuffer`
pub record LatencyBufferConf : Type 0 where
  pub size : ℕ
  pub numa_aware : Bool
  pub numa_node : ℕ
  pub intrinsic_allocator : Bool
  pub alignment_size : ℕ
  pub preallocation : Bool

-- `if (++readIndex == size_) readIndex = 0;`, on `std::size_t`.
abbrev pub next_slot : ℕ → ℕ → ℕ
next_slot size i = if (i + 1) == size then 0 else i + 1

module _ {ℓ} {T : Type ℓ} where
  -- The loop that destroys what is left; `none` out of fuel.
  unfoldable pub destroy : ℕ → ℕ → ℕ → ℕ → List (Option T) → Option (List (Option T))
  destroy zero size i stop rs = none
  destroy (suc fuel) size i stop rs =
      let rest = destroy fuel size (next_slot size i) stop (set rs i none) in
      if i == stop then some rs else rest

  -- The memory is gone; the pointer stays.
  unfoldable pub free_memory : Queue T → Option (Queue T)
  unfolding destroy
  free_memory q = elim (destroy q.size q.size q.read_index q.write_index q.records) [
    | none ↦ none
    | some rs ↦ some record q { storage = Storage.released; records = [] }
  ]

  -- `records_` after an allocation of `n` objects.
  abbrev pub allocated : Bool → ℕ → Queue T → Queue T
  allocated given n q =
      if given
      then record q { storage = Storage.owned; records = replicate n none }
      else record q { storage = Storage.missing; records = [] }

  -- The branches of the allocation. `none` is the exception.
  abbrev pub allocate_records : Platform → LatencyBufferConf → Queue T → Option (Queue T)
  allocate_records p c q =
      if c.numa_aware && ltb c.numa_node 8
      then (if p.libnuma then some (allocated (p.numa_alloc_onnode c.size) c.size q) else none)
      else if c.intrinsic_allocator && ltb 0 c.alignment_size
      then some (allocated (p.mm_malloc c.size c.alignment_size) c.size q)
      else if not c.intrinsic_allocator && ltb 0 c.alignment_size
      then some (allocated (p.aligned_alloc c.alignment_size c.size) c.size q)
      else if not c.numa_aware && not c.intrinsic_allocator && c.alignment_size == 0
      then some (allocated (p.malloc c.size) c.size q)
      else some q

  abbrev pub set_memory_fields : LatencyBufferConf → Queue T → Queue T
  set_memory_fields c q = record q {
    size = c.size % 2 ^ 32;
    settings = record (q.settings) {
      numa_aware = c.numa_aware;
      numa_node = c.numa_node;
      intrinsic_allocator = c.intrinsic_allocator;
      alignment_size = c.alignment_size;
    };
  }

  unfoldable pub allocate_memory : Platform → LatencyBufferConf → Queue T → Option (Queue T)
  allocate_memory p c q =
      if ltb c.size 2
      then none
      else allocate_records p c q >>= (λ q'. some (set_memory_fields c q'))

  -- The loop of `prefill_task`, whose writes are `write_`.
  unfoldable pub fill : T → ℕ → Queue T → Queue T
  fill blank zero q = q
  fill blank (suc n) q = fill blank n (write q blank).1

  -- What the prefilling thread does between the two conditions.
  unfoldable pub prefill_task : T → Queue T → Option (Queue T)
  unfolding fill
  prefill_task blank q =
      flush (fill blank (q.size - 1) q)
      >>= (λ q'. some (record q' { settings = record (q'.settings) { prefill_done = true } }))

  unfoldable pub force_pagefault : T → Queue T → Option (Queue T)
  unfolding prefill_task
  force_pagefault blank q =
      prefill_task blank (record q { settings = record (q.settings) { prefill_ready = true } })

  abbrev pub reset_indices : Queue T → Queue T
  reset_indices q = record q { read_index = 0; write_index = 0 }

  -- After the indices are reset.
  abbrev pub check_records : T → LatencyBufferConf → Queue T → Option (Queue T)
  check_records blank c q = elim q.storage [
    | Storage.missing ↦ none
    | _ ↦ if c.preallocation then force_pagefault blank q else some q
  ]

  unfoldable pub conf : Platform → T → LatencyBufferConf → Queue T → Option (Queue T)
  unfolding free_memory allocate_memory force_pagefault
  conf p blank c q =
      if ltb c.size 2
      then none
      else free_memory q
        >>= (λ freed. allocate_memory p c freed)
        >>= (λ q'. check_records blank c (reset_indices q'))

  -- `records_` may be null after `scrap`.
  unfoldable pub scrap : Platform → Queue T → Option (Queue T)
  unfolding free_memory
  scrap p q = free_memory q >>= (λ freed. some (
      allocated (p.malloc 2) 2 (record freed {
        settings = record {
          numa_aware = false;
          numa_node = 0;
          intrinsic_allocator = false;
          alignment_size = 0;
          invalid_configuration_requested = false;
          prefill_ready = false;
          prefill_done = false;
        };
        size = 2;
        read_index = 0;
        write_index = 0;
      })))
