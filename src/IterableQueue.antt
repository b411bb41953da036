-- ===== src/IterableQueue.antt =====
-- include/datahandlinglibs/models/IterableQueueModel.hpp and detail/IterableQueueModel.hxx: the
-- ring of one producer and one consumer that is the latency buffer of the fixed rate readouts.
-- A slot of `records_` is `none` while no object lives in it (raw memory), so that constructing
-- and destroying objects is visible. An index is an `unsigned int` (its wrap is written out), and
-- a `const T*` into `records_` is the index of the slot that it points to.
pub mod Place
pub mod Holds
pub mod Slots
pub mod Fifo
pub mod Refine
pub mod Run
pub mod Iterator
pub mod Spsc
pub mod Config
use datahandlinglibs.Base.{
  ℕ, zero, suc, ◌+◌, ◌-◌, ◌%◌, ◌^◌, List, [], Option, none, some, Bool, true, false, get_elem?, set,
  replicate, ◌==◌, if◌then◌else◌,
}
use datahandlinglibs.Base.Int.{◌+ℤ◌, ◌-ℤ◌, is_neg, to_int, to_size, ℤ}

-- What `records_` points to: memory of the queue, memory that was given back, or nothing.
pub data Storage : Type 0 where
  owned released missing : Storage

pub record Settings : Type 0 where
  pub numa_aware : Bool
  pub numa_node : ℕ
  pub intrinsic_allocator : Bool
  pub alignment_size : ℕ
  pub invalid_configuration_requested : Bool
  pub prefill_ready : Bool
  pub prefill_done : Bool

pub record Queue {ℓ} (T : Type ℓ) : Type ℓ where
  pub settings : Settings
  pub storage : Storage
  pub size : ℕ
  pub records : List (Option T)
  pub read_index : ℕ
  pub write_index : ℕ
  pub overflow_ctr : ℕ

abbrev pub default_settings : Settings
default_settings = record {
  numa_aware = false;
  numa_node = 0;
  intrinsic_allocator = false;
  alignment_size = 0;
  invalid_configuration_requested = false;
  prefill_ready = false;
  prefill_done = false;
}

-- `auto nextRecord = current + 1; if (nextRecord == size_) nextRecord = 0;`
abbrev pub next_record : ℕ → ℕ → ℕ
next_record size i = let n = (i + 1) % 2 ^ 32 in if n == size then 0 else n

module _ {ℓ} {T : Type ℓ} where
  -- The object that lives in slot `i`, if the index is in range and the slot is not raw.
  abbrev pub slot_at : List (Option T) → ℕ → Option T
  slot_at rs i = elim (get_elem? rs i) [ none ↦ none | some s ↦ s ]

  -- `IterableQueueModel(size)`; `size_` is an `uint32_t`, and the memory holds `size` objects.
  unfoldable pub sized : ℕ → Queue T
  sized n = record {
    settings = default_settings;
    storage = Storage.owned;
    size = n % 2 ^ 32;
    records = replicate n none;
    read_index = 0;
    write_index = 0;
    overflow_ctr = 0;
  }

  -- The value returned, and the queue after the call.
  unfoldable pub write : Queue T → T → Bool × Queue T
  write q x =
      if next_record q.size q.write_index == q.read_index
      then (false, record q { overflow_ctr = (q.overflow_ctr + 1) % 2 ^ 32 })
      else (
        true,
        record q {
          records = set q.records q.write_index (some x);
          write_index = next_record q.size q.write_index;
        },
      )

  -- The value returned, what is moved into `record`, and the queue after the call.
  unfoldable pub read : Queue T → Bool × Option T × Queue T
  read q = if q.read_index == q.write_index then (false, none, q) else (
    true,
    slot_at q.records q.read_index,
    record q {
      records = set q.records q.read_index none;
      read_index = next_record q.size q.read_index;
    },
  )

  -- `none` where the assertion fails.
  unfoldable pub pop_front : Queue T → Option (Queue T)
  pop_front q =
      if q.read_index == q.write_index
      then none
      else some (record q {
        records = set q.records q.read_index none;
        read_index = next_record q.size q.read_index;
      })

  unfoldable pub pop : ℕ → Queue T → Option (Queue T)
  pop zero q = some q
  pop (suc n) q = elim (pop_front q) [ none ↦ none | some q' ↦ pop n q' ]

  unfoldable pub is_empty : Queue T → Bool
  is_empty q = q.read_index == q.write_index

  unfoldable pub is_full : Queue T → Bool
  is_full q = next_record q.size q.write_index == q.read_index

  -- `int` arithmetic, converted to `std::size_t`.
  unfoldable pub occupancy : Queue T → ℕ
  occupancy q =
      let ret = to_int q.write_index -ℤ to_int q.read_index in
      to_size (if is_neg ret then ret +ℤ to_int q.size else ret)

  unfoldable pub capacity : Queue T → ℕ
  capacity q = q.size - 1

  unfoldable pub front : Queue T → Option ℕ
  front q = if q.read_index == q.write_index then none else some q.read_index

  unfoldable pub back : Queue T → Option ℕ
  back q =
      if q.write_index == q.read_index
      then none
      else some (if q.write_index == 0 then q.size - 1 else q.write_index - 1)

  unfoldable pub flush : Queue T → Option (Queue T)
  unfolding pop
  flush q = pop (occupancy q) q

  -- The object behind a pointer that `front` or `back` returns.
  abbrev pub deref : Queue T → Option ℕ → Option T
  deref q none = none
  deref q (some i) = slot_at q.records i
