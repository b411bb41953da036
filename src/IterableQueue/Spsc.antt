-- ===== src/IterableQueue/Spsc.antt =====
-- The interleavings of the producer's `write` and the consumer's `read`: each of them is cut where
-- it reads or changes what the other one sees. The acquire and release operations on the two
-- indices order the accesses to the slots, so that the steps of the two threads form one sequence.
pub mod Commute
pub mod Safety
pub mod Order
pub mod Whole
use datahandlinglibs.Base.{
  ℕ, zero, suc, ◌+◌, ◌-◌, ◌*◌, ◌/◌, ◌%◌, ◌^◌, ◌≤◌, ◌<◌, min, max, ◌≡◌, refl, sym, ap, ap₂, subst,
  ◌∙◌, ◌≢◌, ◌↔◌, ◌⊎◌, inl, inr, Bool, true, false, not, ◌&&◌, ◌||◌, Option, none, some, List, [],
  ◌∷◌, ◌++◌, map, append_assoc, append-nil, arith, dec_lt, dec_le, ℕ_discrete, ltb, leb, ◌==◌,
  if◌then◌else◌, ltb→lt, lt→ltb, ltb_ge, le→ltb, leb→le, ==_iff, Bool-cases, Option-cases, ne→==,
  eq→==, ◌>>=◌, le→leb, leb_gt, bind-some, length, get_elem?, set, drop, take, replicate,
  length-append, length-set, length-replicate, length-drop, get_elem?-set_self, get_elem?-set_ne,
  get_elem?-replicate, get_elem?-none, get_elem?-some, get_elem?-append_left,
  get_elem?-append_right, get_elem?-drop, drop-eq-cons, drop-eq-nil, take-all, add32, sub32, add64,
  sub64, mul64,
}
use datahandlinglibs.IterableQueue.{Queue, slot_at, next_record, sized}

-- Where the producer is in `write(x)`: outside, after the test for a free slot, or after the
-- construction of the object.
pub data Producer {ℓ} (T : Type ℓ) : Type ℓ where
  ready : Producer T
  placing publishing : T → Producer T

-- Where the consumer is in `read`: outside, after the test for an object, or after it was moved.
pub data Consumer {ℓ} (T : Type ℓ) : Type ℓ where
  ready taking : Consumer T
  releasing : T → Consumer T

-- `accepted` are the objects of the writes that returned true, `returned` those that reads gave.
-- `broken` is set when an object is constructed over another one, or read where there is none.
pub record System {ℓ} (T : Type ℓ) : Type ℓ where
  pub queue : Queue T
  pub producer : Producer T
  pub consumer : Consumer T
  pub accepted : List T
  pub returned : List T
  pub broken : Bool

-- The steps. One that the thread is not at does nothing.
pub data Act {ℓ} (T : Type ℓ) : Type ℓ where
  test_room : T → Act T
  place_object publish : Act T
  test_object take_object release : Act T

module _ {ℓ} {T : Type ℓ} where
  abbrev pub is_live : Option T → Bool
  is_live none = false
  is_live (some x) = true

  -- The load of `readIndex_`: the write goes on, or it is counted as refused and returns false.
  abbrev pub test_room_step : T → Producer T → System T → System T
  test_room_step x Producer.ready s =
      if next_record s.queue.size s.queue.write_index == s.queue.read_index
      then record s {
        queue = record (s.queue) { overflow_ctr = (s.queue.overflow_ctr + 1) % 2 ^ 32 };
      }
      else record s { producer = placing x }
  test_room_step x (placing y) s = s
  test_room_step x (publishing y) s = s

  -- `new (&records_[currentWrite]) T(std::move(record))`
  abbrev pub place_step : Producer T → System T → System T
  place_step Producer.ready s = s
  place_step (placing x) s = record s {
    queue = record (s.queue) { records = set s.queue.records s.queue.write_index (some x) };
    producer = publishing x;
    broken = s.broken || is_live (slot_at s.queue.records s.queue.write_index);
  }
  place_step (publishing x) s = s

  -- The store of `writeIndex_`, which only the producer changes; the write returns true.
  abbrev pub publish_step : Producer T → System T → System T
  publish_step Producer.ready s = s
  publish_step (placing x) s = s
  publish_step (publishing x) s = record s {
    queue = record (s.queue) { write_index = next_record s.queue.size s.queue.write_index };
    producer = Producer.ready;
    accepted = s.accepted ++ (x ∷ []);
  }

  -- The load of `writeIndex_`: the read goes on, or it returns false.
  abbrev pub test_object_step : Consumer T → System T → System T
  test_object_step Consumer.ready s =
      if s.queue.read_index == s.queue.write_index then s else record s { consumer = taking }
  test_object_step taking s = s
  test_object_step (releasing x) s = s

  -- `record = std::move(records_[currentRead]); records_[currentRead].~T();`
  abbrev pub take_step : Consumer T → System T → System T
  take_step Consumer.ready s = s
  take_step taking s = elim (slot_at s.queue.records s.queue.read_index) [
    | none ↦ record s { broken = true }
    | some x ↦ record s {
      queue = record (s.queue) { records = set s.queue.records s.queue.read_index none };
      consumer = releasing x;
    }
  ]
  take_step (releasing x) s = s

  -- The store of `readIndex_`, which only the consumer changes; the read returns true.
  abbrev pub release_step : Consumer T → System T → System T
  release_step Consumer.ready s = s
  release_step taking s = s
  release_step (releasing x) s = record s {
    queue = record (s.queue) { read_index = next_record s.queue.size s.queue.read_index };
    consumer = Consumer.ready;
    returned = s.returned ++ (x ∷ []);
  }

  unfoldable pub act : Act T → System T → System T
  act (test_room x) s = test_room_step x s.producer s
  act place_object s = place_step s.producer s
  act publish s = publish_step s.producer s
  act test_object s = test_object_step s.consumer s
  act take_object s = take_step s.consumer s
  act release s = release_step s.consumer s

  unfoldable pub acts : List (Act T) → System T → System T
  unfolding act
  acts [] s = s
  acts (a ∷ more) s = acts more (act a s)

  -- A new ring with both threads outside.
  abbrev pub fresh : ℕ → System T
  fresh n = record {
    queue = sized n;
    producer = Producer.ready;
    consumer = Consumer.ready;
    accepted = [];
    returned = [];
    broken = false;
  }
