-- ===== src/IterableQueue/Spsc/Whole.antt =====
-- A call that is not interrupted is the call of the sequential ring.
use datahandlinglibs.Base.{
  ◌≡◌, refl, sym, inl, inr, false, none, some, List, [], ◌∷◌, ◌++◌, append-nil, ◌==◌, Bool-cases,
}
use datahandlinglibs.IterableQueue.{Queue, next_record, write, read}
use datahandlinglibs.IterableQueue.Holds.{Holds}
use datahandlinglibs.IterableQueue.Refine.{oldest, nonempty-test, read-test}
use datahandlinglibs.IterableQueue.Spsc.{
  Producer, Consumer, System, Act, act, acts, test_room, place_object, publish, test_object,
  take_object, release, test_room_step, take_step,
}

module _ {ℓ} {T : Type ℓ} where
  -- Both threads outside their calls.
  abbrev pub at_rest : Queue T → List T → List T → System T
  at_rest q acc got = record {
    queue = q;
    producer = Producer.ready;
    consumer = Consumer.ready;
    accepted = acc;
    returned = got;
    broken = false;
  }

  abbrev pub whole_write : T → List (Act T)
  whole_write x = test_room x ∷ place_object ∷ publish ∷ []

  abbrev pub whole_read : List (Act T)
  whole_read = test_object ∷ take_object ∷ release ∷ []

  -- A write that is not interrupted changes the ring as the sequential write does, accepted or
  -- refused.
  pub acts-write :
      (q : Queue T) (x : T) (acc got : List T)
      → (acts (whole_write x) (at_rest q acc got)).queue ≡ (write q x).1
  unfolding acts act write
  acts-write q x acc got = elim (Bool-cases (next_record q.size q.write_index == q.read_index)) [
    | inl full ↦ rw (full, test_room_step) refl
    | inr free ↦ rw (free, test_room_step) refl
  ]

  -- A read that is not interrupted, on a ring that holds a list, changes the ring as the sequential
  -- read does, and returns what it returns.
  pub acts-read :
      (q : Queue T) (xs acc got : List T)
      → Holds q xs
      → ((acts whole_read (at_rest q acc got)).queue ≡ (read q).2)
        × ((acts whole_read (at_rest q acc got)).returned
            ≡ got ++ elim (read q).1 [ none ↦ [] | some x ↦ x ∷ [] ])
  unfolding acts act read
  acts-read q [] acc got v = rw (read-test q [] v) (refl, sym (append-nil got))
  acts-read q (x ∷ xs) acc got v =
      rw (nonempty-test q x xs v, take_step, oldest q x xs v) (refl, refl)
