-- ===== src/IterableQueue/Spsc/Safety.antt =====
-- Whatever the interleaving, no slot is misused and the reads return what was written, in order.
use datahandlinglibs.Base.{
  ℕ, ◌+◌, ◌%◌, ◌^◌, ◌<◌, ◌≡◌, refl, ap, ap₂, inl, inr, false, none, some, List, [], ◌∷◌, ◌++◌,
  append_assoc, arith, ◌==◌, Bool-cases, length, get_elem?, set, get_elem?-some,
}
use datahandlinglibs.IterableQueue.{Queue, next_record}
use datahandlinglibs.IterableQueue.Holds.{Holds}
use datahandlinglibs.IterableQueue.Slots.{appended, appended-Holds, overflow_ctr-Holds}
use datahandlinglibs.IterableQueue.Refine.{write-test, read-test}
use datahandlinglibs.IterableQueue.Spsc.{
  Producer, Consumer, placing, publishing, taking, releasing, System, test_room_step, place_step,
  publish_step, test_object_step, is_live,
}
use datahandlinglibs.IterableQueue.Spsc.Commute.{
  producer_slots, consumer_slots, cursors-apart, write_index-lt, write_slot-raw, consumer_slots-raw,
  set-set,
}

module _ {ℓ} {T : Type ℓ} where
  -- The system of a ring `q` with the list `xs`, seen in the middle of a write and of a read.
  abbrev pub seen : Queue T → Producer T → Consumer T → List T → List T → System T
  seen q p c got xs = record {
    queue = record q {
      records = producer_slots p q.write_index (consumer_slots c q.read_index q.records);
    };
    producer = p;
    consumer = c;
    accepted = got ++ xs;
    returned = got;
    broken = false;
  }

  -- A writer past its test has a free slot.
  abbrev pub HasRoom : Producer T → ℕ → List T → Type 0
  HasRoom Producer.ready size xs = Unit {0}
  HasRoom (placing x) size xs = length xs + 1 < size
  HasRoom (publishing x) size xs = length xs + 1 < size

  -- A reader past its test has an object.
  abbrev pub HasFront : Consumer T → List T → Type ℓ
  HasFront Consumer.ready xs = Unit
  HasFront taking xs = (x : T) × (get_elem? xs 0 ≡ some x)
  HasFront (releasing x) xs = get_elem? xs 0 ≡ some x

  pub record Good (s : System T) : Type ℓ where
    pub ring : Queue T
    pub held : List T
    pub holds : Holds ring held
    pub room : HasRoom s.producer ring.size held
    pub front : HasFront s.consumer held
    pub is_seen : s ≡ seen ring s.producer s.consumer s.returned held

  pub HasFront-length : (x : T) (xs : List T) → get_elem? xs 0 ≡ some x → 0 < length xs
  HasFront-length x [] e = absurd (cc e)
  HasFront-length x (y ∷ xs) e = omega arith

  HasFront-snoc :
      (c : Consumer T) (xs : List T) (x : T) → HasFront c xs → HasFront c (xs ++ (x ∷ []))
  HasFront-snoc Consumer.ready xs x h = h
  HasFront-snoc taking (y ∷ xs) x h = h
  HasFront-snoc taking [] x (y, e) = absurd (cc e)
  HasFront-snoc (releasing z) [] x e = absurd (cc e)
  HasFront-snoc (releasing z) (y ∷ xs) x e = e

  pub HasRoom-tail :
      (p : Producer T) (size : ℕ) (x : T) (xs : List T)
      → HasRoom p size (x ∷ xs)
      → HasRoom p size xs
  HasRoom-tail Producer.ready size x xs h = tt
  HasRoom-tail (placing y) size x xs h = omega arith
  HasRoom-tail (publishing y) size x xs h = omega arith

  module _ (q : Queue T) (got xs : List T) (v : Holds q xs) where
    room_left : (next_record q.size q.write_index == q.read_index) ≡ false → length xs + 1 < q.size
    room_left free = ground (arith, write-test q xs v, v.fits, v.two)

    object_there : (q.read_index == q.write_index) ≡ false → (x : T) × (get_elem? xs 0 ≡ some x)
    object_there h = get_elem?-some xs 0 (ground (arith, read-test q xs v))

    pub test_room-Good :
        (x : T) (p : Producer T) (c : Consumer T)
        → HasRoom p q.size xs
        → HasFront c xs
        → Good (test_room_step x p (seen q p c got xs))
    test_room-Good x Producer.ready c m f =
        elim (Bool-cases (next_record q.size q.write_index == q.read_index)) [
          | inl full ↦ rw full record {
            ring = record q { overflow_ctr = (q.overflow_ctr + 1) % 2 ^ 32 };
            held = xs;
            holds = overflow_ctr-Holds q xs v ((q.overflow_ctr + 1) % 2 ^ 32);
            room = tt;
            front = f;
            is_seen = refl;
          }
          | inr free ↦ rw free record {
            ring = q;
            held = xs;
            holds = v;
            room = room_left free;
            front = f;
            is_seen = refl;
          }
        ]
    test_room-Good x (placing y) c m f = record {
      ring = q;
      held = xs;
      holds = v;
      room = m;
      front = f;
      is_seen = refl;
    }
    test_room-Good x (publishing y) c m f = record {
      ring = q;
      held = xs;
      holds = v;
      room = m;
      front = f;
      is_seen = refl;
    }

    pub place-Good :
        (p : Producer T) (c : Consumer T)
        → HasRoom p q.size xs
        → HasFront c xs
        → Good (place_step p (seen q p c got xs))
    place-Good Producer.ready c m f = record {
      ring = q;
      held = xs;
      holds = v;
      room = m;
      front = f;
      is_seen = refl;
    }
    place-Good (placing x) c m f = record {
      ring = q;
      held = xs;
      holds = v;
      room = m;
      front = f;
      is_seen =
          ap (λ o. record (seen q (publishing x) c got xs) { broken = is_live o })
            (consumer_slots-raw c q.records q.read_index q.write_index (write_index-lt q xs v)
              (write_slot-raw q xs v));
    }
    place-Good (publishing x) c m f = record {
      ring = q;
      held = xs;
      holds = v;
      room = m;
      front = f;
      is_seen = refl;
    }

    -- The published object, with the reader's change of the slots.
    published_slots :
        (x : T) (c : Consumer T)
        → HasFront c xs
        → set (consumer_slots c q.read_index q.records) q.write_index (some x)
          ≡ consumer_slots c q.read_index (set q.records q.write_index (some x))
    published_slots x Consumer.ready f = refl
    published_slots x taking f = refl
    published_slots x (releasing y) f =
        set-set q.records q.read_index q.write_index none (some x)
          (cursors-apart q xs v (HasFront-length y xs f))

    pub publish-Good :
        (p : Producer T) (c : Consumer T)
        → HasRoom p q.size xs
        → HasFront c xs
        → Good (publish_step p (seen q p c got xs))
    publish-Good Producer.ready c m f = record {
      ring = q;
      held = xs;
      holds = v;
      room = m;
      front = f;
      is_seen = refl;
    }
    publish-Good (placing x) c m f = record {
      ring = q;
      held = xs;
      holds = v;
      room = m;
      front = f;
      is_seen = refl;
    }
    publish-Good (publishing x) c m f = record {
      ring = appended q x;
      held = xs ++ (x ∷ []);
      holds = appended-Holds q xs x v m;
      room = tt;
      front = HasFront-snoc c xs x f;
      is_seen =
          ap₂
            (λ rs acc. record {
              queue = record q { records = rs; write_index = next_record q.size q.write_index };
              producer = Producer.ready;
              consumer = c;
              accepted = acc;
              returned = got;
              broken = false;
            })
            (published_slots x c f) (append_assoc got xs (x ∷ []));
    }

    pub test_object-Good :
        (p : Producer T) (c : Consumer T)
        → HasRoom p q.size xs
        → HasFront c xs
        → Good (test_object_step c (seen q p c got xs))
    test_object-Good p Consumer.ready m f = elim (Bool-cases (q.read_index == q.write_index)) [
      | inl none_there ↦
          rw none_there
            record { ring = q; held = xs; holds = v; room = m; front = f; is_seen = refl }
      | inr some_there ↦ rw some_there record {
        ring = q;
        held = xs;
        holds = v;
        room = m;
        front = object_there some_there;
        is_seen = refl;
      }
    ]
    test_object-Good p taking m f = record {
      ring = q;
      held = xs;
      holds = v;
      room = m;
      front = f;
      is_seen = refl;
    }
    test_object-Good p (releasing x) m f = record {
      ring = q;
      held = xs;
      holds = v;
      room = m;
      front = f;
      is_seen = refl;
    }
