-- ===== src/IterableQueue/Spsc/Order.antt =====
-- The reader's side, and any sequence of steps.
use datahandlinglibs.Base.{
  ℕ, ◌^◌, ◌≤◌, ◌<◌, ◌≡◌, refl, sym, ap, subst, ◌∙◌, ◌≢◌, false, none, some, List, [], ◌∷◌, ◌++◌,
  append_assoc, arith, length, get_elem?,
}
use mathlib.Core.Option.{some-injective}
use datahandlinglibs.IterableQueue.{Queue, slot_at, sized}
use datahandlinglibs.IterableQueue.Place.{place_zero}
use datahandlinglibs.IterableQueue.Holds.{Holds, sized-Holds}
use datahandlinglibs.IterableQueue.Slots.{advanced, advanced-Holds}
use datahandlinglibs.IterableQueue.Spsc.{
  Producer, Consumer, taking, releasing, System, Act, act, acts, fresh, test_room, place_object,
  publish, test_object, take_object, release, take_step, release_step,
}
use datahandlinglibs.IterableQueue.Spsc.Commute.{
  producer_slots, cursors-apart, producer_slots-ne, producer_slots-set,
}
use datahandlinglibs.IterableQueue.Spsc.Safety.{
  seen, Good, HasRoom, HasFront, HasFront-length, HasRoom-tail, test_room-Good, place-Good,
  publish-Good, test_object-Good,
}

module _ {ℓ} {T : Type ℓ} where
  module _ (q : Queue T) (got xs : List T) (v : Holds q xs) where
    apart : (x : T) → get_elem? xs 0 ≡ some x → q.write_index ≢ q.read_index
    apart x e same = cursors-apart q xs v (HasFront-length x xs e) (sym same)

    front_slot :
        (p : Producer T) (x : T)
        → get_elem? xs 0 ≡ some x
        → slot_at (producer_slots p q.write_index q.records) q.read_index ≡ some x
    front_slot p x e =
        producer_slots-ne p q.records q.write_index q.read_index (apart x e)
        ∙ ap (slot_at q.records) (sym (place_zero q.size q.read_index v.read_in))
        ∙ v.slots 0 (omega (arith, v.two))
        ∙ e

    take-Good :
        (p : Producer T) (c : Consumer T)
        → HasRoom p q.size xs
        → HasFront c xs
        → Good (take_step c (seen q p c got xs))
    take-Good p Consumer.ready m f = record {
      ring = q;
      held = xs;
      holds = v;
      room = m;
      front = f;
      is_seen = refl;
    }
    take-Good p taking m (x, e) =
        rw (take_step, front_slot p x e)
          record {
            ring = q;
            held = xs;
            holds = v;
            room = m;
            front = e;
            is_seen =
                ap
                  (λ rs. record (seen q p (releasing x) got xs) {
                    queue = record q { records = rs };
                  })
                  (producer_slots-set p q.records q.write_index q.read_index none (apart x e));
          }
    take-Good p (releasing x) m f = record {
      ring = q;
      held = xs;
      holds = v;
      room = m;
      front = f;
      is_seen = refl;
    }

  release-Good :
      (q : Queue T) (got xs : List T)
      → Holds q xs
      → (p : Producer T) (c : Consumer T) → HasRoom p q.size xs
      → HasFront c xs
      → Good (release_step c (seen q p c got xs))
  release-Good q got xs v p Consumer.ready m f = record {
    ring = q;
    held = xs;
    holds = v;
    room = m;
    front = f;
    is_seen = refl;
  }
  release-Good q got xs v p taking m f = record {
    ring = q;
    held = xs;
    holds = v;
    room = m;
    front = f;
    is_seen = refl;
  }
  release-Good q got [] v p (releasing x) m f = absurd (cc f)
  release-Good q got (y ∷ ys) v p (releasing x) m f = record {
    ring = advanced q;
    held = ys;
    holds = advanced-Holds q y ys v;
    room = HasRoom-tail p q.size y ys m;
    front = tt;
    is_seen =
        ap
          (λ acc. record (seen (advanced q) p Consumer.ready (got ++ (x ∷ [])) ys) {
            accepted = acc;
          })
          (ap (λ z. got ++ (z ∷ ys)) (some-injective y x f) ∙ sym (append_assoc got (x ∷ []) ys));
  }

  act-seen :
      (a : Act T) (q : Queue T) (got xs : List T)
      → Holds q xs
      → (p : Producer T) (c : Consumer T) → HasRoom p q.size xs
      → HasFront c xs
      → Good (act a (seen q p c got xs))
  unfolding act
  act-seen (test_room x) q got xs v p c m f = test_room-Good q got xs v x p c m f
  act-seen place_object q got xs v p c m f = place-Good q got xs v p c m f
  act-seen publish q got xs v p c m f = publish-Good q got xs v p c m f
  act-seen test_object q got xs v p c m f = test_object-Good q got xs v p c m f
  act-seen take_object q got xs v p c m f = take-Good q got xs v p c m f
  act-seen release q got xs v p c m f = release-Good q got xs v p c m f

  act-Good : (a : Act T) (s : System T) → Good s → Good (act a s)
  act-Good a s g =
      subst (λ t. Good (act a t)) (sym g.is_seen)
        (act-seen a g.ring s.returned g.held g.holds s.producer s.consumer g.room g.front)

  acts-Good : (more : List (Act T)) (s : System T) → Good s → Good (acts more s)
  unfolding acts
  acts-Good [] s g = g
  acts-Good (a ∷ more) s g = acts-Good more (act a s) (act-Good a s g)

  fresh-Good : (n : ℕ) → 2 ≤ n → n < 2 ^ 31 → Good (fresh {T = T} n)
  fresh-Good n two small = record {
    ring = sized n;
    held = [];
    holds = sized-Holds n two small;
    room = tt;
    front = tt;
    is_seen = refl;
  }

  -- On a new ring of at least 2 and fewer than 2^31 slots, whatever the interleaving of the steps
  -- of the writes and reads, no object is constructed over another one or taken from a raw slot,
  -- and the objects accepted are those returned followed by fewer than the slots of the ring: reads
  -- return what was written, in order, once each.
  pub acts_in_order :
      (n : ℕ) (more : List (Act T))
      → 2 ≤ n
      → n < 2 ^ 31
      → ((acts more (fresh {T = T} n)).broken ≡ false)
        × ((held : List T) × ((acts more (fresh {T = T} n)).accepted
              ≡ (acts more (fresh {T = T} n)).returned ++ held)
            × (length held < (acts more (fresh {T = T} n)).queue.size))
  acts_in_order n more two small =
      let g = acts-Good more (fresh {T = T} n) (fresh-Good n two small) in
      (
        ap (λ s. s.broken) g.is_seen,
        (
          g.held,
          ap (λ s. s.accepted) g.is_seen,
          omega (arith, g.holds.fits, ap (λ s. s.queue.size) g.is_seen),
        ),
      )
