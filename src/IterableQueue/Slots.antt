-- ===== src/IterableQueue/Slots.antt =====
-- What constructing an object behind the last one, and destroying the oldest, do to the slots.
use datahandlinglibs.Base.{
  ℕ, zero, suc, ◌+◌, ◌<◌, ◌≡◌, ◌≢◌, refl, ◌∙◌, sym, ap, List, [], ◌∷◌, ◌++◌, none, some, arith,
  length, get_elem?, length-append, length-set, get_elem?-none, set,
}
use native.Mathlib.Decide.{ℕ_discrete}
use datahandlinglibs.IterableQueue.{Queue, slot_at, next_record}
use datahandlinglibs.IterableQueue.Place.{
  place, place-lt, place-ne, place-suc-ne, next_record-place, slot_at-set_self, slot_at-set_ne,
  next_record-lt, place-next_record, place-next_record_last,
}
use datahandlinglibs.IterableQueue.Holds.{Holds}

module _ {ℓ} {T : Type ℓ} where
  get_elem?-snoc_last : (xs : List T) (x : T) → get_elem? (xs ++ (x ∷ [])) (length xs) ≡ some x
  get_elem?-snoc_last [] x = refl
  get_elem?-snoc_last (y ∷ xs) x = get_elem?-snoc_last xs x

  get_elem?-snoc_ne :
      (xs : List T) (x : T) (k : ℕ) → k ≢ length xs → get_elem? (xs ++ (x ∷ [])) k ≡ get_elem? xs k
  get_elem?-snoc_ne [] x zero h = absurd (h refl)
  get_elem?-snoc_ne [] x (suc k) h = refl
  get_elem?-snoc_ne (y ∷ xs) x zero h = refl
  get_elem?-snoc_ne (y ∷ xs) x (suc k) h = get_elem?-snoc_ne xs x k (λ e. h (ap suc e))

  -- The queue after an accepted write.
  abbrev pub appended : Queue T → T → Queue T
  appended q x = record q {
    records = set q.records q.write_index (some x);
    write_index = next_record q.size q.write_index;
  }

  -- The queue after the oldest element is gone.
  abbrev pub advanced : Queue T → Queue T
  advanced q = record q {
    records = set q.records q.read_index none;
    read_index = next_record q.size q.read_index;
  }

  -- Constructing an object in the slot behind the last element appends it.
  appended-slots :
      (q : Queue T) (xs : List T) (x : T)
      → Holds q xs
      → (k : ℕ) → k < q.size
      → slot_at (set q.records q.write_index (some x)) (place q.size q.read_index k)
        ≡ get_elem? (xs ++ (x ∷ [])) k
  appended-slots q xs x v k hk = elim (ℕ_discrete k (length xs)) [
    | yes e ↦
        rw
          (e, ← v.write_at, slot_at-set_self q.records q.write_index (some x) (omega (arith, w_in)))
          (sym (get_elem?-snoc_last xs x))
    | no ne ↦
        slot_at-set_ne q.records q.write_index (place q.size q.read_index k) (some x) (apart ne)
        ∙ v.slots k hk
        ∙ sym (get_elem?-snoc_ne xs x k ne)
  ]
    where
      w_in : place q.size q.read_index (length xs) < q.size
      w_in = place-lt q.size q.read_index (length xs) v.read_in (omega arith)

      apart : k ≢ length xs → q.write_index ≢ place q.size q.read_index k
      apart ne = rw v.write_at (
          place-ne q.size q.read_index (length xs) k v.read_in (omega (arith, v.fits)) hk
            (λ e. ne (sym e)))

  -- Destroying the oldest object leaves the rest one place nearer.
  advanced-slots :
      (q : Queue T) (x : T) (xs : List T)
      → Holds q (x ∷ xs)
      → (k : ℕ) → k < q.size
      → slot_at (set q.records q.read_index none) (place q.size (next_record q.size q.read_index) k)
        ≡ get_elem? xs k
  advanced-slots q x xs v k hk = elim (ℕ_discrete (k + 1) q.size) [
    | yes e ↦
        rw
          (
            place-next_record_last q.size q.read_index k v.small v.read_in e,
            slot_at-set_self q.records q.read_index none (omega (arith, v.room, v.read_in)),
          )
          (sym (get_elem?-none xs k (omega (arith, v.fits))))
    | no ne ↦ rw (place-next_record q.size q.read_index k v.small v.read_in (omega arith)) (
        slot_at-set_ne q.records q.read_index (place q.size q.read_index (suc k)) none
          (place-suc-ne q.size q.read_index k v.read_in (omega arith))
        ∙ v.slots (suc k) (omega arith))
  ]

  pub appended-Holds :
      (q : Queue T) (xs : List T) (x : T)
      → Holds q xs
      → length xs + 1 < q.size
      → Holds (appended q x) (xs ++ (x ∷ []))
  appended-Holds q xs x v h = record {
    owns = v.owns;
    two = v.two;
    small = v.small;
    room = length-set q.records q.write_index (some x) ∙ v.room;
    read_in = v.read_in;
    fits = omega (arith, length-append xs (x ∷ []));
    write_at =
        rw (v.write_at, length-append xs (x ∷ []))
          (next_record-place q.size q.read_index (length xs) v.small v.read_in h);
    slots = appended-slots q xs x v;
  }

  pub advanced-Holds :
      (q : Queue T) (x : T) (xs : List T) → Holds q (x ∷ xs) → Holds (advanced q) xs
  advanced-Holds q x xs v = record {
    owns = v.owns;
    two = v.two;
    small = v.small;
    room = length-set q.records q.read_index none ∙ v.room;
    read_in = next_record-lt q.size q.read_index v.small v.read_in;
    fits = omega (arith, v.fits);
    write_at =
        v.write_at
        ∙ sym (
            place-next_record q.size q.read_index (length xs) v.small v.read_in
              (omega (arith, v.fits)));
    slots = advanced-slots q x xs v;
  }

  -- The counter of refused writes is no part of what is held.
  pub overflow_ctr-Holds :
      (q : Queue T) (xs : List T) → Holds q xs → (n : ℕ) → Holds (record q { overflow_ctr = n }) xs
  overflow_ctr-Holds q xs v n = record {
    owns = v.owns;
    two = v.two;
    small = v.small;
    room = v.room;
    read_in = v.read_in;
    fits = v.fits;
    write_at = v.write_at;
    slots = v.slots;
  }
