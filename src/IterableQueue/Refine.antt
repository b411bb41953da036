-- ===== src/IterableQueue/Refine.antt =====
-- Every operation of the ring does to the elements that it holds what the bounded FIFO does.
use datahandlinglibs.Base.{
  ℕ, zero, suc, ◌+◌, ◌-◌, ◌%◌, ◌≤◌, ◌<◌, ◌^◌, ◌≡◌, refl, ◌∙◌, sym, ap, List, [], ◌∷◌, none, some,
  true, false, arith, length, get_elem?, drop, le→ltb, lt→ltb, subst, ◌==◌, if◌then◌else◌, ◌⊎◌, inl,
  inr,
}
use native.Mathlib.Decide.{ℕ_discrete}
use datahandlinglibs.IterableQueue.{
  flush, Queue, slot_at, write, read, pop_front, pop, occupancy, is_empty, is_full, front, back,
  deref, capacity, next_record,
}
use datahandlinglibs.IterableQueue.Place.{place, place_zero}
use datahandlinglibs.IterableQueue.Holds.{Holds}
use datahandlinglibs.IterableQueue.Slots.{
  appended, advanced, appended-Holds, advanced-Holds, overflow_ctr-Holds,
}
use datahandlinglibs.IterableQueue.Fifo.{fifo_write, fifo_read, last}

-- The cursors meet exactly when nothing is held, and the ring is full when one slot is left.
pub empty_iff : (size r n : ℕ) → r < size → n + 1 ≤ size → (r == place size r n) ≡ (n == 0)
empty_iff size r n hr hn = ground arith

pub full_iff :
    (size r n : ℕ)
    → 2 ≤ size
    → size < 2 ^ 31
    → r < size
    → n + 1 ≤ size
    → (next_record size (place size r n) == r) ≡ (n == (size - 1))
full_iff size r n two hs hr hn = ground arith

-- The index before the write cursor is the place of the last element.
back-place :
    (size r n : ℕ)
    → r < size
    → suc n + 1 ≤ size
    → (if place size r (suc n) == 0 then size - 1 else place size r (suc n) - 1) ≡ place size r n
back-place size r n hr hn = ground arith

module _ {ℓ} {T : Type ℓ} where
  -- The test of `write` is whether all slots but one are taken.
  pub write-test :
      (q : Queue T) (xs : List T)
      → Holds q xs
      → (next_record q.size q.write_index == q.read_index) ≡ (length xs == (q.size - 1))
  write-test q xs v =
      subst (λ w. (next_record q.size w == q.read_index) ≡ (length xs == (q.size - 1)))
        (sym v.write_at) (full_iff q.size q.read_index (length xs) v.two v.small v.read_in v.fits)

  pub write-accepts :
      (q : Queue T) (xs : List T) (x : T)
      → Holds q xs
      → length xs + 1 < q.size
      → write q x ≡ (true, appended q x)
  unfolding write
  write-accepts q xs x v h = ground (arith, write-test q xs v)

  pub write-refuses :
      (q : Queue T) (xs : List T) (x : T)
      → Holds q xs
      → length xs + 1 ≡ q.size
      → write q x ≡ (false, record q { overflow_ctr = (q.overflow_ctr + 1) % 2 ^ 32 })
  unfolding write
  write-refuses q xs x v h = ground (arith, write-test q xs v)

  pub write_refines :
      {q : Queue T} {xs : List T} (x : T)
      → Holds q xs
      → ((write q x).0 ≡ (fifo_write (capacity q) xs x).0)
        × Holds (write q x).1 (fifo_write (capacity q) xs x).1
  unfolding capacity
  write_refines {q} {xs} x v = elim (ℕ_discrete (length xs + 1) q.size) [
    | yes full ↦
        rw (write-refuses q xs x v full, le→ltb (length xs) (q.size - 1) (omega arith))
          (refl, overflow_ctr-Holds q xs v _)
    | no room ↦
        rw
          (
            write-accepts q xs x v (omega (arith, v.fits)),
            lt→ltb (length xs) (q.size - 1) (omega (arith, v.fits)),
          )
          (refl, appended-Holds q xs x v (omega (arith, v.fits)))
  ]

  pub read-test :
      (q : Queue T) (xs : List T) → Holds q xs → (q.read_index == q.write_index) ≡ (length xs == 0)
  read-test q xs v =
      subst (λ w. (q.read_index == w) ≡ (length xs == 0)) (sym v.write_at)
        (empty_iff q.size q.read_index (length xs) v.read_in v.fits)

  pub nonempty-test :
      (q : Queue T) (x : T) (xs : List T)
      → Holds q (x ∷ xs)
      → (q.read_index == q.write_index) ≡ false
  nonempty-test q x xs v = read-test q (x ∷ xs) v ∙ ground arith

  -- `back` compares the cursors the other way round.
  back-test : (q : Queue T) → (q.write_index == q.read_index) ≡ (q.read_index == q.write_index)
  back-test q = ground arith

  pub oldest :
      (q : Queue T) (x : T) (xs : List T)
      → Holds q (x ∷ xs)
      → slot_at q.records q.read_index ≡ some x
  oldest q x xs v =
      ap (slot_at q.records) (sym (place_zero q.size q.read_index v.read_in))
      ∙ v.slots 0 (omega (arith, v.two))

  -- A read takes the oldest element, and tells an empty queue.
  pub read_refines :
      {q : Queue T} {xs : List T}
      → Holds q xs
      → ((read q).0 ≡ (fifo_read xs).0)
        × ((read q).1 ≡ (fifo_read xs).1)
        × Holds (read q).2 (fifo_read xs).2
  unfolding read
  read_refines {q} {xs = []} v = rw (read-test q [] v) (refl, refl, v)
  read_refines {q} {xs = x ∷ xs} v =
      rw (nonempty-test q x xs v) (refl, oldest q x xs v, advanced-Holds q x xs v)

  pub pop_front-empty : (q : Queue T) → Holds q [] → pop_front q ≡ none
  unfolding pop_front
  pop_front-empty q v = rw (read-test q [] v)

  pub pop_front-cons :
      (q : Queue T) (x : T) (xs : List T) → Holds q (x ∷ xs) → pop_front q ≡ some (advanced q)
  unfolding pop_front
  pop_front-cons q x xs v = rw (nonempty-test q x xs v)

  pop-cons :
      (n : ℕ) (q : Queue T) (x : T) (xs : List T)
      → Holds q (x ∷ xs)
      → pop (suc n) q ≡ pop n (advanced q)
  unfolding pop
  pop-cons n q x xs v = rw (pop_front-cons q x xs v, pop)

  pop-nil : (n : ℕ) (q : Queue T) → Holds q [] → pop (suc n) q ≡ none
  unfolding pop
  pop-nil n q v = rw (pop_front-empty q v, pop)

  -- Popping `n` elements drops them, or fails where there are fewer.
  pub pop_refines :
      (n : ℕ) {q : Queue T} {xs : List T}
      → Holds q xs
      → (pop n q ≡ none) × (length xs < n)
        ⊎ ((q' : Queue T) × (pop n q ≡ some q')
            × (n ≤ length xs)
            × Holds q' (drop n xs)
            × (q'.size ≡ q.size))
  unfolding pop
  pop_refines zero {q} {xs} v = inr (q, refl, omega arith, v, refl)
  pop_refines (suc n) {q} {xs = []} v = inl (pop-nil n q v, omega arith)
  pop_refines (suc n) {q} {xs = x ∷ xs} v = elim (pop_refines n (advanced-Holds q x xs v)) [
    | inl (e, h) ↦ inl (pop-cons n q x xs v ∙ e, omega arith)
    | inr (q', e, h, w, c) ↦ inr (q', pop-cons n q x xs v ∙ e, omega arith, w, c)
  ]

  -- On a ring that holds a list, of fewer than 2^31 slots, the occupancy computed in int and
  -- converted to size_t is the length of the list, for every position of the cursors.
  pub occupancy_refines : {q : Queue T} {xs : List T} → Holds q xs → occupancy q ≡ length xs
  unfolding occupancy
  occupancy_refines {q} {xs} v = ground (arith, v.write_at)

  drop-length : (xs : List T) → drop (length xs) xs ≡ []
  drop-length [] = refl
  drop-length (x ∷ xs) = drop-length xs

  -- `flush` leaves nothing.
  pub flush_refines :
      {q : Queue T} {xs : List T}
      → Holds q xs
      → (q' : Queue T) × (flush q ≡ some q') × Holds q' [] × (q'.size ≡ q.size)
  unfolding flush
  flush_refines {q} {xs} v = elim (pop_refines (length xs) v) [
    | inl (e, h) ↦ absurd (omega arith)
    | inr (q', e, h, w, c) ↦
        (q', rw (occupancy_refines v) e, subst (Holds q') (drop-length xs) w, c)
  ]

  pub is_empty_refines : {q : Queue T} {xs : List T} → Holds q xs → is_empty q ≡ (length xs == 0)
  unfolding is_empty
  is_empty_refines {q} {xs} v = read-test q xs v

  pub is_full_refines :
      {q : Queue T} {xs : List T} → Holds q xs → is_full q ≡ (length xs == capacity q)
  unfolding is_full capacity
  is_full_refines {q} {xs} v = write-test q xs v

  -- `front` points to the oldest element, and is null for an empty queue.
  pub front_refines : {q : Queue T} {xs : List T} → Holds q xs → deref q (front q) ≡ get_elem? xs 0
  unfolding front
  front_refines {q} {xs = []} v = rw (read-test q [] v)
  front_refines {q} {xs = x ∷ xs} v = rw (nonempty-test q x xs v) (oldest q x xs v)

  last-get_elem? : (x : T) (xs : List T) → last (x ∷ xs) ≡ get_elem? (x ∷ xs) (length xs)
  last-get_elem? x [] = refl
  last-get_elem? x (y ∷ xs) = last-get_elem? y xs

  pub back_refines : {q : Queue T} {xs : List T} → Holds q xs → deref q (back q) ≡ last xs
  unfolding back
  back_refines {q} {xs = []} v = rw (back-test q, read-test q [] v)
  back_refines {q} {xs = x ∷ xs} v =
      rw
        (
          back-test q,
          nonempty-test q x xs v,
          v.write_at,
          back-place q.size q.read_index (length xs) v.read_in v.fits,
        )
        (v.slots (length xs) (omega (arith, v.fits)) ∙ sym (last-get_elem? x xs))

  pub size-write : (q : Queue T) (x : T) → (write q x).1.size ≡ q.size
  unfolding write
  size-write q x = ground arith

  pub size-read : (q : Queue T) → (read q).2.size ≡ q.size
  unfolding read
  size-read q = ground arith
