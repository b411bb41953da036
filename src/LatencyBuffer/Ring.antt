-- ===== src/LatencyBuffer/Ring.antt =====
-- The ring with binary search fills the interface.
use datahandlinglibs.Base.{
  ℕ, zero, suc, ◌+◌, ◌-◌, ◌≤◌, ◌<◌, ◌≡◌, ap, subst, ◌∙◌, inl, inr, Bool, true, some, List, [], ◌∷◌,
  arith, dec_lt, if◌then◌else◌, lt→ltb, le→ltb, Bool-cases, length, get_elem?, drop, length-drop,
  get_elem?-some, drop-eq-cons, drop-eq-nil,
}
use datahandlinglibs.Readout.{Readout, Laws}
use datahandlinglibs.Readout.Order.{rank, rank-le}
use datahandlinglibs.IterableQueue.{Queue}
use datahandlinglibs.IterableQueue
use datahandlinglibs.IterableQueue.Place.{place}
use datahandlinglibs.IterableQueue.Holds.{Holds}
use datahandlinglibs.IterableQueue.Refine.{
  occupancy_refines, front_refines, back_refines, pop_refines,
}
use datahandlinglibs.IterableQueue.Iterator.{end}
use datahandlinglibs.IterableQueue.Iterator
use datahandlinglibs.IterableQueue.Iterator.Cursor.{
  cursor, cursor-place, cursor-end, good-place, good-end, next-cursor,
}
use datahandlinglibs.BinarySearchQueue
use datahandlinglibs.BinarySearchQueue.LowerBound.{lower_bound_finds, found}
use datahandlinglibs.LatencyBuffer.{Buffer, Walks, BufferLaws}

module _ {T : Type 0} (rt : Readout T) where
  abbrev pub binary_buffer : Buffer T (Queue T) ℕ
  binary_buffer = record {
    occupancy = IterableQueue.occupancy;
    front = λ q. IterableQueue.deref q (IterableQueue.front q);
    back = λ q. IterableQueue.deref q (IterableQueue.back q);
    pop = IterableQueue.pop;
    lower_bound = λ q e with_errors. BinarySearchQueue.lower_bound rt q e;
    good = Iterator.good;
    next = Iterator.next;
    deref = λ q i. IterableQueue.slot_at q.records i;
  }

  -- Nothing if the oldest payload is already younger, else what is not older than `e`.
  abbrev pub binary_reach : T → Bool → List T → List T
  binary_reach e with_errors [] = []
  binary_reach e with_errors (x ∷ xs) =
      if rt.less e x then [] else drop (rank rt (rt.timestamp e) (x ∷ xs)) (x ∷ xs)

  binary_reach_short :
      (e : T) (with_errors : Bool) (xs : List T)
      → length (binary_reach e with_errors xs) ≤ length xs
  binary_reach_short e w [] = omega arith
  binary_reach_short e w (x ∷ xs) = elim (Bool-cases (rt.less e x)) [
    | inl before ↦ rw before (omega arith)
    | inr after ↦ rw (after, length-drop (rank rt (rt.timestamp e) (x ∷ xs)) (x ∷ xs)) (omega arith)
  ]

  good_cursor :
      (q : Queue T) (xs : List T)
      → Holds q xs
      → (k : ℕ) → k < length xs
      → Iterator.good q (cursor q.size q.read_index (length xs) k) ≡ true
  good_cursor q xs v k h =
      ap (Iterator.good q) (cursor-place q.size q.read_index (length xs) k h)
      ∙ good-place q xs v k (omega (arith, v.fits))
      ∙ lt→ltb k (length xs) h

  slot_cursor :
      (q : Queue T) (xs : List T)
      → Holds q xs
      → (k : ℕ) (x : T) → k < length xs
      → get_elem? xs k ≡ some x
      → IterableQueue.slot_at q.records (cursor q.size q.read_index (length xs) k) ≡ some x
  slot_cursor q xs v k x h e =
      ap (IterableQueue.slot_at q.records) (cursor-place q.size q.read_index (length xs) k h)
      ∙ v.slots k (omega (arith, v.fits))
      ∙ e

  -- From the k-th place the steps go through the payloads from the k-th on.
  Walks-from :
      (q : Queue T) (xs : List T)
      → Holds q xs
      → (n k : ℕ) → n + k ≡ length xs
      → Walks binary_buffer q (cursor q.size q.read_index (length xs) k) (drop k xs)
  Walks-from q xs v zero k h =
      rw
        (cursor-end q.size q.read_index (length xs) k (omega arith), drop-eq-nil k xs (omega arith))
        (good-end q xs v)
  Walks-from q xs v (suc n) k h =
      let (x, e) = get_elem?-some xs k (omega arith) in
      rw (drop-eq-cons k xs x e) (
        good_cursor q xs v k (omega arith),
        slot_cursor q xs v k x (omega arith) e,
        rw (next-cursor q xs v k (omega arith)) (Walks-from q xs v n (suc k) (omega arith)),
      )

  Walks-place :
      (q : Queue T) (xs : List T)
      → Holds q xs
      → (k : ℕ) → k ≤ length xs
      → Walks binary_buffer q (place q.size q.read_index k) (drop k xs)
  Walks-place q xs v k h = elim (dec_lt k (length xs)) [
    | yes lt ↦
        subst (λ i. Walks binary_buffer q i (drop k xs))
          (cursor-place q.size q.read_index (length xs) k lt)
          (Walks-from q xs v (length xs - k) k (omega arith))
    | no ge ↦
        rw (drop-eq-nil k xs (omega arith))
          (good-place q xs v k (omega (arith, v.fits)) ∙ le→ltb k (length xs) (omega arith))
  ]

  Walks-found :
      (q : Queue T) (xs : List T) (e : T) (with_errors : Bool)
      → Holds q xs
      → Walks binary_buffer q (found rt q xs e) (binary_reach e with_errors xs)
  Walks-found q [] e w v = good-end q [] v
  Walks-found q (x ∷ xs) e w v = elim (Bool-cases (rt.less e x)) [
    | inl before ↦ rw before (good-end q (x ∷ xs) v)
    | inr after ↦ rw after (
        Walks-place q (x ∷ xs) v (rank rt (rt.timestamp e) (x ∷ xs))
          (rank-le rt (rt.timestamp e) (x ∷ xs)))
  ]

  popped :
      (q : Queue T) (xs : List T) (n : ℕ)
      → Holds q xs
      → n ≤ length xs
      → (q' : Queue T) × (IterableQueue.pop n q ≡ some q') × Holds q' (drop n xs)
  popped q xs n v h = elim (pop_refines n v) [
    | inl (e, lt) ↦ absurd (omega arith)
    | inr (q', e, le, w, c) ↦ (q', e, w)
  ]

  pub binary_buffer-Laws : Laws rt → BufferLaws rt binary_buffer Holds binary_reach
  binary_buffer-Laws laws = record {
    occupancy_law = λ q xs v. occupancy_refines v;
    front_law = λ q xs v. front_refines v;
    back_law = λ q xs v. back_refines v;
    pop_law = λ q xs n v h. popped q xs n v h;
    reach_law = binary_reach_short;
    search_law = λ q xs e w v asc.
        (found rt q xs e, lower_bound_finds rt laws q xs e v asc, Walks-found q xs e w v);
  }
