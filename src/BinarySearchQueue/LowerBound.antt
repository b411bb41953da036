-- ===== src/BinarySearchQueue/LowerBound.antt =====
-- What `lower_bound` returns: an equation for every queue and every element.
use datahandlinglibs.Base.{
  ℕ, suc, ◌≤◌, ◌≡◌, sym, ap, ap₂, ◌∙◌, inl, inr, false, some, List, [], ◌∷◌, arith, dec_lt,
  if◌then◌else◌, Bool-cases, length, get_elem?-none,
}
use datahandlinglibs.Readout.{Readout, Laws}
use datahandlinglibs.Readout.Order.{Ascending, rank}
use datahandlinglibs.IterableQueue.{Queue}
use datahandlinglibs.IterableQueue.Place.{place, place_zero}
use datahandlinglibs.IterableQueue.Holds.{Holds}
use datahandlinglibs.IterableQueue.Refine.{oldest, nonempty-test, read-test}
use datahandlinglibs.IterableQueue.Iterator.{end}
use datahandlinglibs.BinarySearchQueue.{index_before, bisect, lower_bound}
use datahandlinglibs.BinarySearchQueue.Steps.{index_before-place}
use datahandlinglibs.BinarySearchQueue.Search.{bisect_finds}

module _ {ℓ} {T : Type ℓ} (rt : Readout T) where
  -- The end for an empty queue and for an element before the oldest one; else the place of the
  -- first element that is not older. That place is the write index if there is none.
  abbrev pub found : Queue T → List T → T → ℕ
  found q [] e = end
  found q (x ∷ xs) e =
      if rt.less e x then end else place q.size q.read_index (rank rt (rt.timestamp e) (x ∷ xs))

  module _ (laws : Laws rt) where
    head_not_younger : (x e : T) → rt.less e x ≡ false → rt.timestamp x ≤ rt.timestamp e
    head_not_younger x e h = elim (dec_lt (rt.timestamp e) (rt.timestamp x)) [
      | yes lt ↦ absurd (cc (laws.less_of_lt e x lt))
      | no ge ↦ omega arith
    ]

    last_index :
        (q : Queue T) (x : T) (xs : List T)
        → Holds q (x ∷ xs)
        → index_before q.size q.write_index ≡ place q.size q.read_index (length xs)
    last_index q x xs v = rw v.write_at (
        index_before-place q.size q.read_index v.small v.read_in (suc (length xs)) (omega arith)
          (omega (arith, v.fits))
        ∙ ap (place q.size q.read_index) (omega arith))

    -- The loop, started on the cursors of a queue whose oldest element is not younger.
    search_all :
        (q : Queue T) (x : T) (xs : List T) (e : T)
        → Holds q (x ∷ xs)
        → Ascending rt (x ∷ xs)
        → rt.less e x ≡ false
        → bisect rt q.size q e q.read_index (index_before q.size q.write_index)
          ≡ some (place q.size q.read_index (rank rt (rt.timestamp e) (x ∷ xs)))
    search_all q x xs e v asc after =
        ap₂ (bisect rt q.size q e) (sym (place_zero q.size q.read_index v.read_in))
          (last_index q x xs v)
        ∙ bisect_finds rt laws q (x ∷ xs) v asc e q.size 0 (length xs) (omega arith) (omega arith)
            (omega (arith, v.fits)) (λ y ey. ground (arith, head_not_younger x e after))
            (λ y ey. cc (ey, get_elem?-none (x ∷ xs) (suc (length xs)) (omega arith)))

    -- On a ring that holds an ascending list, under an order that agrees with the timestamps where
    -- they differ, the binary search ends within as many rounds as the ring has slots, reads no raw
    -- slot, and returns the place of the first payload that is not older, or the end for an empty
    -- ring or an element less than the oldest.
    pub lower_bound_finds :
        (q : Queue T) (xs : List T) (e : T)
        → Holds q xs
        → Ascending rt xs
        → lower_bound rt q e ≡ some (found q xs e)
    unfolding lower_bound
    lower_bound_finds q [] e v asc = rw (read-test q [] v)
    lower_bound_finds q (x ∷ xs) e v asc =
        rw (nonempty-test q x xs v, oldest q x xs v, lower_bound)
          (elim (Bool-cases (rt.less e x)) [
            | inl before ↦ rw before
            | inr after ↦ rw after (search_all q x xs e v asc after)
          ])
