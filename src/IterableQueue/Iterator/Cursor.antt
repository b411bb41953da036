-- ===== src/IterableQueue/Iterator/Cursor.antt =====
-- Iterators by position: going from `begin` to `end` visits the held elements in order.
use datahandlinglibs.Base.{
  ℕ, zero, suc, ◌+◌, ◌≤◌, ◌<◌, ◌≡◌, sym, ap, ◌∙◌, false, some, List, arith, ltb, ◌==◌,
  if◌then◌else◌, lt→ltb, le→ltb, length, drop, get_elem?-some, drop-eq-cons, drop-eq-nil,
}
use datahandlinglibs.IterableQueue.{Queue}
use native.Mathlib.Decide.{dec_lt}
use datahandlinglibs.IterableQueue.Place.{next_record-place-suc, place}
use datahandlinglibs.IterableQueue.Holds.{Holds}
use datahandlinglibs.IterableQueue.Iterator.{end, good, next, begin, visit}

-- The iterator at the k-th of `n` elements, the end for `k ≡ n`.
abbrev pub cursor : ℕ → ℕ → ℕ → ℕ → ℕ
cursor size r n k = if ltb k n then place size r k else end

pub cursor-place : (size r n k : ℕ) → k < n → cursor size r n k ≡ place size r k
cursor-place size r n k h = rw (lt→ltb k n h)

pub cursor-end : (size r n k : ℕ) → n ≤ k → cursor size r n k ≡ end
cursor-end size r n k h = rw (le→ltb k n h)

module _ {ℓ} {T : Type ℓ} (q : Queue T) (xs : List T) (v : Holds q xs) where
  -- `good` tells the slots that hold an element from all others.
  pub good-place : (k : ℕ) → k < q.size → good q (place q.size q.read_index k) ≡ ltb k (length xs)
  unfolding good
  good-place k hk = ground (arith, v.write_at)

  pub good-end : good q end ≡ false
  unfolding good
  good-end = ground arith

  pub next-place :
      (k : ℕ)
      → k < length xs
      → next q (place q.size q.read_index k) ≡ cursor q.size q.read_index (length xs) (suc k)
  unfolding next
  next-place k hk = rw (
    good-place k (omega (arith, v.fits)),
    lt→ltb k (length xs) hk,
    next_record-place-suc q.size q.read_index k v.small v.read_in (omega (arith, v.fits)),
    good-place (suc k) (omega (arith, v.fits)),
  )

  pub next-cursor :
      (k : ℕ)
      → k < length xs
      → next q (cursor q.size q.read_index (length xs) k)
        ≡ cursor q.size q.read_index (length xs) (suc k)
  next-cursor k hk =
      ap (next q) (cursor-place q.size q.read_index (length xs) k hk) ∙ next-place k hk

  pub begin-cursor : begin q ≡ cursor q.size q.read_index (length xs) 0
  unfolding begin
  begin-cursor = ground (arith, v.write_at)

  place-ne-end : (k : ℕ) → k < q.size → (place q.size q.read_index k == end) ≡ false
  place-ne-end k hk = ground arith

  pub visit-cursor :
      (fuel k : ℕ)
      → k ≤ length xs
      → length xs < fuel + k
      → visit fuel q (cursor q.size q.read_index (length xs) k) end ≡ some (drop k xs)
  unfolding visit
  visit-cursor zero k hk h = absurd (omega arith)
  visit-cursor (suc fuel) k hk h = elim (dec_lt k (length xs)) [
    | yes lt ↦
        let (x, e) = get_elem?-some xs k lt in
        rw
          (
            cursor-place q.size q.read_index (length xs) k lt,
            place-ne-end k (omega (arith, v.fits)),
            visit,
            v.slots k (omega (arith, v.fits)),
            e,
            next-cursor k lt,
            visit-cursor fuel (suc k) (omega arith) (omega arith),
          )
          (ap some (sym (drop-eq-cons k xs x e)))
    | no ge ↦
        rw (
          cursor-end q.size q.read_index (length xs) k (omega arith),
          drop-eq-nil k xs (omega arith),
        )
  ]

  -- On a ring that holds a list, the loop from begin() to end() ends within one more round than
  -- there are elements, and visits exactly the elements, oldest first.
  pub visit-begin : (fuel : ℕ) → length xs < fuel → visit fuel q (begin q) end ≡ some xs
  visit-begin fuel h = rw begin-cursor (visit-cursor fuel 0 (omega arith) (omega arith))
