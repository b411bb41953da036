-- ===== src/BinarySearchQueue/Steps.antt =====
-- The index arithmetic of the search, by position in the ring.
use datahandlinglibs.Base.{ℕ, ◌+◌, ◌-◌, ◌/◌, ◌^◌, ◌≤◌, ◌<◌, ◌≡◌, arith, add32}
use datahandlinglibs.IterableQueue.Place.{place}
use datahandlinglibs.BinarySearchQueue.{distance, fold_back, middle_index, index_before}

module _ (size r : ℕ) (hs : size < 2 ^ 31) (hr : r < size) where
  pub distance-place :
      (a b : ℕ) → a ≤ b → b < size → distance size (place size r a) (place size r b) ≡ b - a
  distance-place a b h hb = ground arith

  pub fold_back-place :
      (a d : ℕ) → a + d < size → fold_back size (add32 (place size r a) d) ≡ place size r (a + d)
  fold_back-place a d h = ground arith

  pub middle_index-place :
      (a b : ℕ)
      → a ≤ b
      → b < size
      → middle_index size (place size r a) (place size r b) ≡ place size r (a + (b - a + 1) / 2)
  middle_index-place a b h hb =
      rw (distance-place a b h hb) (fold_back-place a ((b - a + 1) / 2) (omega arith))

  pub index_before-place :
      (m : ℕ) → 0 < m → m < size → index_before size (place size r m) ≡ place size r (m - 1)
  index_before-place m h hm = ground arith
