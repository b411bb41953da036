-- ===== src/Readout/Order.antt =====
-- Lists in the order of their timestamps, and the position of the first element not before a time.
use datahandlinglibs.Base.{
  ℕ, zero, suc, ◌≤◌, ◌<◌, ◌≡◌, refl, some, List, [], ◌∷◌, arith, ltb, if◌then◌else◌, length,
  get_elem?,
}
use datahandlinglibs.Readout.{Readout}

module _ {ℓ} {T : Type ℓ} (rt : Readout T) where
  -- Every element is younger than the one before.
  abbrev pub Ascending : List T → Type 0
  Ascending [] = Unit {0}
  Ascending (x ∷ []) = Unit {0}
  Ascending (x ∷ y ∷ xs) = (rt.timestamp x < rt.timestamp y) × Ascending (y ∷ xs)

  -- How many elements stand before the first that is not older than `t`: `std::lower_bound`.
  abbrev pub rank : ℕ → List T → ℕ
  rank t [] = 0
  rank t (x ∷ xs) = if ltb (rt.timestamp x) t then suc (rank t xs) else 0

  pub Ascending-tail : (x : T) (xs : List T) → Ascending (x ∷ xs) → Ascending xs
  Ascending-tail x [] a = tt
  Ascending-tail x (y ∷ xs) a = a.1

  head-lt :
      (x : T) (xs : List T) (j : ℕ) (b : T)
      → Ascending (x ∷ xs)
      → get_elem? xs j ≡ some b
      → rt.timestamp x < rt.timestamp b
  head-lt x [] j b a e = cc
  head-lt x (y ∷ xs) zero b a e = ground arith
  head-lt x (y ∷ xs) (suc j) b a e = omega (arith, head-lt y xs j b a.1 e)

  pub Ascending-lt :
      (xs : List T) (i j : ℕ) (a b : T)
      → Ascending xs
      → i < j
      → get_elem? xs i ≡ some a
      → get_elem? xs j ≡ some b
      → rt.timestamp a < rt.timestamp b
  Ascending-lt [] i j a b asc h ei ej = cc
  Ascending-lt (x ∷ xs) i zero a b asc h ei ej = elim h [ ]
  Ascending-lt (x ∷ xs) zero (suc j) a b asc h ei ej = ground (arith, head-lt x xs j b asc ej)
  Ascending-lt (x ∷ xs) (suc i) (suc j) a b asc h ei ej =
      Ascending-lt xs i j a b (Ascending-tail x xs asc) (omega arith) ei ej

  pub rank-le : (t : ℕ) (xs : List T) → rank t xs ≤ length xs
  rank-le t [] = omega arith
  rank-le t (x ∷ xs) = ground (arith, rank-le t xs)

  -- The rank is the one position with only older elements before it and no older one behind.
  pub rank-eq :
      (t : ℕ) (xs : List T) (p : ℕ)
      → p ≤ length xs
      → ((i : ℕ) (a : T) → i < p → get_elem? xs i ≡ some a → rt.timestamp a < t)
      → ((a : T) → get_elem? xs p ≡ some a → t ≤ rt.timestamp a)
      → rank t xs ≡ p
  rank-eq t [] p h below above = omega arith
  rank-eq t (x ∷ xs) zero h below above = ground (arith, above x refl)
  rank-eq t (x ∷ xs) (suc p) h below above = ground (
    arith,
    below 0 x (omega arith) refl,
    rank-eq t xs p (omega arith) (λ i a l e. below (suc i) a (omega arith) e) above,
  )
