-- ===== src/BinarySearchQueue/Search.antt =====
-- The search ends and returns the place of the lower bound.
use datahandlinglibs.Base.{
  ℕ, zero, suc, ◌+◌, ◌-◌, ◌/◌, ◌≤◌, ◌<◌, ◌≡◌, sym, ap, subst, ◌∙◌, ◌≢◌, some, List, arith, dec_lt,
  ℕ_discrete, ◌==◌, if◌then◌else◌, ==_iff, ne→==, eq→==, length, get_elem?, get_elem?-some,
}
use datahandlinglibs.Readout.{Readout, Laws}
use datahandlinglibs.Readout.Order.{Ascending-lt, Ascending, rank, rank-eq}
use datahandlinglibs.IterableQueue.{Queue, slot_at}
use datahandlinglibs.IterableQueue.Place.{place}
use datahandlinglibs.IterableQueue.Holds.{Holds}
use datahandlinglibs.BinarySearchQueue.{middle_index, index_before, bisect}
use datahandlinglibs.BinarySearchQueue.Steps.{
  index_before-place, distance-place, fold_back-place, middle_index-place,
}

-- The position in the middle.
abbrev pub halfway : ℕ → ℕ → ℕ
halfway a b = a + (b - a + 1) / 2

module _ {ℓ} {T : Type ℓ} (rt : Readout T) (laws : Laws rt) (q : Queue T) (xs : List T)
    (v : Holds q xs) (asc : Ascending rt xs) (e : T) where
  abbrev pub spot : ℕ → ℕ
  spot k = place q.size q.read_index k

  -- The rank of `e` at a position whose neighbours are known.
  rank_at :
      (p : ℕ)
      → p ≤ length xs
      → ((i : ℕ) (a : T) → i < p → get_elem? xs i ≡ some a → rt.timestamp a < rt.timestamp e)
      → ((a : T) → get_elem? xs p ≡ some a → rt.timestamp e ≤ rt.timestamp a)
      → spot p ≡ spot (rank rt (rt.timestamp e) xs)
  rank_at p h below above = ap spot (sym (rank-eq rt (rt.timestamp e) xs p h below above))

  slot_middle :
      (a b : ℕ) (x : T)
      → a ≤ b
      → b < length xs
      → get_elem? xs (halfway a b) ≡ some x
      → slot_at q.records (middle_index q.size (spot a) (spot b)) ≡ some x
  slot_middle a b x h hb ex =
      ap (slot_at q.records)
        (middle_index-place q.size q.read_index v.small v.read_in a b h (omega (arith, v.fits)))
      ∙ v.slots (halfway a b) (omega (arith, v.fits))
      ∙ ex

  -- One round of the loop, by position.
  bisect_round :
      (fuel a b : ℕ) (x : T)
      → a ≤ b
      → b < length xs
      → get_elem? xs (halfway a b) ≡ some x
      → bisect rt (suc fuel) q e (spot a) (spot b) ≡ (
          if rt.timestamp e == rt.timestamp x
          then some (spot (halfway a b))
          else if (b - a) == 0
          then some (if rt.less e x then spot (halfway a b) else spot (halfway a b + 1))
          else if rt.less e x
          then bisect rt fuel q e (spot a) (index_before q.size (spot (halfway a b)))
          else bisect rt fuel q e (spot (halfway a b)) (spot b))
  unfolding bisect
  bisect_round fuel a b x h hb ex = rw (
    slot_middle a b x h hb ex,
    bisect,
    middle_index-place q.size q.read_index v.small v.read_in a b h (omega (arith, v.fits)),
    distance-place q.size q.read_index v.small v.read_in a b h (omega (arith, v.fits)),
    fold_back-place q.size q.read_index v.small v.read_in (halfway a b) 1 (omega (arith, v.fits)),
  )

  abbrev pub target : ℕ
  target = spot (rank rt (rt.timestamp e) xs)

  -- With the element at `a` not younger and the one behind `b` younger, the loop ends at the rank.
  abbrev pub Finds : ℕ → Type ℓ
  Finds fuel =
      (a b : ℕ)
      → a ≤ b
      → b < length xs
      → b - a < fuel
      → ((y : T) → get_elem? xs a ≡ some y → rt.timestamp y ≤ rt.timestamp e)
      → ((y : T) → get_elem? xs (suc b) ≡ some y → rt.timestamp e < rt.timestamp y)
      → bisect rt fuel q e (spot a) (spot b) ≡ some target

  older :
      (k : ℕ) (x : T)
      → get_elem? xs k ≡ some x
      → rt.timestamp x ≤ rt.timestamp e
      → (i : ℕ) (y : T) → i < k
      → get_elem? xs i ≡ some y
      → rt.timestamp y < rt.timestamp e
  older k x ex le i y hi ey = omega (arith, Ascending-lt rt xs i k y x asc hi ey ex)

  older_or_same :
      (k : ℕ) (x : T)
      → get_elem? xs k ≡ some x
      → rt.timestamp x < rt.timestamp e
      → (i : ℕ) (y : T) → i < k + 1
      → get_elem? xs i ≡ some y
      → rt.timestamp y < rt.timestamp e
  older_or_same k x ex lt i y hi ey = elim (ℕ_discrete i k) [
    | yes same ↦ ground arith
    | no differ ↦ older k x ex (omega arith) i y (omega arith) ey
  ]

  -- The timestamp in the middle is the one looked for.
  round_hit :
      (fuel a b : ℕ) (x : T)
      → a ≤ b
      → b < length xs
      → get_elem? xs (halfway a b) ≡ some x
      → rt.timestamp e ≡ rt.timestamp x
      → bisect rt (suc fuel) q e (spot a) (spot b) ≡ some target
  round_hit fuel a b x h hb ex same =
      bisect_round fuel a b x h hb ex
      ∙ rw ((==_iff (rt.timestamp e) (rt.timestamp x)).1 same) (
          ap some (
            rank_at (halfway a b) (omega arith) (older (halfway a b) x ex (omega arith))
              (λ y ey. ground arith)))

  -- One element is left, and it is older.
  round_last :
      (fuel a : ℕ) (x : T)
      → a < length xs
      → get_elem? xs a ≡ some x
      → rt.timestamp x < rt.timestamp e
      → ((y : T) → get_elem? xs (suc a) ≡ some y → rt.timestamp e < rt.timestamp y)
      → bisect rt (suc fuel) q e (spot a) (spot a) ≡ some target
  round_last fuel a x ha ex lt high =
      bisect_round fuel a a x (omega arith) ha ex'
      ∙ rw
          (
            ne→== (rt.timestamp e) (rt.timestamp x) (omega arith),
            eq→== (a - a) 0 (omega arith),
            laws.less_of_gt e x lt,
            mid,
          )
          (ap some (
            rank_at (a + 1) (omega arith) (older_or_same a x ex lt) (λ y ey.
              omega (arith, high y (subst (λ k. get_elem? xs k ≡ some y) (omega arith) ey)))))
    where
      mid : halfway a a ≡ a
      mid = omega arith

      ex' : get_elem? xs (halfway a a) ≡ some x
      ex' = rw mid ex

  -- More than one element is left, and the middle one is younger.
  round_left :
      (fuel a b : ℕ) (x : T)
      → a < b
      → b < length xs
      → get_elem? xs (halfway a b) ≡ some x
      → rt.timestamp e < rt.timestamp x
      → bisect rt (suc fuel) q e (spot a) (spot b)
        ≡ bisect rt fuel q e (spot a) (spot (halfway a b - 1))
  round_left fuel a b x h hb ex lt =
      bisect_round fuel a b x (omega arith) hb ex
      ∙ rw (
        ne→== (rt.timestamp e) (rt.timestamp x) (omega arith),
        ne→== (b - a) 0 (omega arith),
        laws.less_of_lt e x lt,
        index_before-place q.size q.read_index v.small v.read_in (halfway a b) (omega arith)
            (omega (arith, v.fits)),
      )

  -- More than one element is left, and the middle one is older.
  round_right :
      (fuel a b : ℕ) (x : T)
      → a < b
      → b < length xs
      → get_elem? xs (halfway a b) ≡ some x
      → rt.timestamp x < rt.timestamp e
      → bisect rt (suc fuel) q e (spot a) (spot b)
        ≡ bisect rt fuel q e (spot (halfway a b)) (spot b)
  round_right fuel a b x h hb ex lt =
      bisect_round fuel a b x (omega arith) hb ex
      ∙ rw (
        ne→== (rt.timestamp e) (rt.timestamp x) (omega arith),
        ne→== (b - a) 0 (omega arith),
        laws.less_of_gt e x lt,
      )

  step_left :
      (fuel a b : ℕ) (x : T)
      → Finds fuel
      → a < b
      → b < length xs
      → b - a < suc fuel
      → ((y : T) → get_elem? xs a ≡ some y → rt.timestamp y ≤ rt.timestamp e)
      → get_elem? xs (halfway a b) ≡ some x
      → rt.timestamp e < rt.timestamp x
      → bisect rt (suc fuel) q e (spot a) (spot b) ≡ some target
  step_left fuel a b x ih h hb hf low ex lt =
      round_left fuel a b x h hb ex lt
      ∙ ih a (halfway a b - 1) (omega arith) (omega arith) (omega arith) low
          (λ y ey. younger y (subst (λ k. get_elem? xs k ≡ some y) (omega arith) ey))
    where
      younger : (y : T) → get_elem? xs (halfway a b) ≡ some y → rt.timestamp e < rt.timestamp y
      younger y ey = ground arith

  step_right :
      (fuel a b : ℕ) (x : T)
      → Finds fuel
      → a < b
      → b < length xs
      → b - a < suc fuel
      → ((y : T) → get_elem? xs (suc b) ≡ some y → rt.timestamp e < rt.timestamp y)
      → get_elem? xs (halfway a b) ≡ some x
      → rt.timestamp x < rt.timestamp e
      → bisect rt (suc fuel) q e (spot a) (spot b) ≡ some target
  step_right fuel a b x ih h hb hf high ex lt =
      round_right fuel a b x h hb ex lt
      ∙ ih (halfway a b) b (omega arith) hb (omega arith) (λ y ey. ground arith) high

  step_single :
      (fuel a b : ℕ) (x : T)
      → a ≡ b
      → a < length xs
      → get_elem? xs (halfway a b) ≡ some x
      → ((y : T) → get_elem? xs a ≡ some y → rt.timestamp y ≤ rt.timestamp e)
      → ((y : T) → get_elem? xs (suc b) ≡ some y → rt.timestamp e < rt.timestamp y)
      → rt.timestamp e ≢ rt.timestamp x
      → bisect rt (suc fuel) q e (spot a) (spot b) ≡ some target
  step_single fuel a b x same ha ex low high differ = rw (← same) (
      round_last fuel a x ha at_a (omega (arith, low x at_a)) (
        subst (λ k. (y : T) → get_elem? xs (suc k) ≡ some y → rt.timestamp e < rt.timestamp y)
          (sym same) high))
    where
      at_a : get_elem? xs a ≡ some x
      at_a = subst (λ k. get_elem? xs k ≡ some x) (omega arith) ex

  step : (fuel : ℕ) → Finds fuel → Finds (suc fuel)
  step fuel ih a b h hb hf low high =
      let (x, ex) = get_elem?-some xs (halfway a b) (omega arith) in
      elim (ℕ_discrete (rt.timestamp e) (rt.timestamp x)) [
        | yes same ↦ round_hit fuel a b x h hb ex same
        | no differ ↦ elim (dec_lt a b) [
          | no last ↦ step_single fuel a b x (omega arith) (omega arith) ex low high differ
          | yes more ↦ elim (dec_lt (rt.timestamp e) (rt.timestamp x)) [
            | yes lt ↦ step_left fuel a b x ih more hb hf low ex lt
            | no ge ↦ step_right fuel a b x ih more hb hf high ex (omega arith)
          ]
        ]
      ]

  pub bisect_finds : (fuel : ℕ) → Finds fuel
  bisect_finds zero = λ a b h hb hf low high. elim hf [ ]
  bisect_finds (suc fuel) = step fuel (bisect_finds fuel)
