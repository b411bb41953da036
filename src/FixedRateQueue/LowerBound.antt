-- ===== src/FixedRateQueue/LowerBound.antt =====
-- In a queue without gaps the computed place is the one that the binary search finds.
use datahandlinglibs.Base.{
  ℕ, suc, ◌+◌, ◌-◌, ◌*◌, ◌^◌, ◌≤◌, ◌<◌, ◌≡◌, sym, ap, ◌∙◌, false, ◌||◌, some, List, ◌∷◌, arith,
  dec_lt, ℕ_discrete, ltb, if◌then◌else◌, lt→ltb, le→ltb, length, add64, sub64, mul64,
}
use native.Mathlib.Nat.{mod-eq_of_lt, mul_assoc, mul-le-mul_left}
use datahandlinglibs.Readout.{Readout, Laws}
use datahandlinglibs.Readout.Order.{Ascending, rank, rank-eq}
use datahandlinglibs.IterableQueue.{Queue, occupancy}
use datahandlinglibs.IterableQueue.Place.{place}
use datahandlinglibs.IterableQueue.Holds.{Holds}
use datahandlinglibs.IterableQueue.Refine.{oldest, occupancy_refines}
use datahandlinglibs.IterableQueue.Iterator.{end}
use datahandlinglibs.BinarySearchQueue.{fold_back}
use datahandlinglibs.BinarySearchQueue
use datahandlinglibs.BinarySearchQueue.LowerBound.{found, lower_bound_finds}
use datahandlinglibs.FixedRateQueue.{newest_ts, target_index, lower_bound}
use datahandlinglibs.FixedRateQueue.Paced.{Paced, Paced-timestamp, Paced-Ascending}
use datahandlinglibs.FixedRateQueue.Offset.{
  steps_to, steps_below, steps_above, steps-le, target_index-place,
}

product_lem :
    (n tick n_frames base : ℕ)
    → base + n * (tick * n_frames) < 2 ^ 64
    → 0 < tick * n_frames
    → add64 base (mul64 (mul64 n tick) n_frames) ≡ base + n * (tick * n_frames)
product_lem n tick n_frames base h pos =
    rw
      (
        mod-eq_of_lt {n = n * tick} {m = 2 ^ 64} small,
        mul_assoc n tick n_frames,
        mod-eq_of_lt {n = n * (tick * n_frames)} {m = 2 ^ 64} (omega arith),
      )
      (mod-eq_of_lt h)
  where
    frames : 0 < n_frames
    frames = grind arith

    grows : n * tick ≤ n * tick * n_frames
    grows = omega (arith, mul-le-mul_left {m = 1} {n = n_frames} (n * tick) frames)

    small : n * tick < 2 ^ 64
    small = omega (arith, grows, mul_assoc n tick n_frames)

-- `timestamp - last_ts` does not wrap.
ticks_lem : (t s : ℕ) → s ≤ t → t < 2 ^ 64 → sub64 t s ≡ t - s
ticks_lem t s h k = omega arith

module _ {ℓ} {T : Type ℓ} (rt : Readout T) where
  -- The ticks from one element to the next.
  abbrev pub step_of : T → ℕ
  step_of x = rt.tick * rt.num_frames x

  -- A ring that holds elements without gaps, with timestamps that do not wrap.
  pub record Steady (q : Queue T) (x : T) (xs : List T) : Type ℓ where
    pub holds : Holds q (x ∷ xs)
    pub moves : 0 < step_of x
    pub paced : Paced rt (step_of x) (rt.timestamp x) (x ∷ xs)
    pub no_wrap : rt.timestamp x + suc (length xs) * step_of x < 2 ^ 64

  module _ (q : Queue T) (x : T) (xs : List T) (s : Steady q x xs) where
    newest_lem : newest_ts rt x (occupancy q) ≡ rt.timestamp x + suc (length xs) * step_of x
    newest_lem =
        rw (occupancy_refines s.holds) (
          product_lem (suc (length xs)) rt.tick (rt.num_frames x) (rt.timestamp x) s.no_wrap
            s.moves)

    rank_lem :
        (t : ℕ)
        → rt.timestamp x ≤ t
        → t ≤ rt.timestamp x + suc (length xs) * step_of x
        → rank rt t (x ∷ xs) ≡ steps_to (t - rt.timestamp x) (step_of x)
    rank_lem t lo hi =
        rank-eq rt t (x ∷ xs) (steps_to (t - rt.timestamp x) (step_of x))
          (steps-le (step_of x) s.moves (t - rt.timestamp x) (suc (length xs)) (omega arith))
          (λ i a h e. omega (
            arith,
            steps_below (step_of x) s.moves (t - rt.timestamp x) i h,
            Paced-timestamp rt (step_of x) (rt.timestamp x) (x ∷ xs) i a s.paced e,
          ))
          (λ a e. omega (
            arith,
            steps_above (step_of x) s.moves (t - rt.timestamp x),
            Paced-timestamp rt (step_of x) (rt.timestamp x) (x ∷ xs)
                (steps_to (t - rt.timestamp x) (step_of x)) a s.paced e,
          ))

    computed :
        (e : T)
        → rt.timestamp x ≤ rt.timestamp e
        → rt.timestamp e ≤ rt.timestamp x + suc (length xs) * step_of x
        → fold_back q.size (
            target_index q.read_index rt.tick
              (rt.num_frames x)
              (sub64 (rt.timestamp e) (rt.timestamp x)))
          ≡ place q.size q.read_index (rank rt (rt.timestamp e) (x ∷ xs))
    computed e lo hi =
        rw
          (
            ticks_lem (rt.timestamp e) (rt.timestamp x) lo (omega (arith, s.no_wrap)),
            rank_lem (rt.timestamp e) lo hi,
          )
          (target_index-place q.size q.read_index s.holds.small s.holds.read_in rt.tick
            (rt.num_frames x) (rt.timestamp e - rt.timestamp x) (omega (arith, s.no_wrap))
            (omega (
              arith,
              s.holds.fits,
              steps-le (step_of x) s.moves (rt.timestamp e - rt.timestamp x) (suc (length xs))
                  (omega arith),
            )))

    -- On a ring that holds payloads one step apart with timestamps that do not wrap, the fixed-rate
    -- search without errors returns the end for an element before the oldest payload or after the
    -- end of the span, and else the place of the first payload that is not older.
    pub lower_bound_lem :
        (e : T)
        → lower_bound rt q e false
          ≡ some (
              if ltb (rt.timestamp e) (rt.timestamp x)
                || ltb (rt.timestamp x + suc (length xs) * step_of x) (rt.timestamp e)
              then end
              else place q.size q.read_index (rank rt (rt.timestamp e) (x ∷ xs)))
    unfolding lower_bound
    lower_bound_lem e =
        rw (oldest q x xs s.holds, newest_lem, lower_bound)
          (elim (dec_lt (rt.timestamp e) (rt.timestamp x)) [
            | yes early ↦ rw (lt→ltb _ _ early)
            | no lo ↦
                elim (dec_lt (rt.timestamp x + suc (length xs) * step_of x) (rt.timestamp e)) [
                  | yes late ↦
                      rw (le→ltb (rt.timestamp e) (rt.timestamp x) (omega arith), lt→ltb _ _ late)
                  | no hi ↦
                      rw
                        (
                          le→ltb (rt.timestamp e) (rt.timestamp x) (omega arith),
                          le→ltb (rt.timestamp x + suc (length xs) * step_of x) (rt.timestamp e)
                              (omega arith),
                        )
                        (ap some (computed e (omega arith) (omega arith)))
                ]
          ])

  not_before :
      (laws : Laws rt) (x e : T)
      → rt.timestamp x ≤ rt.timestamp e
      → (rt.timestamp e ≡ rt.timestamp x → rt.less e x ≡ false)
      → rt.less e x ≡ false
  not_before laws x e h tie = elim (ℕ_discrete (rt.timestamp e) (rt.timestamp x)) [
    | yes same ↦ tie same
    | no differ ↦ laws.less_of_gt e x (omega arith)
  ]

  -- On a ring that holds payloads one step apart with timestamps that do not wrap, for an element
  -- within the span, and not less than the oldest payload where the timestamps are equal, the
  -- fixed-rate search returns the iterator of the binary search.
  pub lower_bound-eq-binary :
      (laws : Laws rt) (q : Queue T) (x : T) (xs : List T) (e : T)
      → Steady q x xs
      → rt.timestamp e ≤ rt.timestamp x + suc (length xs) * step_of x
      → (rt.timestamp e ≡ rt.timestamp x → rt.less e x ≡ false)
      → lower_bound rt q e false ≡ BinarySearchQueue.lower_bound rt q e
  lower_bound-eq-binary laws q x xs e s hi tie =
      lower_bound_lem q x xs s e
      ∙ ap some same
      ∙ sym (lower_bound_finds rt laws q (x ∷ xs) e s.holds ascending)
    where
      ascending : Ascending rt (x ∷ xs)
      ascending = Paced-Ascending rt (step_of x) (rt.timestamp x) (x ∷ xs) s.moves s.paced

      same :
          (if ltb (rt.timestamp e) (rt.timestamp x)
              || ltb (rt.timestamp x + suc (length xs) * step_of x) (rt.timestamp e)
            then end
            else place q.size q.read_index (rank rt (rt.timestamp e) (x ∷ xs)))
          ≡ found rt q (x ∷ xs) e
      same = elim (dec_lt (rt.timestamp e) (rt.timestamp x)) [
        | yes lt ↦ rw (laws.less_of_lt e x lt, lt→ltb (rt.timestamp e) (rt.timestamp x) lt)
        | no ge ↦ rw (
          not_before laws x e (omega arith) tie,
          le→ltb (rt.timestamp e) (rt.timestamp x) (omega arith),
          le→ltb (rt.timestamp x + suc (length xs) * step_of x) (rt.timestamp e) hi,
        )
      ]
