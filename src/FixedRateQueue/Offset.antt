-- ===== src/FixedRateQueue/Offset.antt =====
-- How many steps lead from the oldest timestamp to a later one, rounded up.
use datahandlinglibs.Base.{
  ℕ, suc, ◌+◌, ◌*◌, ◌/◌, ◌%◌, ◌^◌, ◌≤◌, ◌<◌, ◌≡◌, subst, ◌≢◌, arith, dec_lt, ℕ_discrete, ◌==◌,
  if◌then◌else◌, ne→==, eq→==, add32,
}
use native.Mathlib.Nat.{div-add-mod', mod-lt, mul-le-mul_right, div-div-eq-div-mul, mod-eq_of_lt}
use datahandlinglibs.IterableQueue.Place.{place}
use datahandlinglibs.BinarySearchQueue.{fold_back}
use datahandlinglibs.FixedRateQueue.{target_index}

abbrev pub steps_to : ℕ → ℕ → ℕ
steps_to d step = if d % step == 0 then d / step else d / step + 1

steps_to_even : (d step : ℕ) → d % step ≡ 0 → steps_to d step ≡ d / step
steps_to_even d step h = rw (eq→== (d % step) 0 h)

steps_to_odd : (d step : ℕ) → d % step ≢ 0 → steps_to d step ≡ d / step + 1
steps_to_odd d step h = rw (ne→== (d % step) 0 h)

-- Quotient and remainder as plain numbers.
below_even : (q step i : ℕ) → 0 < step → i < q → i * step < q * step
below_even q step i pos h = omega (arith, mul-le-mul_right {m = suc i} {n = q} step h)

below_odd : (q r step i : ℕ) → r ≢ 0 → i < q + 1 → i * step < q * step + r
below_odd q r step i odd h = omega (arith, mul-le-mul_right {m = i} {n = q} step (omega arith))

module _ (step : ℕ) (pos : 0 < step) where
  pub steps_below : (d i : ℕ) → i < steps_to d step → i * step < d
  steps_below d i h = elim (ℕ_discrete (d % step) 0) [
    | yes even ↦ omega (
      arith,
      div-add-mod' d step,
      below_even (d / step) step i pos (subst (λ k. i < k) (steps_to_even d step even) h),
    )
    | no odd ↦ omega (
      arith,
      div-add-mod' d step,
      below_odd (d / step) (d % step) step i odd (subst (λ k. i < k) (steps_to_odd d step odd) h),
    )
  ]

  pub steps_above : (d : ℕ) → d ≤ steps_to d step * step
  steps_above d = elim (ℕ_discrete (d % step) 0) [
    | yes even ↦ rw (steps_to_even d step even) (omega (arith, div-add-mod' d step))
    | no odd ↦
        rw (steps_to_odd d step odd) (omega (arith, div-add-mod' d step, mod-lt d {m = step} pos))
  ]

  pub steps-le : (d n : ℕ) → d ≤ n * step → steps_to d step ≤ n
  steps-le d n h = elim (dec_lt n (steps_to d step)) [
    | yes lt ↦ absurd (omega (arith, steps_below d n lt))
    | no ge ↦ omega arith
  ]

module _ (size r : ℕ) (hs : size < 2 ^ 31) (hr : r < size) where
  fold_even : (k : ℕ) → k < size → fold_back size (add32 r (k % 2 ^ 32)) ≡ place size r k
  fold_even k h = ground arith

  fold_odd :
      (k : ℕ)
      → k + 1 < size
      → fold_back size (add32 (add32 r (k % 2 ^ 32)) 1) ≡ place size r (k + 1)
  fold_odd k h = ground arith

  -- The index that the code computes is the place that many steps behind the start.
  pub target_index-place :
      (tick n_frames d : ℕ)
      → tick * n_frames < 2 ^ 64
      → steps_to d (tick * n_frames) < size
      → fold_back size (target_index r tick n_frames d)
        ≡ place size r (steps_to d (tick * n_frames))
  target_index-place tick n_frames d hm h =
      rw (mod-eq_of_lt {n = tick * n_frames} {m = 2 ^ 64} hm, div-div-eq-div-mul d tick n_frames)
        (elim (ℕ_discrete (d % (tick * n_frames)) 0) [
          | yes even ↦ rw (eq→== (d % (tick * n_frames)) 0 even) (
              fold_even (d / (tick * n_frames))
                (subst (λ k. k < size) (steps_to_even d (tick * n_frames) even) h))
          | no odd ↦ rw (ne→== (d % (tick * n_frames)) 0 odd) (
              fold_odd (d / (tick * n_frames))
                (subst (λ k. k < size) (steps_to_odd d (tick * n_frames) odd) h))
        ])
