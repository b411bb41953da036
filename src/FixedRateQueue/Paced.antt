-- ===== src/FixedRateQueue/Paced.antt =====
-- Queues without gaps: every element stands one step behind the one before.
use datahandlinglibs.Base.{ℕ, zero, suc, ◌+◌, ◌*◌, ◌<◌, ◌≡◌, some, List, [], ◌∷◌, arith, get_elem?}
use datahandlinglibs.Readout.{Readout}
use datahandlinglibs.Readout.Order.{Ascending}

module _ {ℓ} {T : Type ℓ} (rt : Readout T) where
  -- Timestamps that start at `s` and grow by `step`.
  abbrev pub Paced : ℕ → ℕ → List T → Type 0
  Paced step s [] = Unit {0}
  Paced step s (x ∷ xs) = (rt.timestamp x ≡ s) × Paced step (s + step) xs

  pub Paced-timestamp :
      (step s : ℕ) (xs : List T) (i : ℕ) (a : T)
      → Paced step s xs
      → get_elem? xs i ≡ some a
      → rt.timestamp a ≡ s + i * step
  Paced-timestamp step s [] i a p e = cc
  Paced-timestamp step s (x ∷ xs) zero a p e = ground arith
  Paced-timestamp step s (x ∷ xs) (suc i) a p e =
      omega (arith, Paced-timestamp step (s + step) xs i a p.1 e)

  pub Paced-Ascending : (step s : ℕ) (xs : List T) → 0 < step → Paced step s xs → Ascending rt xs
  Paced-Ascending step s [] h p = tt
  Paced-Ascending step s (x ∷ []) h p = tt
  Paced-Ascending step s (x ∷ y ∷ xs) h p =
      (omega arith, Paced-Ascending step (s + step) (y ∷ xs) h p.1)
