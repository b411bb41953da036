-- ===== src/Utils/RateLimiter.antt =====
-- `RateLimiter` of utils/RateLimiter.hpp. The clock is the list of its coming readings, and the
-- period in nanoseconds that `adjust` computes from the rate, a float quotient, is a parameter.
use datahandlinglibs.Base.{ℕ, Option, none, some, List, [], ◌∷◌, ltb, if◌then◌else◌, add64}

pub record Limiter : Type 0 where
  pub max_overshoot : ℕ
  pub period : ℕ
  pub now : ℕ
  pub deadline : ℕ

abbrev pub adjust : ℕ → Limiter → Limiter
adjust period l = record l { period = period }

abbrev pub init : ℕ → Limiter → Limiter
init t l = record l { now = t; deadline = add64 t l.period }

-- The sleep and the loop read the clock until it is not before the deadline; `none` out of
-- readings.
unfoldable pub wait : ℕ → List ℕ → Option ℕ
wait deadline [] = none
wait deadline (t ∷ ts) = let rest = wait deadline ts in if ltb t deadline then rest else some t

-- The deadline moves on by one period.
abbrev pub advance_to : ℕ → Limiter → Limiter
advance_to t l = record l { now = t; deadline = add64 l.deadline l.period }

unfoldable pub limit : List ℕ → Limiter → Option Limiter
unfolding wait
limit [] l = none
limit (t ∷ ts) l =
    if ltb (add64 l.deadline l.max_overshoot) t
    then some (init t l)
    else if ltb t l.deadline
    then elim (wait l.deadline ts) [ none ↦ none | some u ↦ some (advance_to u l) ]
    else some (advance_to t l)
