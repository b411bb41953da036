-- ===== src/IterableQueue/Fifo.antt =====
-- What the queue promises: a bounded first-in first-out list. `capacity` elements fit; a write to a
-- full queue is refused; a read of an empty one gives nothing; popping more than there is aborts.
use datahandlinglibs.Base.{
  ℕ, zero, suc, List, [], ◌∷◌, ◌++◌, Option, none, some, Bool, true, false, length, get_elem?, ltb,
  ◌==◌, if◌then◌else◌,
}

-- A call of the consumer or of the producer.
pub data Call {ℓ} (T : Type ℓ) : Type ℓ where
  write : T → Call T
  read : Call T
  pop : ℕ → Call T
  flush is_empty is_full occupancy front back : Call T

-- What a call gives its caller; `failed` is an assertion that does not hold.
pub data Reply {ℓ} (T : Type ℓ) : Type ℓ where
  done failed : Reply T
  flag : Bool → Reply T
  got : Bool → Option T → Reply T
  count : ℕ → Reply T
  element : Option T → Reply T

module _ {ℓ} {T : Type ℓ} where
  abbrev pub last : List T → Option T
  last [] = none
  last (x ∷ []) = some x
  last (x ∷ y ∷ xs) = last (y ∷ xs)

  abbrev pub fifo_write : ℕ → List T → T → Bool × List T
  fifo_write cap xs x = if ltb (length xs) cap then (true, xs ++ (x ∷ [])) else (false, xs)

  abbrev pub fifo_read : List T → Bool × Option T × List T
  fifo_read [] = (false, none, [])
  fifo_read (x ∷ xs) = (true, some x, xs)

  abbrev pub fifo_pop : ℕ → List T → Option (List T)
  fifo_pop zero xs = some xs
  fifo_pop (suc n) [] = none
  fifo_pop (suc n) (x ∷ xs) = fifo_pop n xs

  abbrev pub fifo_after : ℕ → List T → Call T → Reply T × List T
  fifo_after cap xs (write x) = let (b, ys) = fifo_write cap xs x in (flag b, ys)
  fifo_after cap xs read = let (b, x, ys) = fifo_read xs in (got b x, ys)
  fifo_after cap xs (pop n) = elim (fifo_pop n xs) [ none ↦ (failed, xs) | some ys ↦ (done, ys) ]
  fifo_after cap xs flush = (done, [])
  fifo_after cap xs is_empty = (flag (length xs == 0), xs)
  fifo_after cap xs is_full = (flag (length xs == cap), xs)
  fifo_after cap xs occupancy = (count (length xs), xs)
  fifo_after cap xs front = (element (get_elem? xs 0), xs)
  fifo_after cap xs back = (element (last xs), xs)

  -- The replies to a sequence of calls.
  unfoldable pub fifo_run : ℕ → List T → List (Call T) → List (Reply T)
  fifo_run cap xs [] = []
  fifo_run cap xs (c ∷ cs) = let (r, ys) = fifo_after cap xs c in r ∷ fifo_run cap ys cs
