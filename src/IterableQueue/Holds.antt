-- ===== src/IterableQueue/Holds.antt =====
-- The well-formedness invariant of a queue: which list of elements it holds.
use datahandlinglibs.Base.{
  ℕ, ◌+◌, ◌≤◌, ◌<◌, ◌^◌, ◌≡◌, refl, List, [], Option, none, arith, length, get_elem?,
  length-replicate, get_elem?-replicate, replicate,
}
use datahandlinglibs.IterableQueue.{Queue, Storage, slot_at, sized}
use datahandlinglibs.IterableQueue.Place.{place}

-- `q` holds `xs`, oldest first: the object at the k-th place from the read index is the k-th
-- element, and every other slot is raw memory.
pub record Holds {ℓ} {T : Type ℓ} (q : Queue T) (xs : List T) : Type ℓ where
  pub owns : q.storage ≡ Storage.owned
  pub two : 2 ≤ q.size
  pub small : q.size < 2 ^ 31
  pub room : length q.records ≡ q.size
  pub read_in : q.read_index < q.size
  pub fits : length xs + 1 ≤ q.size
  pub write_at : q.write_index ≡ place q.size q.read_index (length xs)
  pub slots :
      (k : ℕ) → k < q.size → slot_at q.records (place q.size q.read_index k) ≡ get_elem? xs k

module _ {ℓ} {T : Type ℓ} where
  slot_at-raw : (n i : ℕ) → i < n → slot_at {T = T} (replicate n none) i ≡ none
  slot_at-raw n i h = rw (get_elem?-replicate {A = Option T} n i none h, slot_at)

  -- A new queue holds nothing.
  pub sized-Holds : (n : ℕ) → 2 ≤ n → n < 2 ^ 31 → Holds (sized {T = T} n) []
  unfolding sized
  sized-Holds n two small = record {
    owns = refl;
    two = omega arith;
    small = omega arith;
    room = omega (arith, length-replicate {A = Option T} n none);
    read_in = omega arith;
    fits = omega arith;
    write_at = ground arith;
    slots = λ k h. slot_at-raw n _ (ground arith);
  }
