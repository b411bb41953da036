-- ===== src/IterableQueue/Place.antt =====
-- Where the k-th element of the ring lies, and reads and writes of slots.
use datahandlinglibs.Base.{
  ℕ, suc, ◌+◌, ◌-◌, ◌^◌, ◌<◌, ◌≡◌, ◌≢◌, List, Option, arith, ltb, length, set, get_elem?-set_self,
  get_elem?-set_ne, if◌then◌else◌,
}
use datahandlinglibs.IterableQueue.{slot_at, next_record}

-- The index of the k-th slot after index `r`, in a ring of `size` slots.
abbrev pub place : ℕ → ℕ → ℕ → ℕ
place size r k = if ltb (r + k) size then r + k else r + k - size

pub place-lt : (size r k : ℕ) → r < size → k < size → place size r k < size
place-lt size r k hr hk = ground arith

pub place_zero : (size r : ℕ) → r < size → place size r 0 ≡ r
place_zero size r hr = ground arith

-- Different positions are different slots.
pub place-injective :
    (size r j k : ℕ) → r < size → j < size → k < size → place size r j ≡ place size r k → j ≡ k
place-injective size r j k hr hj hk e = ground arith

pub place-ne :
    (size r j k : ℕ) → r < size → j < size → k < size → j ≢ k → place size r j ≢ place size r k
place-ne size r j k hr hj hk ne e = ne (place-injective size r j k hr hj hk e)

-- The code's successor is the next place.
pub next_record-place :
    (size r k : ℕ)
    → size < 2 ^ 31
    → r < size
    → k + 1 < size
    → next_record size (place size r k) ≡ place size r (k + 1)
next_record-place size r k hs hr hk = ground arith

-- One round returns to the start.
pub next_record-last :
    (size r k : ℕ) → size < 2 ^ 31 → r < size → k + 1 ≡ size → next_record size (place size r k) ≡ r
next_record-last size r k hs hr hk = ground arith

pub place-next_record :
    (size r k : ℕ)
    → size < 2 ^ 31
    → r < size
    → k + 1 < size
    → place size (next_record size r) k ≡ place size r (suc k)
place-next_record size r k hs hr hk = ground arith

pub place-next_record_last :
    (size r k : ℕ) → size < 2 ^ 31 → r < size → k + 1 ≡ size → place size (next_record size r) k ≡ r
place-next_record_last size r k hs hr hk = ground arith

pub next_record-lt : (size r : ℕ) → size < 2 ^ 31 → r < size → next_record size r < size
next_record-lt size r hs hr = ground arith

module _ {ℓ} {T : Type ℓ} where
  pub slot_at-set_self :
      (rs : List (Option T)) (i : ℕ) (s : Option T) → i < length rs → slot_at (set rs i s) i ≡ s
  slot_at-set_self rs i s h = rw (get_elem?-set_self rs i s h, slot_at)

  pub slot_at-set_ne :
      (rs : List (Option T)) (i j : ℕ) (s : Option T)
      → i ≢ j
      → slot_at (set rs i s) j ≡ slot_at rs j
  slot_at-set_ne rs i j s h = rw (get_elem?-set_ne rs i j s h, slot_at)

pub place-suc-ne : (size r k : ℕ) → r < size → suc k < size → r ≢ place size r (suc k)
place-suc-ne size r k hr hk e = ground arith

pub next_record-place-suc :
    (size r k : ℕ)
    → size < 2 ^ 31
    → r < size
    → suc k < size
    → next_record size (place size r k) ≡ place size r (suc k)
next_record-place-suc size r k hs hr hk = ground arith
