-- ===== src/BinarySearchQueue.antt =====
-- include/datahandlinglibs/models/BinarySearchQueueModel.hpp and detail/BinarySearchQueueModel.hxx:
-- the ring searched by bisection over its two cursors.
pub mod Steps
pub mod Search
pub mod LowerBound
use datahandlinglibs.Base.{
  ℕ, zero, suc, ◌+◌, ◌-◌, ◌*◌, ◌/◌, ◌%◌, ◌^◌, ◌≤◌, ◌<◌, min, max, ◌≡◌, refl, sym, ap, ap₂, subst,
  ◌∙◌, ◌≢◌, ◌↔◌, ◌⊎◌, inl, inr, Bool, true, false, not, ◌&&◌, ◌||◌, Option, none, some, List, [],
  ◌∷◌, ◌++◌, map, append_assoc, append-nil, arith, ltb, leb, ◌==◌, if◌then◌else◌, ltb→lt, lt→ltb,
  ltb_ge, le→ltb, leb→le, ==_iff, Bool-cases, Option-cases, length, get_elem?, set, drop, take,
  replicate, length-append, length-set, length-replicate, length-drop, get_elem?-set_self,
  get_elem?-set_ne, get_elem?-replicate, get_elem?-none, get_elem?-some, get_elem?-append_left,
  get_elem?-append_right, get_elem?-drop, drop-eq-cons, drop-eq-nil, take-all, add32, sub32, add64,
  sub64, mul64,
}
use datahandlinglibs.Readout.{Readout}
use datahandlinglibs.IterableQueue.{Queue, slot_at}
use datahandlinglibs.IterableQueue.Iterator.{end}

-- `diff`: how far the right end lies behind the left one, round the ring.
abbrev pub distance : ℕ → ℕ → ℕ → ℕ
distance size start stop =
    if leb start stop then sub32 stop start else sub32 (add32 size stop) start

-- An index one round too far is brought back.
abbrev pub fold_back : ℕ → ℕ → ℕ
fold_back size i = if leb size i then sub32 i size else i

abbrev pub middle_index : ℕ → ℕ → ℕ → ℕ
middle_index size start stop = fold_back size (add32 start ((distance size start stop + 1) / 2))

-- `i != 0 ? i - 1 : size_ - 1`
abbrev pub index_before : ℕ → ℕ → ℕ
index_before size i = if i == 0 then size - 1 else i - 1

module _ {ℓ} {T : Type ℓ} (rt : Readout T) where
  -- The `while (true)` loop; `none` if it does not end within the fuel, or reads a slot in which
  -- no object lives.
  unfoldable pub bisect : ℕ → Queue T → T → ℕ → ℕ → Option ℕ
  bisect zero q e start stop = none
  bisect (suc fuel) q e start stop =
      let m = middle_index q.size start stop in
      let left = bisect fuel q e start (index_before q.size m) in
      let right = bisect fuel q e m stop in
      elim (slot_at q.records m) [
        | none ↦ none
        | some x ↦
            if rt.timestamp e == rt.timestamp x
            then some m
            else if distance q.size start stop == 0
            then some (if rt.less e x then m else fold_back q.size (add32 m 1))
            else if rt.less e x
            then left
            else right
      ]

  -- The iterator that the search returns. The fuel is the size of the ring.
  unfoldable pub lower_bound : Queue T → T → Option ℕ
  lower_bound q e =
      let found = bisect q.size q e q.read_index (index_before q.size q.write_index) in
      if q.read_index == q.write_index then some end else elim (slot_at q.records q.read_index) [
        | none ↦ none
        | some left ↦ if rt.less e left then some end else found
      ]
