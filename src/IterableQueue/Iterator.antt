-- ===== src/IterableQueue/Iterator.antt =====
-- `IterableQueueModel<T>::Iterator`, `begin` and `end`: an iterator is the index `m_index`, and
-- the end is the largest `uint32_t`.
pub mod Cursor
use datahandlinglibs.Base.{
  ℕ, zero, suc, ◌+◌, ◌-◌, ◌*◌, ◌/◌, ◌%◌, ◌^◌, ◌≤◌, ◌<◌, min, max, ◌≡◌, refl, sym, ap, ap₂, subst,
  ◌∙◌, ◌≢◌, ◌↔◌, ◌⊎◌, inl, inr, Bool, true, false, not, ◌&&◌, ◌||◌, Option, none, some, List, [],
  ◌∷◌, ◌++◌, map, append_assoc, append-nil, arith, ltb, leb, ◌==◌, if◌then◌else◌, ltb→lt, lt→ltb,
  ltb_ge, le→ltb, leb→le, ==_iff, Bool-cases, Option-cases, length, get_elem?, set, drop, take,
  replicate, length-append, length-set, length-replicate, length-drop, get_elem?-set_self,
  get_elem?-set_ne, get_elem?-replicate, get_elem?-none, get_elem?-some, get_elem?-append_left,
  get_elem?-append_right, get_elem?-drop, drop-eq-cons, drop-eq-nil, take-all,
}
use datahandlinglibs.IterableQueue.{next_record, slot_at, Queue}
use mathlib.Core.Option

abbrev pub end : ℕ
end = 2 ^ 32 - 1

module _ {ℓ} {T : Type ℓ} where
  unfoldable pub good : Queue T → ℕ → Bool
  good q i =
      not (i == end)
      && (leb q.read_index i && ltb i q.write_index
          || (leb q.read_index i && ltb q.write_index q.read_index
              || ltb q.write_index q.read_index && ltb i q.read_index && ltb i q.write_index))

  -- `operator++()`.
  unfoldable pub next : Queue T → ℕ → ℕ
  next q i = let j = if good q i then next_record q.size i else i in if good q j then j else end

  -- `operator++(int amount)`: the iterator before, and after `amount` steps.
  unfoldable pub advance : ℕ → Queue T → ℕ → ℕ × ℕ
  advance zero q i = (i, i)
  advance (suc n) q i = (i, (advance n q (next q i)).1)

  unfoldable pub begin : Queue T → ℕ
  begin q = if q.read_index == q.write_index then end else q.read_index

  -- `for (; it != stop; ++it)`, and the objects that it visits: `none` if there is no end within
  -- the fuel, or if `*it` is no object.
  unfoldable pub visit : ℕ → Queue T → ℕ → ℕ → Option (List T)
  visit zero q i stop = none
  visit (suc fuel) q i stop =
      let rest = visit fuel q (next q i) stop in
      if i == stop
      then some []
      else elim (slot_at q.records i) [ none ↦ none | some x ↦ Option.map (◌∷◌ x) rest ]
