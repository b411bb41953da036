-- ===== src/FixedRateQueue.antt =====
-- include/datahandlinglibs/models/FixedRateQueueModel.hpp and detail/FixedRateQueueModel.hxx: the
-- ring whose payloads come at a fixed rate, so that the place of a timestamp is computed.
pub mod Paced
pub mod Offset
pub mod LowerBound
use datahandlinglibs.Base.{
  ℕ, zero, suc, ◌+◌, ◌-◌, ◌*◌, ◌/◌, ◌%◌, ◌^◌, ◌≤◌, ◌<◌, min, max, ◌≡◌, refl, sym, ap, ap₂, subst,
  ◌∙◌, ◌≢◌, ◌↔◌, ◌⊎◌, inl, inr, Bool, true, false, not, ◌&&◌, ◌||◌, Option, none, some, List, [],
  ◌∷◌, ◌++◌, map, append_assoc, append-nil, arith, dec_lt, dec_le, ℕ_discrete, ltb, leb, ◌==◌,
  if◌then◌else◌, ltb→lt, lt→ltb, ltb_ge, le→ltb, leb→le, ==_iff, Bool-cases, Option-cases, ne→==,
  eq→==, length, get_elem?, set, drop, take, replicate, length-append, length-set, length-replicate,
  length-drop, get_elem?-set_self, get_elem?-set_ne, get_elem?-replicate, get_elem?-none,
  get_elem?-some, get_elem?-append_left, get_elem?-append_right, get_elem?-drop, drop-eq-cons,
  drop-eq-nil, take-all, add32, sub32, add64, sub64, mul64,
}
use datahandlinglibs.Readout.{Readout}
use datahandlinglibs.IterableQueue.{Queue, slot_at, occupancy}
use datahandlinglibs.IterableQueue.Iterator.{end}
use datahandlinglibs.BinarySearchQueue.{fold_back}
use datahandlinglibs.BinarySearchQueue

-- `target_index`: the start moved by the whole elements in `diff` ticks, and by one more if some
-- ticks are left. The ticks of one frame and the frames of one element are given.
abbrev pub target_index : ℕ → ℕ → ℕ → ℕ → ℕ
target_index start tick n_frames diff =
    let whole = add32 start (diff / tick / n_frames % 2 ^ 32) in
    if diff % mul64 tick n_frames == 0 then whole else add32 whole 1

module _ {ℓ} {T : Type ℓ} (rt : Readout T) where
  -- `newest_ts`, from the oldest element and the number of elements.
  abbrev pub newest_ts : T → ℕ → ℕ
  newest_ts x occupancy_guess =
      add64 (rt.timestamp x) (mul64 (mul64 occupancy_guess rt.tick) (rt.num_frames x))

  -- The iterator that the search returns; `none` if it reads a slot in which no object lives.
  unfoldable pub lower_bound : Queue T → T → Bool → Option ℕ
  lower_bound q e true = BinarySearchQueue.lower_bound rt q e
  lower_bound q e false = elim (slot_at q.records q.read_index) [
    | none ↦ none
    | some x ↦
        if ltb (rt.timestamp e) (rt.timestamp x) || ltb (newest_ts x (occupancy q)) (rt.timestamp e)
        then some end
        else some (
            fold_back q.size (
              target_index q.read_index rt.tick (rt.num_frames x)
                (sub64 (rt.timestamp e) (rt.timestamp x))))
  ]
