-- ===== src/DataHandling/Deferred.antt =====
-- detail/DataHandlingModel.hxx, the deferred post-processing at the end of a round of `run_consume`,
-- on the ring with binary search.
pub mod Slice
pub mod Round
use datahandlinglibs.Base.{
  ℕ, zero, suc, ◌+◌, ◌-◌, ◌*◌, ◌/◌, ◌%◌, ◌^◌, ◌≤◌, ◌<◌, min, max, ◌≡◌, refl, sym, ap, ap₂, subst,
  ◌∙◌, ◌≢◌, ◌↔◌, ◌⊎◌, inl, inr, Bool, true, false, not, ◌&&◌, ◌||◌, Option, none, some, List, [],
  ◌∷◌, ◌++◌, map, append_assoc, append-nil, arith, dec_lt, dec_le, ℕ_discrete, ltb, leb, ◌==◌,
  if◌then◌else◌, ltb→lt, lt→ltb, ltb_ge, le→ltb, leb→le, ==_iff, Bool-cases, Option-cases, ne→==,
  eq→==, ◌>>=◌, le→leb, leb_gt, bind-some, if-both, length, get_elem?, set, drop, take, replicate,
  length-append, length-set, length-replicate, length-drop, get_elem?-set_self, get_elem?-set_ne,
  get_elem?-replicate, get_elem?-none, get_elem?-some, get_elem?-append_left,
  get_elem?-append_right, get_elem?-drop, drop-eq-cons, drop-eq-nil, take-all, get_elem?-in_range,
  length-take, length-take_le, add32, sub32, add64, sub64, mul64,
}
use datahandlinglibs.Readout.{Readout}
use datahandlinglibs.IterableQueue
use datahandlinglibs.IterableQueue.{Queue}
use datahandlinglibs.IterableQueue.Iterator
use datahandlinglibs.BinarySearchQueue.{lower_bound}

-- `first_cycle` and `processed_element`.
pub record Deferral (T : Type 0) : Type 0 where
  pub first_cycle : Bool
  pub processed_element : T

module _ {T : Type 0} (rt : Readout T) where
  -- The first cycle starts at the oldest payload.
  unfoldable pub begin_cycle : Queue T → Deferral T → Option (Deferral T)
  begin_cycle q d =
      if d.first_cycle
      then (IterableQueue.deref q (IterableQueue.front q) >>= λ head. some (record {
        first_cycle = false;
        processed_element = rt.set_timestamp d.processed_element (rt.timestamp head);
      }))
      else some d

  -- The payloads from the last one post-processed to the end of the window, and the element that
  -- stands for this end.
  unfoldable pub process_window : ℕ → Queue T → ℕ → Deferral T → Option (List T × Deferral T)
  process_window fuel q end_win_ts d =
      let next = rt.set_timestamp d.processed_element end_win_ts in
      lower_bound rt q d.processed_element >>= λ start_iter. lower_bound rt q next >>= λ end_iter.
      Iterator.visit fuel q start_iter end_iter >>= λ payloads.
      some (payloads, record d { processed_element = next })

  -- What is post-processed in a round, `elapsed` milliseconds after the last time. No result: a
  -- payload is read that is not there, or a loop does not end within the fuel.
  unfoldable pub deferred_round : ℕ → ℕ → ℕ → Queue T → Deferral T → Option (List T × Deferral T)
  unfolding begin_cycle process_window
  deferred_round fuel delay elapsed q d =
      if not (delay == 0) && ltb 0 (IterableQueue.occupancy q) && ltb 1 elapsed
      then (IterableQueue.deref q (IterableQueue.back q) >>= λ tail. begin_cycle q d >>= λ begun.
          if ltb delay (sub64 (rt.timestamp tail) (rt.timestamp begun.processed_element))
          then process_window fuel q (sub64 (rt.timestamp tail) delay) begun
          else some ([], begun))
      else some ([], d)
