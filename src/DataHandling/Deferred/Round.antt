-- ===== src/DataHandling/Deferred/Round.antt =====
-- detail/DataHandlingModel.hxx: a round of the deferred post-processing whose time has come.
use datahandlinglibs.Base.{
  ℕ, ◌+◌, ◌-◌, ◌^◌, ◌≤◌, ◌<◌, ◌≡◌, refl, ◌∙◌, true, false, none, some, List, ◌∷◌, arith, lt→ltb,
  ne→==, length, sub64,
}
use datahandlinglibs.Readout.{Readout, Laws}
use datahandlinglibs.Readout.Order.{Ascending}
use datahandlinglibs.IterableQueue.{Queue}
use datahandlinglibs.IterableQueue.Holds.{Holds}
use datahandlinglibs.IterableQueue.Fifo.{last}
use datahandlinglibs.IterableQueue.Refine.{occupancy_refines, back_refines}
use datahandlinglibs.DataHandling.Deferred.{Deferral, begin_cycle, process_window, deferred_round}
use datahandlinglibs.DataHandling.Deferred.Slice.{window, window_lem, window-before, not_younger}

difference : (a b : ℕ) → b ≤ a → a < 2 ^ 64 → sub64 a b ≡ a - b
difference a b h k = omega arith

module _ {T : Type 0} (rt : Readout T) (laws : Laws rt) (q : Queue T) (x t : T) (xs : List T)
    (d begun : Deferral T) (fuel delay elapsed : ℕ) where
  -- What a round comes to when the newest payload is further than the delay from the last one
  -- post-processed.
  due :
      Holds q (x ∷ xs)
      → last (x ∷ xs) ≡ some t
      → rt.timestamp t < 2 ^ 64
      → 0 < delay
      → 1 < elapsed
      → begin_cycle rt q d ≡ some begun
      → rt.timestamp begun.processed_element + delay < rt.timestamp t
      → deferred_round rt fuel delay elapsed q d
        ≡ process_window rt fuel q (rt.timestamp t - delay) begun
  unfolding deferred_round
  due v newest small wait late begins far =
      let from = rt.timestamp begun.processed_element in
      let gap = difference (rt.timestamp t) from (omega arith) small in
      rw
        (
          ne→== delay 0 (λ e. omega (arith, e)),
          occupancy_refines v,
          lt→ltb 0 (length (x ∷ xs)) (omega arith),
          lt→ltb 1 elapsed late,
          back_refines v,
          newest,
          begins,
          gap,
          lt→ltb delay (rt.timestamp t - from) (omega arith),
          difference (rt.timestamp t) delay (omega arith) small,
        )
        refl

  -- On a ring that holds an ascending list below 2^64, of fewer payloads than the fuel, after more
  -- than 1 ms and where the newest timestamp is more than the delay, not zero, after the last
  -- element post-processed, which is not less than the oldest payload, a round post-processes
  -- exactly the payloads of the list from that element's timestamp up to, and not with, the newest
  -- timestamp less the delay, in order, and moves the element to that end.
  pub deferred_round_lem :
      Holds q (x ∷ xs)
      → Ascending rt (x ∷ xs)
      → last (x ∷ xs) ≡ some t
      → rt.timestamp t < 2 ^ 64
      → 0 < delay
      → 1 < elapsed
      → length (x ∷ xs) < fuel
      → begin_cycle rt q d ≡ some begun
      → rt.timestamp begun.processed_element + delay < rt.timestamp t
      → rt.less begun.processed_element x ≡ false
      → deferred_round rt fuel delay elapsed q d
        ≡ some (
          window rt (rt.timestamp begun.processed_element) (rt.timestamp t - delay) (x ∷ xs),
          record begun {
            processed_element = rt.set_timestamp begun.processed_element (rt.timestamp t - delay);
          },
        )
  deferred_round_lem v asc newest small wait late enough begins far from_front =
      let after = not_younger rt laws x begun.processed_element from_front in
      due v newest small wait late begins far
      ∙ window_lem rt laws q x t xs v asc newest begun (rt.timestamp t - delay) fuel from_front
          (omega arith) (omega arith) (omega arith) enough

  -- On a ring that holds an ascending list below 2^64, after more than 1 ms and where the newest
  -- timestamp is more than the delay, not zero, after both the last element post-processed and the
  -- oldest payload, and that element is less than the oldest payload, as when its payload was
  -- popped, a round has no result: it reads past the end of the buffer.
  pub deferred_round-popped :
      Holds q (x ∷ xs)
      → Ascending rt (x ∷ xs)
      → last (x ∷ xs) ≡ some t
      → rt.timestamp t < 2 ^ 64
      → 0 < delay
      → 1 < elapsed
      → begin_cycle rt q d ≡ some begun
      → rt.timestamp begun.processed_element + delay < rt.timestamp t
      → rt.timestamp x + delay < rt.timestamp t
      → rt.less begun.processed_element x ≡ true
      → deferred_round rt fuel delay elapsed q d ≡ none
  deferred_round-popped v asc newest small wait late begins far old before =
      due v newest small wait late begins far
      ∙ window-before rt laws q x t xs v asc newest begun (rt.timestamp t - delay) fuel before
          (omega arith)
