-- ===== src/DataHandling/Ring.antt =====
-- Payloads that are processed into a ring, without a delay.
use datahandlinglibs.Base.{
  ◌+◌, ◌%◌, ◌^◌, ◌<◌, ◌≡◌, refl, sym, ap, subst, ◌∙◌, true, false, some, List, [], ◌∷◌, ◌++◌,
  if◌then◌else◌, eq→==, length, add32,
}
use datahandlinglibs.Readout.{Readout}
use datahandlinglibs.IterableQueue
use datahandlinglibs.IterableQueue.{Queue, write, capacity}
use datahandlinglibs.IterableQueue.Holds.{Holds}
use datahandlinglibs.IterableQueue.Slots.{appended, appended-Holds, overflow_ctr-Holds}
use datahandlinglibs.IterableQueue.Refine.{write-accepts, write-refuses, back_refines}
use datahandlinglibs.IterableQueue.Fifo.{last}
use datahandlinglibs.LatencyBuffer.Ring.{binary_buffer}
use datahandlinglibs.DataHandling.Consume.{Processing, Consumer, process_item, consume_payload}

module _ {T : Type 0} (rt : Readout T) where
  last-snoc : (xs : List T) (x : T) → last (xs ++ (x ∷ [])) ≡ some x
  last-snoc [] x = refl
  last-snoc (y ∷ []) x = refl
  last-snoc (y ∷ z ∷ xs) x = last-snoc (z ∷ xs) x

  -- Without a processing delay, a payload that comes to a ring with room is preprocessed, appended
  -- and then post-processed as the newest one, and counted once; nothing is counted as overwritten.
  pub process_item-accepts :
      (pr : Processing T) (payload : T) (s : Consumer T (Queue T)) (xs : List T)
      → Holds s.buffer xs
      → length xs + 1 < s.buffer.size
      → pr.processing_delay_ticks ≡ 0
      → (let s' = process_item rt (binary_buffer rt) write pr payload s in
          Holds s'.buffer (xs ++ (pr.preprocess payload ∷ []))
          × (s'.postprocessed ≡ s.postprocessed ++ (some (pr.preprocess payload) ∷ []))
          × (s'.num_payloads_overwritten ≡ s.num_payloads_overwritten)
          × (s'.num_payloads ≡ add32 s.num_payloads 1))
  unfolding process_item
  process_item-accepts pr payload s xs v h now =
      rw (process_item, eq→== pr.processing_delay_ticks 0 now)
        (
          subst (λ r. Holds r.1 (xs ++ (pr.preprocess payload ∷ []))) (sym taken) more,
          ap (λ o. s.postprocessed ++ (o ∷ []))
              (subst
                (λ r.
                  IterableQueue.deref r.1 (IterableQueue.back r.1) ≡ some (pr.preprocess payload))
                (sym taken) (back_refines more ∙ last-snoc xs (pr.preprocess payload))),
          ap (λ r. if r.0 then s.num_payloads_overwritten else add32 s.num_payloads_overwritten 1)
              taken,
          refl,
        )
    where
      taken :
          write s.buffer (pr.preprocess payload) ≡ (true, appended s.buffer (pr.preprocess payload))
      taken = write-accepts s.buffer xs (pr.preprocess payload) v h

      more : Holds (appended s.buffer (pr.preprocess payload)) (xs ++ (pr.preprocess payload ∷ []))
      more = appended-Holds s.buffer xs (pr.preprocess payload) v h

  -- Without a processing delay, a payload that comes to a full ring is dropped: the ring holds what
  -- it held, the newest payload in it is post-processed once more, and the payload is counted as
  -- overwritten and as processed.
  pub process_item-refuses :
      (pr : Processing T) (payload : T) (s : Consumer T (Queue T)) (xs : List T)
      → Holds s.buffer xs
      → length xs + 1 ≡ s.buffer.size
      → pr.processing_delay_ticks ≡ 0
      → (let s' = process_item rt (binary_buffer rt) write pr payload s in
          Holds s'.buffer xs
          × (s'.postprocessed ≡ s.postprocessed ++ (last xs ∷ []))
          × (s'.num_payloads_overwritten ≡ add32 s.num_payloads_overwritten 1)
          × (s'.num_payloads ≡ add32 s.num_payloads 1))
  unfolding process_item
  process_item-refuses pr payload s xs v h now =
      rw (process_item, eq→== pr.processing_delay_ticks 0 now)
        (
          subst (λ r. Holds r.1 xs) (sym refused) same,
          ap (λ o. s.postprocessed ++ (o ∷ []))
              (subst (λ r. IterableQueue.deref r.1 (IterableQueue.back r.1) ≡ last xs) (sym refused)
                (back_refines same)),
          ap (λ r. if r.0 then s.num_payloads_overwritten else add32 s.num_payloads_overwritten 1)
              refused,
          refl,
        )
    where
      refused :
          write s.buffer (pr.preprocess payload)
          ≡ (false, record (s.buffer) { overflow_ctr = (s.buffer.overflow_ctr + 1) % 2 ^ 32 })
      refused = write-refuses s.buffer xs (pr.preprocess payload) v h

      same : Holds (record (s.buffer) { overflow_ctr = (s.buffer.overflow_ctr + 1) % 2 ^ 32 }) xs
      same = overflow_ctr-Holds s.buffer xs v ((s.buffer.overflow_ctr + 1) % 2 ^ 32)

  -- On a ring and without a processing delay, the callback does to a payload what the consumer
  -- thread does.
  pub consume_payload-eq-process_item :
      (pr : Processing T) (payload : T) (s : Consumer T (Queue T))
      → pr.processing_delay_ticks ≡ 0
      → consume_payload rt (binary_buffer rt) write pr payload s
        ≡ process_item rt (binary_buffer rt) write pr payload s
  unfolding consume_payload process_item
  consume_payload-eq-process_item pr payload s now =
      rw (process_item, eq→== pr.processing_delay_ticks 0 now) refl
