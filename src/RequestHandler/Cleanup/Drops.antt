-- ===== src/RequestHandler/Cleanup/Drops.antt =====
-- What a cleanup drops, over any buffer that fills the interface.
use datahandlinglibs.Base.{
  ℕ, zero, suc, ◌-◌, ◌%◌, ◌^◌, ◌≤◌, ◌<◌, min, ◌≡◌, refl, ap, ◌∙◌, inl, inr, Bool, none, some, List,
  [], ◌∷◌, arith, ltb, if◌then◌else◌, lt→ltb, Bool-cases, length, get_elem?, drop, length-drop,
  get_elem?-none, get_elem?-drop, add32,
}
use datahandlinglibs.Readout.{Readout}
use datahandlinglibs.Readout.Order.{rank}
use datahandlinglibs.LatencyBuffer.{Buffer, BufferLaws}
use datahandlinglibs.FrameErrorRegistry.{remove_errors_until}
use datahandlinglibs.RequestHandler.Cleanup.{Limits, CleanupState, pop_recorded, settle, cleanup}

-- How many payloads go: as many as asked for, as long as the oldest one is recorded.
module _ {T : Type 0} (rt : Readout T) where
  abbrev pub dropped : ℕ → ℕ → List T → ℕ
  dropped next_ts zero xs = 0
  dropped next_ts (suc n) [] = 0
  dropped next_ts (suc n) (x ∷ xs) =
      if ltb (rt.timestamp x) next_ts then suc (dropped next_ts n xs) else 0

  pub dropped-min :
      (next_ts to_pop : ℕ) (xs : List T)
      → dropped next_ts to_pop xs ≡ min to_pop (rank rt next_ts xs)
  dropped-min next_ts zero xs = omega arith
  dropped-min next_ts (suc n) [] = omega arith
  dropped-min next_ts (suc n) (x ∷ xs) = elim (Bool-cases (ltb (rt.timestamp x) next_ts)) [
    | inl old ↦ rw old (omega (arith, dropped-min next_ts n xs))
    | inr new ↦ rw new (omega arith)
  ]

  module _ {B I : Type 0} (buf : Buffer T B I) (Represents : B → List T → Type 0)
      (reach : T → Bool → List T → List T) (laws : BufferLaws rt buf Represents reach) where
    pub pop_recorded_lem :
        (next_ts to_pop : ℕ) (b : B) (xs : List T)
        → Represents b xs
        → to_pop ≤ length xs
        → (b' : B) × (pop_recorded rt buf next_ts to_pop b
            ≡ some (b', dropped next_ts to_pop xs % 2 ^ 32))
          × Represents b' (drop (dropped next_ts to_pop xs) xs)
    unfolding pop_recorded
    pop_recorded_lem next_ts zero b xs v h = (b, refl, v)
    pop_recorded_lem next_ts (suc n) b [] v h = absurd (omega arith)
    pop_recorded_lem next_ts (suc n) b (x ∷ xs) v h =
        let (b1, e1, v1) = laws.pop_law b (x ∷ xs) 1 v (omega arith) in
        let (b2, e2, v2) = pop_recorded_lem next_ts n b1 xs v1 (omega arith) in
        elim (Bool-cases (ltb (rt.timestamp x) next_ts)) [
          | inl old ↦ (
            b2,
            rw (pop_recorded, laws.front_law b (x ∷ xs) v, old, e1, e2)
                (ap (λ k. some (b2, k)) (omega arith)),
            rw old v2,
          )
          | inr new ↦ (b, rw (pop_recorded, laws.front_law b (x ∷ xs) v, new) refl, rw new v)
        ]

    -- The loop and what follows it.
    pub cleanup_settles :
        (lim : Limits) (s : CleanupState B) (xs : List T)
        → Represents s.buffer xs
        → lim.pop_limit_size < length xs
        → lim.pop_share (length xs) ≤ length xs
        → (let k = dropped s.next_timestamp_to_record (lim.pop_share (length xs)) xs in
            (b' : B) × (cleanup rt buf lim s ≡ settle rt buf s (b', k % 2 ^ 32))
            × Represents b' (drop k xs))
    unfolding cleanup
    cleanup_settles lim s xs v over part =
        let n = lim.pop_share (length xs) in
        let (b', e, w) = pop_recorded_lem s.next_timestamp_to_record n s.buffer xs v part in
        (
          b',
          rw
              (
                cleanup,
                laws.occupancy_law s.buffer xs v,
                lt→ltb lim.pop_limit_size (length xs) over,
                e,
              )
              refl,
          w,
        )

    settle_lem :
        (s : CleanupState B) (b : B) (popped n : ℕ) (x : T)
        → buf.front b ≡ some x
        → buf.occupancy b ≡ n
        → settle rt buf s (b, popped)
          ≡ some record s {
            buffer = b;
            errors = remove_errors_until (rt.timestamp x) s.errors;
            pop_reqs = add32 s.pop_reqs 1;
            pops_count = add32 s.pops_count popped;
            occupancy = n % 2 ^ 32;
            num_buffer_cleanups = add32 s.num_buffer_cleanups 1;
          }
    unfolding settle
    settle_lem s b popped n x e o = rw (settle, e, o) refl

    settle_null :
        (s : CleanupState B) (b : B) (popped : ℕ)
        → buf.front b ≡ none
        → settle rt buf s (b, popped) ≡ none
    unfolding settle
    settle_null s b popped e = rw (settle, e) refl

    -- Over any buffer that fills the interface, a cleanup of more payloads than the limit, asked to
    -- pop no more than are held, and stopping at some payload, drops the oldest recorded ones up to
    -- that number, keeps the rest in order, forgets the errors that ended before the payload it
    -- stops at, and counts one cleanup with its pops.
    pub cleanup_lem :
        (lim : Limits) (s : CleanupState B) (xs : List T) (x : T)
        → Represents s.buffer xs
        → lim.pop_limit_size < length xs
        → lim.pop_share (length xs) ≤ length xs
        → get_elem? xs (dropped s.next_timestamp_to_record (lim.pop_share (length xs)) xs) ≡ some x
        → (b' : B) × (cleanup rt buf lim s
            ≡ some record s {
              buffer = b';
              errors = remove_errors_until (rt.timestamp x) s.errors;
              pop_reqs = add32 s.pop_reqs 1;
              pops_count =
                  add32 s.pops_count
                    (dropped s.next_timestamp_to_record (lim.pop_share (length xs)) xs % 2 ^ 32);
              occupancy =
                  (length xs - dropped s.next_timestamp_to_record (lim.pop_share (length xs)) xs)
                  % 2 ^ 32;
              num_buffer_cleanups = add32 s.num_buffer_cleanups 1;
            })
          × Represents b'
              (drop (dropped s.next_timestamp_to_record (lim.pop_share (length xs)) xs) xs)
    cleanup_lem lim s xs x v over part at =
        let k = dropped s.next_timestamp_to_record (lim.pop_share (length xs)) xs in
        let (b', e, w) = cleanup_settles lim s xs v over part in
        (
          b',
          e
              ∙ settle_lem s b' (k % 2 ^ 32) (length xs - k) x
                  (laws.front_law b' (drop k xs) w
                    ∙ get_elem?-drop k xs 0
                    ∙ ap (get_elem? xs) (omega arith)
                    ∙ at)
                  (laws.occupancy_law b' (drop k xs) w ∙ length-drop k xs),
          w,
        )

    -- Over any buffer that fills the interface, a cleanup over the limit that is asked to pop all
    -- payloads, each of them recorded, then reads the timestamp of the oldest of none, through a
    -- null pointer.
    pub cleanup_of_all :
        (lim : Limits) (s : CleanupState B) (xs : List T)
        → Represents s.buffer xs
        → lim.pop_limit_size < length xs
        → lim.pop_share (length xs) ≡ length xs
        → rank rt s.next_timestamp_to_record xs ≡ length xs
        → cleanup rt buf lim s ≡ none
    cleanup_of_all lim s xs v over all old =
        let k = dropped s.next_timestamp_to_record (lim.pop_share (length xs)) xs in
        let (b', e, w) = cleanup_settles lim s xs v over (omega arith) in
        e
        ∙ settle_null s b' (k % 2 ^ 32) (
            laws.front_law b' (drop k xs) w
            ∙ get_elem?-none (drop k xs) 0 (
                omega (
                  arith,
                  length-drop k xs,
                  dropped-min s.next_timestamp_to_record (lim.pop_share (length xs)) xs,
                )))
