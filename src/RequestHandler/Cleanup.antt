-- ===== src/RequestHandler/Cleanup.antt =====
-- `cleanup_check` and `cleanup`: the oldest payloads are dropped when the buffer passes its limit.
pub mod Drops
use datahandlinglibs.Base.{
  ℕ, zero, suc, ◌+◌, ◌-◌, ◌*◌, ◌/◌, ◌%◌, ◌^◌, ◌≤◌, ◌<◌, min, max, ◌≡◌, refl, sym, ap, ap₂, subst,
  ◌∙◌, ◌≢◌, ◌↔◌, ◌⊎◌, inl, inr, Bool, true, false, not, ◌&&◌, ◌||◌, Option, none, some, List, [],
  ◌∷◌, ◌++◌, map, append_assoc, append-nil, arith, dec_lt, dec_le, ℕ_discrete, ltb, leb, ◌==◌,
  if◌then◌else◌, ltb→lt, lt→ltb, ltb_ge, le→ltb, leb→le, ==_iff, Bool-cases, Option-cases, ne→==,
  eq→==, ◌>>=◌, le→leb, leb_gt, length, get_elem?, set, drop, take, replicate, length-append,
  length-set, length-replicate, length-drop, get_elem?-set_self, get_elem?-set_ne,
  get_elem?-replicate, get_elem?-none, get_elem?-some, get_elem?-append_left,
  get_elem?-append_right, get_elem?-drop, drop-eq-cons, drop-eq-nil, take-all, add32, sub32, add64,
  sub64, mul64,
}
use datahandlinglibs.Readout.{Readout}
use datahandlinglibs.LatencyBuffer.{Buffer}
use datahandlinglibs.FrameErrorRegistry.{Registry, remove_errors_until}

-- `pop_share n` is `m_pop_size_pct * n`, a float product cut to `unsigned`.
pub record Limits : Type 0 where
  pub pop_limit_size : ℕ
  pub pop_share : ℕ → ℕ

-- The state that a cleanup changes, and `m_next_timestamp_to_record`, which it reads. The counters
-- are the bits of an `atomic<int>`.
pub record CleanupState (B : Type 0) : Type 0 where
  pub buffer : B
  pub errors : Registry
  pub next_timestamp_to_record : ℕ
  pub pop_reqs : ℕ
  pub pops_count : ℕ
  pub occupancy : ℕ
  pub num_buffer_cleanups : ℕ

module _ {T : Type 0} (rt : Readout T) {B I : Type 0} (buf : Buffer T B I) where
  -- The loop: what is left of the buffer, and how many payloads went. `none` is a null pointer.
  unfoldable pub pop_recorded : ℕ → ℕ → B → Option (B × ℕ)
  pop_recorded next_ts zero b = some (b, 0)
  pop_recorded next_ts (suc to_pop) b = elim (buf.front b) [
    | none ↦ none
    | some x ↦
        if ltb (rt.timestamp x) next_ts
        then elim (buf.pop 1 b) [
          | none ↦ none
          | some b' ↦ elim (pop_recorded next_ts to_pop b') [
            | none ↦ none
            | some (b'', popped) ↦ some (b'', add32 popped 1)
          ]
        ]
        else some (b, 0)
  ]

  -- After the loop: the statistics, and the errors that ended before the oldest payload.
  unfoldable pub settle : CleanupState B → B × ℕ → Option (CleanupState B)
  settle s (b, popped) = elim (buf.front b) [
    | none ↦ none
    | some x ↦ some record s {
      buffer = b;
      errors = remove_errors_until (rt.timestamp x) s.errors;
      pop_reqs = add32 s.pop_reqs 1;
      pops_count = add32 s.pops_count popped;
      occupancy = buf.occupancy b % 2 ^ 32;
      num_buffer_cleanups = add32 s.num_buffer_cleanups 1;
    }
  ]

  unfoldable pub cleanup : Limits → CleanupState B → Option (CleanupState B)
  unfolding pop_recorded settle
  cleanup lim s =
      if ltb lim.pop_limit_size (buf.occupancy s.buffer)
      then (do
        left ←
            pop_recorded s.next_timestamp_to_record (lim.pop_share (buf.occupancy s.buffer))
              s.buffer
        settle s left)
      else some record s { num_buffer_cleanups = add32 s.num_buffer_cleanups 1 }

  -- With no request running, and no cleanup requested.
  unfoldable pub cleanup_check : Limits → CleanupState B → Option (CleanupState B)
  unfolding cleanup
  cleanup_check lim s =
      if ltb lim.pop_limit_size (buf.occupancy s.buffer) then cleanup lim s else some s
