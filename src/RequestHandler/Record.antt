-- ===== src/RequestHandler/Record.antt =====
-- include/datahandlinglibs/models/detail/DefaultRequestHandlerModel.hxx: the command `record`, which
-- copies the payloads of the latency buffer to a file as they come.
pub mod Chain
use datahandlinglibs.Base.{
  ℕ, zero, suc, ◌+◌, ◌-◌, ◌*◌, ◌/◌, ◌%◌, ◌^◌, ◌≤◌, ◌<◌, min, max, ◌≡◌, refl, sym, ap, ap₂, subst,
  ◌∙◌, ◌≢◌, ◌↔◌, ◌⊎◌, inl, inr, Bool, true, false, not, ◌&&◌, ◌||◌, Option, none, some, List, [],
  ◌∷◌, ◌++◌, map, append_assoc, append-nil, arith, dec_lt, dec_le, ℕ_discrete, ltb, leb, ◌==◌,
  if◌then◌else◌, ltb→lt, lt→ltb, ltb_ge, le→ltb, leb→le, ==_iff, Bool-cases, Option-cases, ne→==,
  eq→==, ◌>>=◌, le→leb, leb_gt, bind-some, if-both, length, get_elem?, set, drop, take, replicate,
  length-append, length-set, length-replicate, length-drop, get_elem?-set_self, get_elem?-set_ne,
  get_elem?-replicate, get_elem?-none, get_elem?-some, get_elem?-append_left,
  get_elem?-append_right, get_elem?-drop, drop-eq-cons, drop-eq-nil, take-all, get_elem?-in_range,
  length-take, length-take_le, add32, sub32, add64, sub64, mul64,
}
use datahandlinglibs.Readout.{Readout}
use datahandlinglibs.LatencyBuffer.{Buffer}
use datahandlinglibs.FileIo.{Disk, Platform, Layout, Writer, write, flush}

pub data Answer : Type 0 where
  still_running not_configured started : Answer

-- The variables of the handler that `record` uses; `written` are the payloads handed to the writer.
pub record Recording (T : Type 0) : Type 0 where
  pub writer : Writer
  pub next_timestamp : ℕ
  pub payloads_written : ℕ
  pub bytes_written : ℕ
  pub recording : Bool
  pub written : List T
  -- `CannotWriteToFile`
  pub warnings : ℕ
  pub disk : Disk

-- `record`, up to the start of its thread.
unfoldable pub record_command : {T : Type 0} → Recording T → Answer
record_command r =
    if r.recording then still_running else if not r.writer.is_open then not_configured else started

module _ {T B I : Type 0} (rt : Readout T) (buf : Buffer T B I) (p : Platform) (l : Layout T) where
  -- One payload: it is written unless it begins before the end of the last one.
  unfoldable pub record_payload : T → Recording T → Recording T
  record_payload x r =
      let wrote = write p r.writer (l.encode x) r.disk in
      record r {
        writer = wrote.0.0;
        disk = wrote.0.1;
        warnings = if not wrote.1 then r.warnings + 1 else r.warnings;
        payloads_written = add32 r.payloads_written 1;
        bytes_written = add32 r.bytes_written l.size;
        written = r.written ++ (x ∷ []);
        next_timestamp = add64 (rt.timestamp x) (mul64 rt.tick (rt.num_frames x));
      }

  -- The loop from an iterator, which no iterator that is good is equal to `end()`. No result: an
  -- object is read that is not there, or the fuel is out.
  unfoldable pub record_pass : ℕ → B → I → ℕ → Recording T → Option (Recording T)
  unfolding record_payload
  record_pass zero b i processed r = none
  record_pass (suc fuel) b i processed r =
      let go = buf.good b i && ltb processed 1000 in
      let rest : Option (Recording T) = buf.deref b i >>= λ x.
      let fresh = leb r.next_timestamp (rt.timestamp x) in
      record_pass fuel b (buf.next b i) (if fresh then processed + 1 else processed)
        (if fresh then record_payload x r else r) in
      if go then rest else some r

  -- One round of the thread's loop, with the state of the buffer in it. While a clean-up is
  -- requested only a recording that has not begun goes on, and waits for its end.
  unfoldable pub record_round : ℕ → Bool → B → Recording T → Option (Recording T)
  unfolding record_pass
  record_round fuel cleanup_requested b r =
      let first : ℕ = elim (buf.front b) [ none ↦ 0 | some x ↦ rt.timestamp x ] in
      let begun = if r.next_timestamp == 0 then record r { next_timestamp = first } else r in
      if not cleanup_requested || r.next_timestamp == 0
      then (buf.lower_bound b (rt.set_timestamp rt.blank begun.next_timestamp) true >>= λ i.
          record_pass fuel b i 0 begun)
      else some r

  unfoldable pub record_rounds : ℕ → List (Bool × B) → Recording T → Option (Recording T)
  unfolding record_round
  record_rounds fuel [] r = some r
  record_rounds fuel ((cleanup, b) ∷ rounds) r =
      record_round fuel cleanup b r >>= λ r'. record_rounds fuel rounds r'

  -- The end of the thread's function: no timestamp is left to record, and the file is flushed.
  unfoldable pub record_end : Recording T → Recording T × Disk
  record_end done =
      let flushed = flush p done.writer done.disk in
      (
        record done {
          next_timestamp = 2 ^ 64 - 1;
          recording = false;
          writer = flushed.0;
          disk = flushed.1;
        },
        flushed.1,
      )

  -- The thread's function, with the rounds of the duration and the disk at its start.
  unfoldable pub record_thread :
      ℕ → List (Bool × B) → Recording T → Disk → Option (Recording T × Disk)
  unfolding record_rounds record_end
  record_thread fuel rounds r disk =
      record_rounds fuel rounds (record r { recording = true; next_timestamp = 0; disk = disk })
      >>= λ done. some (record_end done)
