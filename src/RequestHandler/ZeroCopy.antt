-- ===== src/RequestHandler/ZeroCopy.antt =====
-- include/datahandlinglibs/models/detail/ZeroCopyRecordingRequestHandlerModel.hxx: recording straight
-- from the memory of the latency buffer. Pointers are offsets from the start of the buffer, and the
-- answers of `write(2)` and the clock are arguments.
pub mod Chunks
pub mod Finish
use datahandlinglibs.Base.{
  ℕ, zero, suc, ◌+◌, ◌-◌, ◌*◌, ◌/◌, ◌%◌, ◌^◌, Bool, true, false, not, ◌&&◌, ◌||◌, Option, none,
  some, List, [], ◌∷◌, ◌++◌, ltb, ◌==◌, if◌then◌else◌, add64,
}

-- What `write(2)` returns: a count, or -1.
pub data Wrote : Type 0 where
  bytes : ℕ → Wrote
  minus_one : Wrote

-- `!::write(...)`
unfoldable pub not_written : Wrote → Bool
not_written (bytes n) = n == 0
not_written minus_one = false

pub data ConfError : Type 0 where
  buffer_not_aligned chunk_not_aligned cannot_open : ConfError

pub record ConfResult : Type 0 where
  -- reported
  pub errors : List ConfError
  -- thrown
  pub failed : Bool
  pub recording_configured : Bool

-- `conf`, before that of the base class. `has_recorder` and `has_file` tell whether there are a
-- recorder's configuration and an output file in it; `opens` whether `::open` succeeds.
unfoldable pub conf : Bool → Bool → ℕ → ℕ → ℕ → ℕ → Bool → ConfResult
conf has_recorder has_file alignment element_size elements stream_size opens =
    let aligned =
      if alignment == 0 || not (element_size * elements % 4096 == 0)
      then buffer_not_aligned ∷ []
      else [] in
    let chunks = if not (stream_size % 4096 == 0) then chunk_not_aligned ∷ [] else [] in
    if not (has_recorder && has_file)
    then record { errors = []; failed = false; recording_configured = false }
    else if opens
    then record { errors = aligned ++ chunks; failed = false; recording_configured = true }
    else record {
      errors = (aligned ++ chunks) ++ (cannot_open ∷ []);
      failed = true;
      recording_configured = false;
    }

pub data Command : Type 0 where
  still_running ignored : Command
  recording : ℕ → Command

-- `record`, up to the start of its thread: the duration is none where the command has none.
unfoldable pub record_command : Bool → Option ℕ → Command
record_command running duration =
    let seconds : ℕ = elim duration [ none ↦ 0 | some d ↦ d ] in
    if running then still_running else if seconds == 0 then ignored else recording seconds

-- The addresses of the elements from the first on, passed over until one is aligned. No result: the
-- iterator is past the last, and `continue` goes on with this loop, which reads through it.
unfoldable pub skip_unaligned : ℕ → List ℕ → Option ℕ
skip_unaligned alignment [] = none
skip_unaligned alignment (address ∷ rest) =
    if address % alignment == 0 then some address else skip_unaligned alignment rest

-- The buffer's bytes, the frame's, and the chunk's, and the timestamp of the frame at an offset.
pub record Shape : Type 0 where
  pub buffer_size : ℕ
  pub payload_size : ℕ
  pub chunk_size : ℕ
  pub timestamp_at : ℕ → ℕ

-- The variables of the recording loop; `written` are the offsets and lengths handed to `write(2)`.
pub record Recording : Type 0 where
  pub write_pointer : ℕ
  pub next_timestamp_to_record : ℕ
  pub bytes_written : ℕ
  pub failed_writes : ℕ
  pub written : List (ℕ × ℕ)

-- What one round hands over, with the end pointer at the newest element: an offset, a length and the
-- next write pointer.
unfoldable pub piece : Shape → ℕ → ℕ → Option (ℕ × ℕ × ℕ)
piece s end wp =
    if ltb (wp + s.chunk_size) end
    then some (wp, s.chunk_size, wp + s.chunk_size)
    else if ltb end wp
    then (if ltb (wp + s.chunk_size) s.buffer_size
        then some (wp, s.chunk_size, wp + s.chunk_size)
        else some (wp, s.buffer_size - wp, 0))
    else none

-- The frame that the write pointer stands in starts here.
abbrev pub last_started : Shape → ℕ → ℕ
last_started s wp = wp / s.payload_size * s.payload_size

-- The frame that was begun is the next to record.
abbrev pub noted : Shape → Recording → Recording
noted s r = record r { next_timestamp_to_record = s.timestamp_at (last_started s r.write_pointer) }

-- One round of the loop over 100 chunks.
unfoldable pub chunk_turn : Shape → ℕ → Wrote → Recording → Recording
chunk_turn s end answer r = elim (piece s end r.write_pointer) [
  | none ↦
      noted s (record r {
        write_pointer = if r.write_pointer == s.buffer_size then 0 else r.write_pointer;
      })
  | some (offset, len, next) ↦ noted s (record r {
    write_pointer = if next == s.buffer_size then 0 else next;
    bytes_written = if not_written answer then r.bytes_written else add64 r.bytes_written len;
    failed_writes = if not_written answer then add64 r.failed_writes 1 else r.failed_writes;
    written = r.written ++ ((offset, len) ∷ []);
  })
]

-- The rounds, with the answers of the system.
unfoldable pub chunk_turns : Shape → ℕ → List Wrote → Recording → Recording
unfolding chunk_turn
chunk_turns s end [] r = r
chunk_turns s end (a ∷ answers) r = chunk_turns s end answers (chunk_turn s end a r)

-- The end of the recording: the rest of the frame that was begun.
unfoldable pub finish : Shape → Wrote → Recording → Recording
finish s answer r =
    let start = last_started s r.write_pointer in
    let len = start + s.payload_size - r.write_pointer in
    if start == r.write_pointer then r else record r {
      bytes_written = if not_written answer then r.bytes_written else add64 r.bytes_written len;
      written = r.written ++ ((r.write_pointer, len) ∷ []);
    }
