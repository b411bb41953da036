-- ===== src/FileIo/Recorder.antt =====
-- include/datahandlinglibs/models/detail/RecorderModel.hxx: the recorder's commands and its work
-- loop. The receiver is the sequence of what its calls return while the run marker is set.
use datahandlinglibs.Base.{
  add32, ℕ, ◌+◌, Bool, true, false, Option, none, some, List, [], ◌∷◌, if◌then◌else◌,
}
use Prim.Native.String.{String}
use text.Mathlib.Text.{◌==◌ as ◌=str◌}
use datahandlinglibs.FileIo.{
  Disk, Platform, Layout, Writer, FileError, new_writer, open_writer, write, flush,
}

pub record RecorderConf : Type 0 where
  pub output_file : String
  pub stream_buffer_size : ℕ
  pub compression_algorithm : String
  pub use_o_direct : Bool

pub record Recorder : Type 0 where
  pub settings : RecorderConf
  pub writer : Writer
  pub packets_processed : ℕ
  pub bytes_processed : ℕ
  pub run_marker : Bool
  -- `CannotWriteToFile`
  pub warnings : ℕ

-- `init`, with the receiver found.
unfoldable pub init : RecorderConf → Recorder
init s = record {
  settings = s;
  writer = new_writer;
  packets_processed = 0;
  bytes_processed = 0;
  run_marker = false;
  warnings = 0;
}

-- `remove(2)`
unfoldable pub remove_file : String → Disk → Disk
remove_file name disk other = if other =str name then none else disk other

-- `do_start`
unfoldable pub do_start : Recorder → Recorder
do_start r = record r { packets_processed = 0; bytes_processed = 0; run_marker = true }

-- `do_stop`, up to the wait for the thread.
unfoldable pub do_stop : Recorder → Recorder
do_stop r = record r { run_marker = false }

-- `generate_opmon_data`: the counters are reset, and no message is published.
unfoldable pub generate_opmon_data : Recorder → Recorder
generate_opmon_data r = record r { packets_processed = 0; bytes_processed = 0 }

module _ (p : Platform) where
  -- `do_conf`: a file of an earlier run is removed.
  unfoldable pub do_conf : Recorder → Disk → Recorder × Disk × Option FileError
  do_conf r disk =
      let s = r.settings in
      let opened =
        open_writer p r.writer (remove_file s.output_file disk) s.output_file s.stream_buffer_size
          s.compression_algorithm s.use_o_direct in
      (record r { writer = opened.0 }, opened.1, opened.2)

  module _ {T : Type 0} (l : Layout T) where
    -- After an element that was written.
    abbrev pub counted : Writer → Recorder → Recorder
    counted w r = record r {
      writer = w;
      packets_processed = add32 r.packets_processed 1;
      bytes_processed = add32 r.bytes_processed l.size;
    }

    -- The loop of `do_work`: no element is `TimeoutExpired`, and a failed write leaves the loop.
    unfoldable pub work : Recorder → Disk → List (Option T) → Recorder × Disk
    work r disk [] = (r, disk)
    work r disk (none ∷ events) = work r disk events
    work r disk (some x ∷ events) =
        let wrote = write p r.writer (l.encode x) disk in
        let rest = work (counted wrote.0.0 r) wrote.0.1 events in
        if wrote.1
        then rest
        else (record r { writer = wrote.0.0; warnings = r.warnings + 1 }, wrote.0.1)

    -- `do_work`
    unfoldable pub do_work : Recorder → Disk → List (Option T) → Recorder × Disk
    do_work r disk events =
        let done = work r disk events in
        let flushed = flush p done.0.writer done.1 in
        (record (done.0) { writer = flushed.0 }, flushed.1)
