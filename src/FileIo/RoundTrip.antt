-- ===== src/FileIo/RoundTrip.antt =====
-- models/detail/RecorderModel.hxx with utils/BufferedFileWriter.hpp and BufferedFileReader.hpp: what a
-- reader finds in the file of a recorder.
use datahandlinglibs.Base.{◌≡◌, refl, false, Option, none, some, List, []}
use Prim.Native.String.{String}
use text.Mathlib.TextPositions.{eq_refl}
use datahandlinglibs.FileIo.{
  new_writer, Disk, Platform, Layout, Compression, compression_of, destroy_writer,
}
use datahandlinglibs.FileIo.Recorder.{
  RecorderConf, Recorder, init, do_conf, do_start, do_work, remove_file,
}
use datahandlinglibs.FileIo.Stored.{Stored, open_writer-Stored}

module _ {T : Type 0} (l : Layout T) (p : Platform) where
  removed : (name : String) (disk : Disk) → remove_file name disk name ≡ none
  unfolding remove_file
  removed name disk = rw (eq_refl name, remove_file) refl

  -- do_conf, do_start and do_work on a recorder whose writer is not open, and the end of its
  -- writer: the file that it leaves.
  abbrev pub session : RecorderConf → Disk → List (Option T) → Recorder × Disk
  session conf disk events =
      let configured = do_conf p (init conf) disk in
      let worked = do_work p l (do_start configured.0) configured.1 events in
      (worked.0, destroy_writer p worked.0.writer worked.1)

  -- The configured recorder has an open and empty file.
  configured :
      (conf : RecorderConf) (disk : Disk) (c : Compression)
      → p.refuses conf.output_file ≡ false
      → compression_of conf.compression_algorithm ≡ some c
      → let (r, disk', _) = do_conf p (init conf) disk in
        Stored r.writer disk' [] × (r.writer.filter ≡ c) × (r.writer.filename ≡ conf.output_file)
  unfolding do_conf init
  configured conf disk c ok named =
      let h =
        open_writer-Stored p new_writer (remove_file conf.output_file disk) conf.output_file
          conf.compression_algorithm conf.stream_buffer_size conf.use_o_direct c refl ok named
          (removed conf.output_file disk) in
      (h.0, h.2, h.3)
