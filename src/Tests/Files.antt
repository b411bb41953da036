-- ===== src/Tests/Files.antt =====
-- A recording of two frames to a disk, and a bare system and layout for other tests.
use datahandlinglibs.Base.{
  ℕ, ◌≡◌, refl, false, ltb, if◌then◌else◌, Option, none, some, List, [], ◌∷◌,
}
use datahandlinglibs.Readout.{DummyFrame}
use datahandlinglibs.FileIo.{
  TakesAll, open_writer, write, flush, destroy_writer, store, contents, write_at, Disk, Platform,
  PlatformLaws, Layout, compression_of,
}
use datahandlinglibs.FileIo.Recorder.{RecorderConf, do_conf, do_start, do_work, init, remove_file}
use datahandlinglibs.FileIo.RoundTrip.{session}
use datahandlinglibs.Tests.Data.{frame_of}

-- A system that compresses nothing and refuses nothing.
abbrev pub plain : Platform
plain = record {
  refuses = λ name. false;
  takes = λ direct position n. n;
  spills = λ size n. if ltb size n then size else 0;
  full = λ n. false;
  compress = λ a bs. bs;
  decompress = λ a bs. bs;
}

pub plain-Laws : PlatformLaws plain
plain-Laws = record { decompress-compress = λ a bs. refl }

pub plain-TakesAll : TakesAll plain
plain-TakesAll = record { takes_law = λ direct position n. refl; full_law = λ n. refl }

-- A frame is its timestamp and its other key.
abbrev pub frame_from : List ℕ → DummyFrame
frame_from [] = frame_of 0
frame_from (t ∷ []) = frame_of t
frame_from (t ∷ (k ∷ bytes)) = record { timestamp = t; another_key = k }

abbrev pub two_bytes : Layout DummyFrame
two_bytes = record { size = 2; encode = λ x. x.timestamp ∷ x.another_key ∷ []; decode = frame_from }

abbrev pub empty_disk : Disk
empty_disk name = none

abbrev to_file : RecorderConf
to_file = record {
  output_file = "out";
  stream_buffer_size = 4;
  compression_algorithm = "None";
  use_o_direct = false;
}

abbrev events : List (Option DummyFrame)
events = some (frame_of 100) ∷ none ∷ some (frame_of 110) ∷ []

-- A system that takes nothing, and a stream with room for the two frames: both are counted, there
-- is no warning, and the file is empty.
abbrev nothing_taken : Platform
nothing_taken = record plain { takes = λ direct position n. 0 }

lost_at_flush :
    (let (r, file) = session two_bytes nothing_taken to_file empty_disk events in
      (r.packets_processed ≡ 2) × (r.warnings ≡ 0) × (file "out" ≡ some []))
unfolding do_conf do_start do_work init open_writer write flush destroy_writer compression_of store
    contents write_at remove_file datahandlinglibs.FileIo.Recorder.work
lost_at_flush = (refl, refl, refl)
