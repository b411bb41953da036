-- ===== src/SourceEmulator/Run.antt =====
-- detail/SourceEmulatorModel.hxx with utils/FileSourceBuffer.hpp: a configured emulator produces.
use datahandlinglibs.Base.{ℕ, ◌/◌, Bool, true, List, [], ◌∷◌, if◌then◌else◌, mul64}
use datahandlinglibs.Readout.{Readout}
use datahandlinglibs.FileIo.{Layout}
use datahandlinglibs.Utils.FileSource.{FileSource, file_source, load}
use datahandlinglibs.Utils.ErrorBits.{Tables}
use datahandlinglibs.SourceEmulator.{Emulator, Parameters, Fakes, conf}

module _ {T : Type 0} (rt : Readout T) (l : Layout T) (fakes : Fakes T) (tables : Tables) where
  -- The configuration of an emulator with a file that can be read.
  abbrev configured : Emulator T → Parameters → Emulator T
  configured e p = (conf l p e).0

  abbrev population : Emulator T → Parameters → List Bool
  population e p = if e.has_dropouts then p.dropout_draws else true ∷ []

  -- The file that `conf` has read.
  source : Parameters → List ℕ → FileSource
  source p bytes = load bytes (file_source p.input_file_size_limit l.size)

  abbrev pub start_of : Bool → ℕ → T → ℕ
  start_of t0 now first = if t0 then mul64 625 now / 10 else rt.timestamp first
