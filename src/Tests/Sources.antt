-- ===== src/Tests/Sources.antt =====
-- Emulators, the card reader that configures them, and the skip list.
use datahandlinglibs.Base.{
  ℕ, ◌-◌, ◌≡◌, refl, Bool, true, false, Option, none, some, List, [], ◌∷◌, ◌++◌, arith, ◌==◌,
  length, get_elem?, drop, take,
}
use datahandlinglibs.Readout.{DummyFrame}
use datahandlinglibs.IterableQueue.Fifo.{last}
use datahandlinglibs.SkipList.{Accessor, AccessorLaws, Handler, skip_list_cleanup_request}
use datahandlinglibs.SkipList.Cleanup.{Cleaned, skip_list_cleanup_request_lem}
use datahandlinglibs.Utils.ErrorBits.{Tables, generator}
use datahandlinglibs.SourceEmulator
use datahandlinglibs.SourceEmulator.{Fakes, Emulator, Parameters, run_produce}
use datahandlinglibs.CardReader.{
  Emulators, EmulatorsLaws, CardError, Output, CardReader, find, do_conf,
}
use datahandlinglibs.CardReader.Retry.{do_conf-retry}
use datahandlinglibs.Tests.Data.{rt10, frame_of}
use datahandlinglibs.Tests.Files.{two_bytes}

-- A list of frames with its places.
abbrev members : Accessor DummyFrame (List DummyFrame) ℕ
members = record {
  create = [];
  size = length;
  insert = λ s x. (s ++ (x ∷ []), true);
  remove = λ s x. (drop 1 s, true);
  pop_back = λ s. take (length s - 1) s;
  first = λ s. get_elem? s 0;
  last_of = last;
  begin = λ s. 0;
  end = length;
  lower_bound = λ s x. 0;
  same_place = λ i j. j == i;
  deref = get_elem?;
}

members-Laws : AccessorLaws members (λ s. s)
members-Laws = record {
  members-create = refl;
  size_law = λ s. refl;
  first_law = λ s. refl;
  last_law = λ s. refl;
  members-pop_back = λ s. refl;
  remove_first = λ s x e. (refl, refl);
  begin_law = λ s. refl;
  begin_is_end = λ s. refl;
}

abbrev two_old : List DummyFrame
two_old = frame_of 1 ∷ frame_of 2 ∷ frame_of 700000000 ∷ []

abbrev handler : Handler (List DummyFrame)
handler = record { list = two_old; pop_reqs = 0; pops_count = 0; num_buffer_cleanups = 0 }

skip_list_cleanup_request_lem_example :
    (h' : Handler (List DummyFrame)) × (skip_list_cleanup_request rt10 members 3 handler ≡ some h')
    × (h'.num_buffer_cleanups ≡ 1)
    × Cleaned rt10 members (λ s. s) members-Laws handler h' two_old (frame_of 700000000)
skip_list_cleanup_request_lem_example =
    skip_list_cleanup_request_lem rt10 members (λ s. s) members-Laws handler two_old
      (frame_of 700000000) 3 refl refl (omega arith, (omega arith, tt)) (omega arith) (omega arith)

abbrev fakes : Fakes DummyFrame
fakes = record {
  fake_timestamps = λ x ts diff. record x { timestamp = ts };
  fake_geoid = λ x c s k. x;
  fake_frame_errors = λ x bits. x;
  fake_adc_pattern = λ x c. x;
}

abbrev no_errors : Tables
no_errors = record {
  error_bits = λ i. 0;
  error_occurrences = λ i. 0;
  no_error_occurrences = λ i. 5;
}

abbrev emulator : Emulator DummyFrame
emulator = record {
  time_tick_diff = 10;
  has_dropouts = true;
  frames_per_tick = 1;
  packet_count = 0;
  packet_count_tot = 0;
  sender = some 0;
  file = none;
  errors = generator;
  is_configured = false;
  dropouts = [];
  crateid = 0;
  slotid = 0;
  linkid = 0;
  t0_now = false;
  generate_periodic_adc_pattern = false;
  pattern = record { channel = []; index = 0 };
  pattern_previous_ts = 0;
  time_to_wait = 5;
  faked = [];
  sent = [];
}

abbrev of_file : List ℕ → Parameters
of_file bytes = record {
  crate_id = 1;
  slot_id = 2;
  stream_id = 3;
  set_t0 = false;
  input_file_size_limit = 100;
  data_file = some bytes;
  periodic_adc_pattern = false;
  tp_rate_per_channel = 0;
  dropout_draws = true ∷ false ∷ [];
  pattern_draws = [];
}

-- The pattern is on, with two channels.
abbrev of_pattern : List ℕ → Parameters
of_pattern bytes = record (of_file bytes) {
  periodic_adc_pattern = true;
  pattern_draws = 70 ∷ 5 ∷ [];
}

-- With the pattern on and no channel drawn, the first frame reads out of range.
no_channels :
    run_produce rt10 two_bytes fakes no_errors 1 0
      (datahandlinglibs.SourceEmulator.conf two_bytes
        (record (of_file (50 ∷ 7 ∷ [])) { periodic_adc_pattern = true })
        emulator).0
    ≡ none
unfolding run_produce datahandlinglibs.SourceEmulator.conf datahandlinglibs.Utils.FileSource.read
    datahandlinglibs.SourceEmulator.generate
no_channels = refl

-- An emulator that only knows whether it is configured.
abbrev flags : Emulators Bool ℕ
flags = record {
  create = λ name. some false;
  set_sender = λ name e. e;
  conf = λ s e. (true, true);
  scrap = λ e. false;
  start = λ e. e;
  stop = λ e. e;
  is_configured = λ e. e;
}

flags-Laws : EmulatorsLaws flags
flags-Laws = record { is_configured-conf = λ s e h. refl; is_configured-scrap = λ e. refl }

abbrev reader : CardReader Bool
reader = record { configured = false; run_marker = false; source_emus = ("a", false) ∷ [] }

abbrev first_output : Output
first_output = record { uid = "a"; source_id = some 1 }

-- An output that was not there at `init`.
abbrev late_output : Output
late_output = record { uid = "b"; source_id = some 2 }

abbrev no_streams : ℕ → Option ℕ
no_streams id = none

first_found : find "a" reader.source_emus ≡ some false
unfolding find
first_found = refl

late_fails :
    (do_conf flags no_streams (first_output ∷ late_output ∷ []) reader).1
    ≡ some (CardError.cannot_find_queue "b")
unfolding do_conf
late_fails = refl

do_conf-retry_example :
    (let failed = (do_conf flags no_streams (first_output ∷ late_output ∷ []) reader).0 in
      (failed.configured ≡ false)
      × ((do_conf flags no_streams (first_output ∷ late_output ∷ []) failed).1
          ≡ some (CardError.configured_twice "a")))
do_conf-retry_example =
    do_conf-retry flags flags-Laws no_streams first_output (late_output ∷ []) reader 1 false
      (CardError.cannot_find_queue "b") refl refl first_found refl refl late_fails
