-- ===== src/SourceEmulator.antt =====
-- include/datahandlinglibs/models/SourceEmulatorModel.hpp and detail/SourceEmulatorModel.hxx. Random
-- draws, the clock, the file and the sender are parameters: the draws are lists, and what is handed
-- to the sender is a list of payloads.
pub mod Frames
pub mod Times
pub mod Bounds
pub mod Run
use datahandlinglibs.Base.{
  ℕ, zero, suc, ◌+◌, ◌-◌, ◌*◌, ◌/◌, ◌%◌, ◌^◌, ◌≤◌, ◌<◌, min, max, ◌≡◌, refl, sym, ap, ap₂, subst,
  ◌∙◌, ◌≢◌, ◌↔◌, ◌⊎◌, inl, inr, Bool, true, false, not, ◌&&◌, ◌||◌, Option, none, some, List, [],
  ◌∷◌, ◌++◌, map, append_assoc, append-nil, arith, dec_lt, dec_le, ℕ_discrete, ltb, leb, ◌==◌,
  if◌then◌else◌, ltb→lt, lt→ltb, ltb_ge, le→ltb, leb→le, ==_iff, Bool-cases, Option-cases, ne→==,
  eq→==, ◌>>=◌, le→leb, leb_gt, bind-some, length, get_elem?, set, drop, take, replicate,
  length-append, length-set, length-replicate, length-drop, get_elem?-set_self, get_elem?-set_ne,
  get_elem?-replicate, get_elem?-none, get_elem?-some, get_elem?-append_left,
  get_elem?-append_right, get_elem?-drop, drop-eq-cons, drop-eq-nil, take-all, get_elem?-in_range,
  add32, sub32, add64, sub64, mul64,
}
use datahandlinglibs.Readout.{Readout}
use datahandlinglibs.FileIo.{Layout}
use datahandlinglibs.Utils.FileSource.{FileSource, file_source, read, get, num_elements}
use datahandlinglibs.Utils.ErrorBits.{Tables, Generator, generator, next}

-- What the emulator does to a payload. The pattern call may throw: then it changes nothing here.
pub record Fakes (T : Type 0) : Type 0 where
  pub fake_timestamps : T → ℕ → ℕ → T
  pub fake_geoid : T → ℕ → ℕ → ℕ → T
  pub fake_frame_errors : T → List ℕ → T
  pub fake_adc_pattern : T → ℕ → T

-- `SourceEmulatorPatternGenerator`
pub record Pattern : Type 0 where
  pub channel : List ℕ
  pub index : ℕ

-- `generate` with what `rand` gives.
unfoldable pub generate : List ℕ → Pattern → Pattern
generate draws p = record p { channel = p.channel ++ map (λ n. n % 64) draws }

-- `get_channel_number`; no result: the vector has no such element.
unfoldable pub get_channel_number : Pattern → Pattern × Option ℕ
get_channel_number p =
    let i = if p.index == length p.channel then 0 else p.index in
    (record p { index = i + 1 }, get_elem? p.channel i)

pub record Emulator (T : Type 0) : Type 0 where
  pub time_tick_diff : ℕ
  pub has_dropouts : Bool
  pub frames_per_tick : ℕ
  pub packet_count : ℕ
  pub packet_count_tot : ℕ
  pub sender : Option ℕ
  pub file : Option FileSource
  pub errors : Generator
  pub is_configured : Bool
  pub dropouts : List Bool
  pub crateid : ℕ
  pub slotid : ℕ
  pub linkid : ℕ
  pub t0_now : Bool
  pub generate_periodic_adc_pattern : Bool
  pub pattern : Pattern
  pub pattern_previous_ts : ℕ
  pub time_to_wait : ℕ
  -- the timestamps given to `fake_timestamps`, and the payloads handed to the sender, in order
  pub faked : List ℕ
  pub sent : List T

-- `confmodel::DetectorStream` and `appmodel::StreamEmulationParameters`, and what is drawn.
pub record Parameters : Type 0 where
  pub crate_id : ℕ
  pub slot_id : ℕ
  pub stream_id : ℕ
  pub set_t0 : Bool
  pub input_file_size_limit : ℕ
  pub data_file : Option (List ℕ)
  pub periodic_adc_pattern : Bool
  pub tp_rate_per_channel : ℕ
  -- `dis(mt) >= m_dropout_rate`, one for each of the population
  pub dropout_draws : List Bool
  pub pattern_draws : List ℕ

module _ {T : Type 0} where
  -- `set_sender`: the first connection stays.
  unfoldable pub set_sender : ℕ → Emulator T → Emulator T
  set_sender connection e = record e {
    sender = elim e.sender [ none ↦ some connection | some c ↦ some c ];
  }

  -- The end of `conf`, with the file read; none is the exception `ConfigurationError`.
  unfoldable pub conf_file :
      Parameters → Emulator T → Emulator T → Option FileSource → Emulator T × Bool
  conf_file p e named none = (named, false)
  conf_file p e named (some f) = (
    record named {
      file = some f;
      dropouts = if e.has_dropouts then p.dropout_draws else true ∷ [];
      errors = generator;
      generate_periodic_adc_pattern = p.periodic_adc_pattern;
      pattern = if p.periodic_adc_pattern then generate p.pattern_draws e.pattern else e.pattern;
      time_to_wait =
          if p.periodic_adc_pattern && not (p.tp_rate_per_channel == 0)
          then e.time_to_wait / p.tp_rate_per_channel
          else e.time_to_wait;
      is_configured = true;
    },
    true,
  )

  -- The start of `conf`: the ids and an empty source.
  abbrev pub identified : Layout T → Parameters → Emulator T → Emulator T
  identified l p e = record e {
    crateid = p.crate_id;
    slotid = p.slot_id;
    linkid = p.stream_id;
    t0_now = p.set_t0;
    file = some (file_source p.input_file_size_limit l.size);
  }

  -- `conf`; false is the exception.
  unfoldable pub conf : Layout T → Parameters → Emulator T → Emulator T × Bool
  unfolding conf_file
  conf l p e =
      if e.is_configured
      then (e, true)
      else conf_file p e (identified l p e)
          (read p.data_file (file_source p.input_file_size_limit l.size))

  -- `scrap`
  unfoldable pub scrap : Emulator T → Emulator T
  scrap e = record e { file = none; is_configured = false }

  -- `start`
  unfoldable pub start : Emulator T → Emulator T
  start e = record e { packet_count_tot = 0 }

  -- `generate_opmon_data`: the sum and the packets since the last message.
  unfoldable pub generate_opmon_data : Emulator T → Emulator T × ℕ × ℕ
  generate_opmon_data e = (record e { packet_count = 0 }, e.packet_count_tot, e.packet_count)

-- The variables of `run_produce`.
pub record Produce (T : Type 0) : Type 0 where
  pub emulator : Emulator T
  pub offset : ℕ
  pub timestamp : ℕ
  pub dropout_index : ℕ

-- `n` calls of `ErrorBitGenerator::next`.
unfoldable pub error_bits : ℕ → Tables → Generator → List ℕ × Generator
unfolding next
error_bits zero t g = ([], g)
error_bits (suc n) t g =
    let first = next t g in let rest = error_bits n t first.1 in (first.0 ∷ rest.0, rest.1)

module _ {T : Type 0} (rt : Readout T) (l : Layout T) (fakes : Fakes T) (tables : Tables) where
  -- The element of the file's bytes at an offset; none where it reaches past their end.
  unfoldable pub element : List ℕ → ℕ → Option T
  element source offset =
      let bytes = take l.size (drop (offset * l.size) source) in
      if length bytes == l.size then some (l.decode bytes) else none

  -- The pattern, when its time has come. No result: the vector is read out of range.
  unfoldable pub add_pattern : ℕ → Emulator T → T → Option (Emulator T × T)
  unfolding get_channel_number
  add_pattern timestamp e payload =
      let channel = get_channel_number e.pattern in
      if e.generate_periodic_adc_pattern
        && ltb e.time_to_wait (sub64 timestamp e.pattern_previous_ts)
      then (channel.1 >>= λ c. some (
        record e { pattern = channel.0; pattern_previous_ts = timestamp },
        fakes.fake_adc_pattern payload c,
      ))
      else some (e, payload)

  -- A frame that is created, from the element in the file. No result: a read out of range, or no
  -- sender was set.
  unfoldable pub create_frame : ℕ → ℕ → Emulator T → T → Option (Emulator T)
  unfolding add_pattern error_bits
  create_frame timestamp num_frames e raw =
      let bits = error_bits num_frames tables e.errors in
      let faked =
        fakes.fake_frame_errors
          (fakes.fake_geoid (fakes.fake_timestamps raw timestamp e.time_tick_diff) e.crateid
            e.slotid e.linkid)
          bits.0 in
      add_pattern timestamp (record e { errors = bits.1; faked = e.faked ++ (timestamp ∷ []) })
        faked
      >>= λ out. e.sender >>= λ connection. some record out.0 {
        sent = out.0.sent ++ (out.1 ∷ []);
        packet_count = add32 e.packet_count 1;
        packet_count_tot = add32 e.packet_count_tot 1;
      }

  -- The element to push: back to the first behind the last.
  unfoldable pub wrapped : List ℕ → ℕ → ℕ → ℕ
  wrapped source num_elem offset =
      if offset == num_elem || ltb (length source) (add32 offset 1 * l.size) then 0 else offset

  -- One round of the loop over `m_frames_per_tick`. No result: a read out of range.
  unfoldable pub frame_turn : List ℕ → ℕ → ℕ → Produce T → Option (Produce T)
  unfolding wrapped element create_frame
  frame_turn source num_elem num_frames s =
      let e = s.emulator in
      let offset = wrapped source num_elem s.offset in
      let dropout_index = (s.dropout_index + 1) % length e.dropouts in
      get_elem? e.dropouts s.dropout_index >>= λ create.
      if create
      then (element source offset >>= λ raw. create_frame s.timestamp num_frames e raw >>= λ e'.
          some (record s { emulator = e'; offset = add32 offset 1; dropout_index = dropout_index }))
      else some (record s { offset = offset; dropout_index = dropout_index })

  unfoldable pub frame_turns : ℕ → List ℕ → ℕ → ℕ → Produce T → Option (Produce T)
  unfolding frame_turn
  frame_turns zero source num_elem num_frames s = some s
  frame_turns (suc n) source num_elem num_frames s =
      frame_turn source num_elem num_frames s >>= λ s'. frame_turns n source num_elem num_frames s'

  -- One round of the loop that runs while the run marker is set.
  unfoldable pub tick : List ℕ → ℕ → ℕ → Produce T → Option (Produce T)
  unfolding frame_turns
  tick source num_elem num_frames s =
      frame_turns s.emulator.frames_per_tick source num_elem num_frames s >>= λ s'.
      some
        (record s' { timestamp = add64 s'.timestamp (mul64 s'.emulator.time_tick_diff num_frames) })

  unfoldable pub ticks : ℕ → List ℕ → ℕ → ℕ → Produce T → Option (Produce T)
  unfolding tick
  ticks zero source num_elem num_frames s = some s
  ticks (suc n) source num_elem num_frames s =
      tick source num_elem num_frames s >>= λ s'. ticks n source num_elem num_frames s'

  -- `run_produce` on the file source. The first payload is used where it stands, through a pointer to
  -- its type: a member may read any of its bytes, so all of them have to be there. It runs with the run marker set for `rounds` rounds; `now` is the clock
  -- in microseconds.
  unfoldable pub produce_from : ℕ → ℕ → Emulator T → FileSource → Option (Emulator T)
  produce_from rounds now e f = element (get f) 0 >>= λ first.
      ticks rounds (get f) (num_elements f) (rt.num_frames first) (record {
        emulator = e;
        offset = 0;
        timestamp = if e.t0_now then mul64 625 now / 10 else rt.timestamp first;
        dropout_index = 0;
      })
      >>= λ s. some s.emulator

  -- `run_produce`; with no file source, the pointer is null.
  unfoldable pub run_produce : ℕ → ℕ → Emulator T → Option (Emulator T)
  unfolding element ticks produce_from
  run_produce rounds now e = e.file >>= λ f. produce_from rounds now e f
