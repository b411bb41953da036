-- ===== src/RequestHandler/Setup.antt =====
-- `conf`, `scrap`, `start` and `stop` of
-- include/datahandlinglibs/models/detail/DefaultRequestHandlerModel.hxx.
pub mod Once
use datahandlinglibs.Base.{
  ℕ, zero, suc, ◌+◌, ◌-◌, ◌*◌, ◌/◌, ◌%◌, ◌^◌, ◌≤◌, ◌<◌, min, max, ◌≡◌, refl, sym, ap, ap₂, subst,
  ◌∙◌, ◌≢◌, ◌↔◌, ◌⊎◌, inl, inr, Bool, true, false, not, ◌&&◌, ◌||◌, Option, none, some, List, [],
  ◌∷◌, ◌++◌, map, append_assoc, append-nil, arith, dec_lt, dec_le, ℕ_discrete, ltb, leb, ◌==◌,
  if◌then◌else◌, ltb→lt, lt→ltb, ltb_ge, le→ltb, leb→le, ==_iff, Bool-cases, Option-cases, ne→==,
  eq→==, ◌>>=◌, le→leb, leb_gt, bind-some, if-both, length, get_elem?, set, drop, take, replicate,
  length-append, length-set, length-replicate, length-drop, get_elem?-set_self, get_elem?-set_ne,
  get_elem?-replicate, get_elem?-none, get_elem?-some, get_elem?-append_left,
  get_elem?-append_right, get_elem?-drop, drop-eq-cons, drop-eq-nil, take-all, get_elem?-in_range,
  length-take, length-take_le, add32, sub32, add64, sub64, mul64,
}
use Prim.Native.String.{String}
use text.Mathlib.Text.{◌==◌ as ◌=str◌}
use datahandlinglibs.FileIo.{Disk, Platform, Writer, FileError, open_writer, close}
use datahandlinglibs.FileIo.Recorder.{RecorderConf, remove_file}

pub record OutputConf : Type 0 where
  pub data_type : String
  pub uid : String
  pub send_timeout_ms : ℕ

-- What `conf` reads. The percentages are floats: `in_range` tells that both are from 0 to 1,
-- `limit_of n` is `m_pop_limit_pct * n` cut to `unsigned`, and `kept_of n` is
-- `n - n * m_pop_size_pct` cut to `size_t`.
pub record HandlerConf : Type 0 where
  pub source_id : ℕ
  pub detector_id : ℕ
  pub in_range : Bool
  pub limit_of : ℕ → ℕ
  pub kept_of : ℕ → ℕ
  pub latency_buffer_size : ℕ
  pub handler_threads : ℕ
  pub request_timeout : ℕ
  pub outputs : List OutputConf
  pub data_recorder : Option RecorderConf
  pub warn_on_timeout : Bool
  pub warn_on_empty_buffer : Bool
  pub periodic_data_transmission_ms : ℕ

-- The configuration of the handler and its threads; `pool` is the number of threads in the pool.
pub record Setup : Type 0 where
  pub source_id : ℕ
  pub detid : ℕ
  pub buffer_capacity : ℕ
  pub num_request_handling_threads : ℕ
  pub request_timeout_ms : ℕ
  pub fragment_send_timeout_ms : ℕ
  pub frag_out_conn_ids : List String
  pub recording_configured : Bool
  pub output_file : String
  pub stream_buffer_size : ℕ
  pub writer : Writer
  pub warn_on_timeout : Bool
  pub warn_about_empty_buffer : Bool
  pub periodic_data_transmission_ms : ℕ
  pub pop_limit_size : ℕ
  pub max_requested_elements : ℕ
  -- "Auto-pop percentage out of range."
  pub errors : ℕ
  pub run_marker : Bool
  pub pool : Option ℕ
  pub cleanup_thread : Bool
  pub periodic_transmission_thread : Bool
  pub waiting_queue_thread : Bool

abbrev pub conf_output : OutputConf → Setup → Setup
conf_output o s =
    if o.data_type =str "Fragment"
    then record s {
      fragment_send_timeout_ms = o.send_timeout_ms;
      frag_out_conn_ids = s.frag_out_conn_ids ++ (o.uid ∷ []);
    }
    else s

-- The loop over the outputs.
unfoldable pub conf_outputs : List OutputConf → Setup → Setup
conf_outputs [] s = s
conf_outputs (o ∷ outputs) s = conf_outputs outputs (conf_output o s)

abbrev pub conf_fields : HandlerConf → Setup → Setup
conf_fields c s = record s {
  source_id = c.source_id;
  detid = c.detector_id;
  buffer_capacity = c.latency_buffer_size;
  num_request_handling_threads = c.handler_threads;
  request_timeout_ms = c.request_timeout;
}

abbrev pub conf_limits : HandlerConf → Setup → Setup
conf_limits c s =
    let limit = c.limit_of s.buffer_capacity in
    if c.in_range
    then record s { pop_limit_size = limit; max_requested_elements = c.kept_of limit }
    else record s { errors = s.errors + 1 }

-- What `conf` does after the recording, unless its file could not be opened.
abbrev pub conf_rest :
    HandlerConf → Setup × Disk × Option FileError → Setup × Disk × Option FileError
conf_rest c (s, disk, some e) = (s, disk, some e)
conf_rest c (s, disk, none) = (
  conf_limits c (record s {
    warn_on_timeout = c.warn_on_timeout;
    warn_about_empty_buffer = c.warn_on_empty_buffer;
    periodic_data_transmission_ms = c.periodic_data_transmission_ms;
  }),
  disk,
  none,
)

module _ (p : Platform) where
  -- The output file is removed and opened; an exception of `open` leaves it unconfigured.
  unfoldable pub conf_recorder : RecorderConf → Setup → Disk → Setup × Disk × Option FileError
  conf_recorder r s disk =
      let (w, disk', failure) =
        open_writer p s.writer (remove_file r.output_file disk) r.output_file r.stream_buffer_size
          r.compression_algorithm r.use_o_direct in
      (
        record s {
          output_file = r.output_file;
          stream_buffer_size = r.stream_buffer_size;
          writer = w;
          recording_configured = elim failure [ none ↦ true | some _ ↦ false ];
        },
        disk',
        failure,
      )

  unfoldable pub conf_recording : HandlerConf → Setup → Disk → Setup × Disk × Option FileError
  unfolding conf_recorder
  conf_recording c s disk =
      if s.recording_configured
      then (s, disk, none)
      else elim c.data_recorder [ none ↦ (s, disk, none) | some r ↦ conf_recorder r s disk ]

  -- `conf`
  unfoldable pub conf : HandlerConf → Setup → Disk → Setup × Disk × Option FileError
  unfolding conf_recording
  conf c s disk = conf_rest c (conf_recording c (conf_outputs c.outputs (conf_fields c s)) disk)

  -- `scrap`
  unfoldable pub scrap : Setup → Disk → Setup × Disk
  scrap s disk =
      if s.writer.is_open
      then (record s { writer = (close p s.writer disk).0 }, (close p s.writer disk).1)
      else (s, disk)

-- `start`, after the counters.
unfoldable pub start : Setup → Setup
start s = record s {
  pool = some s.num_request_handling_threads;
  run_marker = true;
  cleanup_thread = true;
  periodic_transmission_thread =
      ltb 0 s.periodic_data_transmission_ms || s.periodic_transmission_thread;
  waiting_queue_thread = true;
}

-- `stop`, with its waits done: the threads have ended, and the pool has no threads left.
unfoldable pub stop : Setup → Setup
stop s = record s {
  run_marker = false;
  cleanup_thread = false;
  periodic_transmission_thread = false;
  waiting_queue_thread = false;
  pool = some 0;
}
