-- ===== src/DataHandling/Lifecycle.antt =====
-- `conf`, `scrap`, `record`, `start`, `stop` and `generate_opmon_data` of include/datahandlinglibs/models/detail/DataHandlingModel.hxx,
-- called by the module of include/datahandlinglibs/detail/RawDataHandlerBase.hxx. A call of another
-- component is one act; the waits for threads end with the thread stopped.
pub mod Order
use datahandlinglibs.Base.{
  ℕ, zero, suc, ◌+◌, ◌-◌, ◌*◌, ◌/◌, ◌%◌, ◌^◌, ◌≤◌, ◌<◌, min, max, ◌≡◌, refl, sym, ap, ap₂, subst,
  ◌∙◌, ◌≢◌, ◌↔◌, ◌⊎◌, inl, inr, Bool, true, false, not, ◌&&◌, ◌||◌, Option, none, some, List, [],
  ◌∷◌, ◌++◌, map, append_assoc, append-nil, arith, dec_lt, dec_le, ℕ_discrete, ltb, leb, ◌==◌,
  if◌then◌else◌, ltb→lt, lt→ltb, ltb_ge, le→ltb, leb→le, ==_iff, Bool-cases, Option-cases, ne→==,
  eq→==, ◌>>=◌, le→leb, leb_gt, bind-some, if-both, length, get_elem?, set, drop, take, replicate,
  length-append, length-set, length-replicate, length-drop, get_elem?-set_self, get_elem?-set_ne,
  get_elem?-replicate, get_elem?-none, get_elem?-some, get_elem?-append_left,
  get_elem?-append_right, get_elem?-drop, drop-eq-cons, drop-eq-nil, take-all, get_elem?-in_range,
  length-take, length-take_le, add32, sub32, add64, sub64, mul64,
}

-- What is running.
pub record Model : Type 0 where
  pub configured : Bool
  pub run_marker : Bool
  pub run_number : ℕ
  pub processor : Bool
  pub handler : Bool
  pub consumer : Bool
  pub timesync : Bool
  pub callback : Bool
  -- `consume_payload` is registered: whoever has the payloads may call it, whatever the run marker
  pub data_callback : Bool
  -- a flush of the buffer while the consumer thread or `consume_payload` may write to it
  pub flush_race : Bool
  pub last_daq_time : ℕ
  -- how often `record` and `scrap` of the request handler were called
  pub recordings : ℕ
  pub handler_scraps : ℕ
  pub buffer_scraps : ℕ
  pub processor_scraps : ℕ

pub data Act : Type 0 where
  mark : Bool → Act
  configure : Bool → Act
  register_consume : Act
  start_processor start_handler start_consumer start_timesync add_callback : Act
  set_run_number : ℕ → Act
  remove_callback stop_handler join_timesync join_consumer flush_buffer stop_processor : Act
  reset_last_daq_time : Act
  record_handler scrap_handler scrap_buffer scrap_processor : Act

-- The consumer thread ends where the run marker is false.
unfoldable pub act : Act → Model → Model
act (mark b) m = record m { run_marker = b }
act (configure b) m = record m { configured = b }
act register_consume m = record m { data_callback = true }
act start_processor m = record m { processor = true }
act start_handler m = record m { handler = true }
act start_consumer m = record m { consumer = true }
act start_timesync m = record m { timesync = true }
act add_callback m = record m { callback = true }
act (set_run_number n) m = record m { run_number = n }
act remove_callback m = record m { callback = false }
act stop_handler m = record m { handler = false }
act join_timesync m = record m { timesync = false }
act join_consumer m = record m { consumer = false }
act flush_buffer m = record m { flush_race = m.flush_race || m.consumer || m.data_callback }
act stop_processor m = record m { processor = false }
act reset_last_daq_time m = record m { last_daq_time = 0 }
act record_handler m = record m { recordings = m.recordings + 1 }
act scrap_handler m = record m { handler_scraps = m.handler_scraps + 1 }
act scrap_buffer m = record m { buffer_scraps = m.buffer_scraps + 1 }
act scrap_processor m = record m { processor_scraps = m.processor_scraps + 1 }

abbrev pub when : Bool → Act → List Act
when b a = if b then a ∷ [] else []

-- `DataHandlingModel::conf`, in callback mode or not. Nothing removes the registration.
unfoldable pub conf_acts : Bool → List Act
conf_acts callback_mode = when callback_mode register_consume

-- `DataHandlingModel::scrap`
unfoldable pub scrap_acts : List Act
scrap_acts = scrap_handler ∷ scrap_buffer ∷ scrap_processor ∷ []

-- `DataHandlingModel::start`, in callback mode or not, with time synchronisation or not.
unfoldable pub start_acts : Bool → Bool → List Act
start_acts callback_mode generate_timesync =
    start_processor ∷ start_handler ∷ when (not callback_mode) start_consumer
    ++ (when generate_timesync start_timesync ++ (add_callback ∷ []))

-- `DataHandlingModel::stop`
unfoldable pub stop_acts : Bool → Bool → List Act
stop_acts callback_mode generate_timesync =
    remove_callback ∷ stop_handler ∷ when generate_timesync join_timesync
    ++ (when (not callback_mode) join_consumer
        ++ (flush_buffer ∷ stop_processor ∷ reset_last_daq_time ∷ []))

-- The commands of the module.
pub data Command : Type 0 where
  conf scrap stop record_data : Command
  start : ℕ → Command

-- `do_conf`, `do_scrap`, `do_start`, `do_stop` and `do_record` of RawDataHandlerBase.
unfoldable pub acts : Bool → Bool → Command → List Act
unfolding conf_acts scrap_acts start_acts stop_acts
acts callback_mode generate_timesync conf = conf_acts callback_mode ++ (configure true ∷ [])
acts callback_mode generate_timesync scrap = scrap_acts ++ (configure false ∷ [])
acts callback_mode generate_timesync record_data = record_handler ∷ []
acts callback_mode generate_timesync (start run) =
    mark true ∷ start_acts callback_mode generate_timesync ++ (set_run_number run ∷ [])
acts callback_mode generate_timesync stop = mark false ∷ stop_acts callback_mode generate_timesync

pub data InitError : Type 0 where
  not_a_data_handler_module no_implementation : InitError

-- `RawDataHandlerBase::init`: is there a configuration, and did the factory make an implementation?
unfoldable pub init : Bool → Bool → Option InitError
init has_configuration made =
    if not has_configuration
    then some not_a_data_handler_module
    else if not made
    then some no_implementation
    else none

-- The module at first.
abbrev pub fresh : Model
fresh = record {
  configured = false;
  run_marker = false;
  run_number = 0;
  processor = false;
  handler = false;
  consumer = false;
  timesync = false;
  callback = false;
  data_callback = false;
  flush_race = false;
  last_daq_time = 0;
  recordings = 0;
  handler_scraps = 0;
  buffer_scraps = 0;
  processor_scraps = 0;
}

-- The counters of the operational monitoring.
pub record Counters : Type 0 where
  pub sum_payloads : ℕ
  pub num_payloads : ℕ
  pub sum_requests : ℕ
  pub num_requests : ℕ
  pub num_payloads_overwritten : ℕ
  pub stats_packet_count : ℕ
  pub rawq_timeout_count : ℕ

-- `start` resets all counters.
abbrev pub reset_counters : Counters
reset_counters = record {
  sum_payloads = 0;
  num_payloads = 0;
  sum_requests = 0;
  num_requests = 0;
  num_payloads_overwritten = 0;
  stats_packet_count = 0;
  rawq_timeout_count = 0;
}

-- `opmon::DataHandlerInfo`, without the rate, which is a float of `new_packets` and the time.
pub record Info : Type 0 where
  pub counters : Counters
  pub last_daq_timestamp : ℕ

unfoldable pub generate_opmon_data : ℕ → Counters → Counters × Info
generate_opmon_data last_daq_time c = (
  record c {
    num_payloads = 0;
    rawq_timeout_count = 0;
    stats_packet_count = 0;
    num_payloads_overwritten = 0;
    num_requests = 0;
  },
  record { counters = c; last_daq_timestamp = last_daq_time },
)
