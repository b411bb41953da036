-- ===== src/DataHandling/Timesync.antt =====
-- `run_timesync`: the DAQ time is announced when it is new, and triggers a request in test mode.
pub mod Sequence
use datahandlinglibs.Base.{
  ℕ, zero, suc, ◌+◌, ◌-◌, ◌*◌, ◌/◌, ◌%◌, ◌^◌, ◌≤◌, ◌<◌, min, max, ◌≡◌, refl, sym, ap, ap₂, subst,
  ◌∙◌, ◌≢◌, ◌↔◌, ◌⊎◌, inl, inr, Bool, true, false, not, ◌&&◌, ◌||◌, Option, none, some, List, [],
  ◌∷◌, ◌++◌, map, append_assoc, append-nil, arith, dec_lt, dec_le, ℕ_discrete, ltb, leb, ◌==◌,
  if◌then◌else◌, ltb→lt, lt→ltb, ltb_ge, le→ltb, leb→le, ==_iff, Bool-cases, Option-cases, ne→==,
  eq→==, ◌>>=◌, le→leb, leb_gt, bind-some, length, get_elem?, set, drop, take, replicate,
  length-append, length-set, length-replicate, length-drop, get_elem?-set_self, get_elem?-set_ne,
  get_elem?-replicate, get_elem?-none, get_elem?-some, get_elem?-append_left,
  get_elem?-append_right, get_elem?-drop, drop-eq-cons, drop-eq-nil, take-all, add32, sub32, add64,
  sub64, mul64,
}
use datahandlinglibs.RequestHandler.{DataRequest}

-- `dfmessages::TimeSync`, the fields that the code sets.
pub record TimeSync : Type 0 where
  pub daq_time : ℕ
  pub run_number : ℕ
  pub sequence_number : ℕ
  pub source_pid : ℕ

pub record SyncSettings : Type 0 where
  pub run_number : ℕ
  pub pid_of_current_process : ℕ
  pub fake_trigger : Bool
  pub source_id : ℕ
  pub data_fragments_q : ℕ
  pub sequence_default : ℕ
  pub run_default : ℕ

-- The local variables of the thread, the counters of requests, and what it sent and issued.
pub record SyncState : Type 0 where
  pub msg_seqno : ℕ
  pub prev_timestamp : ℕ
  pub once_per_run : Bool
  pub zero_timestamp_count : ℕ
  pub duplicate_timestamp_count : ℕ
  pub total_timestamp_count : ℕ
  pub current_fake_trigger_id : ℕ
  pub num_requests : ℕ
  pub sum_requests : ℕ
  pub sent : List TimeSync
  pub issued : List DataRequest

-- The start of the thread.
abbrev pub sync_start : SyncState → SyncState
sync_start s = record s {
  msg_seqno = 0;
  prev_timestamp = 0;
  once_per_run = true;
  zero_timestamp_count = 0;
  duplicate_timestamp_count = 0;
  total_timestamp_count = 0;
  num_requests = 0;
  sum_requests = 0;
}

-- The request of a fake trigger; the sequence and run number stay as `DataRequest()` sets them.
abbrev pub fake_request : SyncSettings → ℕ → ℕ → DataRequest
fake_request c trigger_id daq_time =
    let trigger_timestamp = if ltb (500 * 1000) daq_time then daq_time - 500 * 1000 else 0 in
    let window_begin = if ltb 100 trigger_timestamp then trigger_timestamp - 100 else 0 in
    record {
      trigger_number = trigger_id;
      sequence_number = c.sequence_default;
      run_number = c.run_default;
      trigger_timestamp = trigger_timestamp;
      window_begin = window_begin;
      window_end = add64 window_begin 300000;
      component = c.source_id;
      data_destination = c.data_fragments_q;
    }

abbrev pub trigger : SyncSettings → ℕ → SyncState → SyncState
trigger c daq_time s = record s {
  current_fake_trigger_id = add32 s.current_fake_trigger_id 1;
  issued = s.issued ++ (fake_request c (add32 s.current_fake_trigger_id 1) daq_time ∷ []);
  num_requests = add32 s.num_requests 1;
  sum_requests = add32 s.sum_requests 1;
}

abbrev pub announce : SyncSettings → ℕ → SyncState → SyncState
announce c daq_time s = record s {
  prev_timestamp = daq_time;
  msg_seqno = add64 s.msg_seqno 1;
  sent =
      s.sent
      ++ (record {
        daq_time = daq_time;
        run_number = c.run_number;
        sequence_number = add64 s.msg_seqno 1;
        source_pid = c.pid_of_current_process;
      }
          ∷ []);
}

abbrev pub skip_sync : ℕ → SyncState → SyncState
skip_sync daq_time s = record s {
  zero_timestamp_count =
      if daq_time == 0 then add64 s.zero_timestamp_count 1 else s.zero_timestamp_count;
  duplicate_timestamp_count =
      if daq_time == s.prev_timestamp
      then add64 s.duplicate_timestamp_count 1
      else s.duplicate_timestamp_count;
  once_per_run = false;
}

-- One round, with the time that `get_last_daq_time` gives.
unfoldable pub sync_round : SyncSettings → ℕ → SyncState → SyncState
sync_round c daq_time s =
    let counted = record s { total_timestamp_count = add64 s.total_timestamp_count 1 } in
    if not (daq_time == 0) && not (daq_time == s.prev_timestamp)
    then (let announced = announce c daq_time counted in
        if c.fake_trigger then trigger c daq_time announced else announced)
    else skip_sync daq_time counted

unfoldable pub run_timesync : SyncSettings → List ℕ → SyncState → SyncState
unfolding sync_round
run_timesync c [] s = s
run_timesync c (t ∷ ts) s = run_timesync c ts (sync_round c t s)
