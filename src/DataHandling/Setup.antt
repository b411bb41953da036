-- ===== src/DataHandling/Setup.antt =====
-- `init` and `conf` of include/datahandlinglibs/models/detail/DataHandlingModel.hxx. A name is the
-- list of its characters.
pub mod Prefix
use datahandlinglibs.Base.{
  ℕ, zero, suc, ◌+◌, ◌-◌, ◌*◌, ◌/◌, ◌%◌, ◌^◌, ◌≤◌, ◌<◌, min, max, ◌≡◌, refl, sym, ap, ap₂, subst,
  ◌∙◌, ◌≢◌, ◌↔◌, ◌⊎◌, inl, inr, Bool, true, false, not, ◌&&◌, ◌||◌, Option, none, some, List, [],
  ◌∷◌, ◌++◌, map, append_assoc, append-nil, arith, dec_lt, dec_le, ℕ_discrete, ltb, leb, ◌==◌,
  if◌then◌else◌, ltb→lt, lt→ltb, ltb_ge, le→ltb, leb→le, ==_iff, Bool-cases, Option-cases, ne→==,
  eq→==, ◌>>=◌, le→leb, leb_gt, bind-some, if-both, length, get_elem?, set, drop, take, replicate,
  length-append, length-set, length-replicate, length-drop, get_elem?-set_self, get_elem?-set_ne,
  get_elem?-replicate, get_elem?-none, get_elem?-some, get_elem?-append_left,
  get_elem?-append_right, get_elem?-drop, drop-eq-cons, drop-eq-nil, take-all, get_elem?-in_range,
  length-take, length-take_le, add32, sub32, add64, sub64, mul64,
}

abbrev pub Name : Type 0
Name = List ℕ

-- '_'
abbrev pub delim : ℕ
delim = 95

-- "cb"
abbrev pub cb_prefix : Name
cb_prefix = 99 ∷ 98 ∷ []

abbrev pub same_name : Name → Name → Bool
same_name [] [] = true
same_name [] (d ∷ ys) = false
same_name (c ∷ xs) [] = false
same_name (c ∷ xs) (d ∷ ys) = (c == d) && same_name xs ys

-- The words of a name from a character on, after the characters `word` of the one begun.
unfoldable pub words : Name → Name → List Name
words [] [] = []
words (c ∷ word) [] = (c ∷ word) ∷ []
words word (c ∷ name) =
    let rest = words [] name in
    let longer = words (word ++ (c ∷ [])) name in
    if c == delim then (if length word == 0 then rest else word ∷ rest) else longer

pub record Input : Type 0 where
  pub is_data_request : Bool
  pub uid : Name
  pub recv_timeout_ms : ℕ

pub record Output : Type 0 where
  pub is_time_sync : Bool
  pub uid : Name

pub record ModuleConf : Type 0 where
  pub inputs : List Input
  pub outputs : List Output
  pub source_id : ℕ
  pub post_processing_delay_ticks : ℕ

-- The parts that `init` makes and configures.
pub data Part : Type 0 where
  raw_processor latency_buffer request_handler : Part

pub record Setup : Type 0 where
  pub data_request_receiver : Option Name
  pub raw_data_receiver_connection_name : Name
  pub callback_mode : Bool
  pub raw_data_receiver : Option Name
  pub raw_receiver_timeout_ms : ℕ
  pub generate_timesync : Bool
  pub timesync_connection_name : Name
  pub fake_trigger : Bool
  pub source_id : ℕ
  pub processing_delay_ticks : ℕ
  pub configured : List Part
  -- `ConfigurationError`
  pub errors : ℕ
  -- the names of the callbacks registered
  pub callbacks : List Name

-- Why `init` does not end: `ResourceQueueError`, or the first word of a name without words.
pub data Failure : Type 0 where
  resource_queue no_front : Failure

module _ (receiver sender : Name → Bool) where
  -- The receiver of an input of data; `receiver` tells whether the manager gives one.
  unfoldable pub receive_raw : Input → Setup → Setup × Option Failure
  receive_raw i s =
      if s.callback_mode
      then (s, none)
      else if receiver i.uid
      then (
        record s { raw_data_receiver = some i.uid; raw_receiver_timeout_ms = i.recv_timeout_ms },
        none,
      )
      else (s, some resource_queue)

  unfoldable pub init_raw : Input → Setup → Setup × Option Failure
  unfolding receive_raw
  init_raw i s = elim (words [] i.uid) [
    | [] ↦ (record s { raw_data_receiver_connection_name = i.uid }, some no_front)
    | front ∷ _ ↦ receive_raw i (record s {
      raw_data_receiver_connection_name = i.uid;
      callback_mode = same_name front cb_prefix || s.callback_mode;
    })
  ]

  unfoldable pub init_input : Input → Setup → Setup × Option Failure
  unfolding init_raw
  init_input i s =
      if i.is_data_request
      then (if receiver i.uid
          then (record s { data_request_receiver = some i.uid }, none)
          else (s, some resource_queue))
      else init_raw i s

  -- The loop over the inputs.
  unfoldable pub init_inputs : List Input → Setup → Setup × Option Failure
  unfolding init_input
  init_inputs [] s = (s, none)
  init_inputs (i ∷ inputs) s =
      let now = init_input i s in
      let rest = init_inputs inputs now.0 in elim now.1 [ none ↦ rest | some f ↦ (now.0, some f) ]

  -- The loop over the outputs, up to the first of time synchronisation.
  unfoldable pub init_outputs : List Output → Setup → Setup × Option Failure
  init_outputs [] s = (s, none)
  init_outputs (o ∷ outputs) s =
      let rest = init_outputs outputs s in
      let synced = record s { generate_timesync = true } in
      if not o.is_time_sync
      then rest
      else if sender o.uid
      then (record synced { timesync_connection_name = o.uid }, none)
      else (synced, some resource_queue)

  -- The rest of `init`; `allocated` is false where the buffer's `conf` throws `bad_alloc`.
  unfoldable pub init_parts : Bool → ModuleConf → Setup → Setup
  init_parts allocated c s =
      let unset : ℕ = elim s.raw_data_receiver [
        | none ↦ if s.callback_mode then 0 else 1
        | some _ ↦ 0
      ] in
      record s {
        errors = s.errors + unset + (if allocated then 0 else 1);
        fake_trigger = false;
        source_id = c.source_id;
        processing_delay_ticks = c.post_processing_delay_ticks;
        configured = s.configured ++ (raw_processor ∷ latency_buffer ∷ request_handler ∷ []);
      }

  -- `init`
  unfoldable pub init : Bool → ModuleConf → Setup → Setup × Option Failure
  unfolding init_inputs init_outputs init_parts
  init allocated c s =
      let inputs = init_inputs c.inputs s in
      let outputs = init_outputs c.outputs inputs.0 in
      elim inputs.1 [
        | some f ↦ (inputs.0, some f)
        | none ↦ elim outputs.1 [
          | some f ↦ (outputs.0, some f)
          | none ↦ (init_parts allocated c outputs.0, none)
        ]
      ]

-- `conf`
unfoldable pub conf : Setup → Setup
conf s =
    if s.callback_mode
    then record s { callbacks = s.callbacks ++ (s.raw_data_receiver_connection_name ∷ []) }
    else s
