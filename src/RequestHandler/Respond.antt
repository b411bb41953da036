-- ===== src/RequestHandler/Respond.antt =====
-- `data_request`, `create_fragment_header` and `create_empty_fragment`: a fragment for a request,
-- with the error bits and the counters that its result code sets.
pub mod Codes
pub mod Answers
use datahandlinglibs.Base.{
  ℕ, zero, suc, ◌+◌, ◌-◌, ◌*◌, ◌/◌, ◌%◌, ◌^◌, ◌≤◌, ◌<◌, min, max, ◌≡◌, refl, sym, ap, ap₂, subst,
  ◌∙◌, ◌≢◌, ◌↔◌, ◌⊎◌, inl, inr, Bool, true, false, not, ◌&&◌, ◌||◌, Option, none, some, List, [],
  ◌∷◌, ◌++◌, map, append_assoc, append-nil, arith, dec_lt, dec_le, ℕ_discrete, ltb, leb, ◌==◌,
  if◌then◌else◌, ltb→lt, lt→ltb, ltb_ge, le→ltb, leb→le, ==_iff, Bool-cases, Option-cases, ne→==,
  eq→==, ◌>>=◌, le→leb, leb_gt, length, get_elem?, set, drop, take, replicate, length-append,
  length-set, length-replicate, length-drop, get_elem?-set_self, get_elem?-set_ne,
  get_elem?-replicate, get_elem?-none, get_elem?-some, get_elem?-append_left,
  get_elem?-append_right, get_elem?-drop, drop-eq-cons, drop-eq-nil, take-all, add32, sub32, add64,
  sub64, mul64,
}
use mathlib.Core.Option
use datahandlinglibs.Readout.{Readout}
use datahandlinglibs.LatencyBuffer.{Buffer}
use datahandlinglibs.RequestHandler.{ResultCode, Piece, DataRequest}
use datahandlinglibs.RequestHandler.Pieces.{get_fragment_pieces}

-- What the handler knows of its own link.
pub record Identity : Type 0 where
  pub fragment_type : ℕ
  pub detector_id : ℕ
  pub subsystem : ℕ
  pub source_id : ℕ

-- The two bits of `error_bits` that the code sets; their positions are the data format's.
pub record ErrorBits : Type 0 where
  pub data_not_found : Bool
  pub incomplete : Bool

pub record FragmentHeader : Type 0 where
  pub trigger_number : ℕ
  pub trigger_timestamp : ℕ
  pub window_begin : ℕ
  pub window_end : ℕ
  pub run_number : ℕ
  pub fragment_type : ℕ
  pub sequence_number : ℕ
  pub detector_id : ℕ
  pub subsystem : ℕ
  pub source_id : ℕ
  pub error_bits : ErrorBits

pub record Fragment (T : Type 0) : Type 0 where
  pub header : FragmentHeader
  pub pieces : List (Piece T)

-- `RequestResult`
pub record RequestResult (T : Type 0) : Type 0 where
  pub result_code : ResultCode
  pub data_request : DataRequest
  pub fragment : Fragment T

-- The counters of requests, each the 32 bits of an `atomic<int>`.
pub record Counters : Type 0 where
  pub num_requests_found : ℕ
  pub num_requests_bad : ℕ
  pub num_requests_old_window : ℕ
  pub num_requests_delayed : ℕ
  pub num_requests_timed_out : ℕ
  pub handled_requests : ℕ

abbrev pub create_fragment_header : Identity → DataRequest → FragmentHeader
create_fragment_header id dr = record {
  trigger_number = dr.trigger_number;
  trigger_timestamp = dr.trigger_timestamp;
  window_begin = dr.window_begin;
  window_end = dr.window_end;
  run_number = dr.run_number;
  fragment_type = id.fragment_type;
  sequence_number = dr.sequence_number;
  detector_id = id.detector_id;
  subsystem = id.subsystem;
  source_id = id.source_id;
  error_bits = record { data_not_found = false; incomplete = false };
}

abbrev pub set_not_found : FragmentHeader → FragmentHeader
set_not_found h = record h { error_bits = record (h.error_bits) { data_not_found = true } }

abbrev pub set_incomplete : FragmentHeader → FragmentHeader
set_incomplete h = record h { error_bits = record (h.error_bits) { incomplete = true } }

abbrev pub create_empty_fragment : {T : Type 0} → Identity → DataRequest → Fragment T
create_empty_fragment id dr = record {
  header = set_not_found (create_fragment_header id dr);
  pieces = [];
}

abbrev pub count_found : Counters → Counters
count_found c = record c { num_requests_found = add32 c.num_requests_found 1 }

abbrev pub count_bad : Counters → Counters
count_bad c = record c { num_requests_bad = add32 c.num_requests_bad 1 }

abbrev pub count_old : Counters → Counters
count_old c = record c { num_requests_old_window = add32 c.num_requests_old_window 1 }

abbrev pub count_delayed : Counters → Counters
count_delayed c = record c { num_requests_delayed = add32 c.num_requests_delayed 1 }

-- The `switch` on the result code.
abbrev pub classify : ResultCode → FragmentHeader → Counters → FragmentHeader × Counters
classify ResultCode.too_old h c = (set_not_found h, count_bad (count_old c))
classify ResultCode.partially_old h c =
    (set_not_found (set_incomplete h), count_found (count_old c))
classify ResultCode.found h c = (h, count_found c)
classify ResultCode.partial h c = (set_incomplete h, count_delayed c)
classify ResultCode.not_yet h c = (set_not_found h, count_delayed c)
classify ResultCode.not_found h c = (set_not_found h, count_bad c)
classify ResultCode.cleanup h c = (set_not_found h, count_bad c)
classify ResultCode.unknown h c = (set_not_found h, count_bad c)

abbrev pub respond :
    {T : Type 0}
    → DataRequest
    → FragmentHeader
    → Counters
    → ResultCode × List (Piece T)
    → RequestResult T × Counters
respond dr h c (code, ps) =
    let (header, counters) = classify code h c in
    (
      record {
        result_code = code;
        data_request = dr;
        fragment = record { header = header; pieces = ps };
      },
      counters,
    )

module _ {T : Type 0} (rt : Readout T) {B I : Type 0} (buf : Buffer T B I) (id : Identity) where
  -- An empty buffer is answered as a search that finds nothing. `none` where `get_fragment_pieces`
  -- is.
  unfoldable pub data_request :
      B → Bool → DataRequest → Counters → Option (RequestResult T × Counters)
  data_request b missing_frames dr c =
      if buf.occupancy b == 0
      then some (respond dr (create_fragment_header id dr) c (ResultCode.not_found, []))
      else Option.map (respond dr (create_fragment_header id dr) c)
          (get_fragment_pieces rt buf b dr.window_begin dr.window_end missing_frames)
