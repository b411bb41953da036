-- ===== src/RequestHandler.antt =====
-- include/datahandlinglibs/concepts/RequestHandlerConcept.hpp and
-- models/DefaultRequestHandlerModel.hpp with its detail file: data requests answered by fragments
-- of the latency buffer. This file has the data; the children have the operations.
pub mod Pieces
pub mod Respond
pub mod Cleanup
pub mod Jobs
pub mod Exclusion
pub mod Opmon
pub mod ZeroCopy
pub mod Record
pub mod Setup
use datahandlinglibs.Base.{
  ℕ, zero, suc, ◌+◌, ◌-◌, ◌*◌, ◌/◌, ◌%◌, ◌^◌, ◌≤◌, ◌<◌, min, max, ◌≡◌, refl, sym, ap, ap₂, subst,
  ◌∙◌, ◌≢◌, ◌↔◌, ◌⊎◌, inl, inr, Bool, true, false, not, ◌&&◌, ◌||◌, Option, none, some, List, [],
  ◌∷◌, ◌++◌, map, append_assoc, append-nil, arith, dec_lt, dec_le, ℕ_discrete, ltb, leb, ◌==◌,
  if◌then◌else◌, ltb→lt, lt→ltb, ltb_ge, le→ltb, leb→le, ==_iff, Bool-cases, Option-cases, ne→==,
  eq→==, ◌>>=◌, length, get_elem?, set, drop, take, replicate, length-append, length-set,
  length-replicate, length-drop, get_elem?-set_self, get_elem?-set_ne, get_elem?-replicate,
  get_elem?-none, get_elem?-some, get_elem?-append_left, get_elem?-append_right, get_elem?-drop,
  drop-eq-cons, drop-eq-nil, take-all, add32, sub32, add64, sub64, mul64,
}

-- `ResultCode`
pub data ResultCode : Type 0 where
  found not_found too_old not_yet partial partially_old cleanup unknown : ResultCode

-- A pointer into the buffer with its size: a whole payload, or one frame of a payload by its index.
pub data Piece (T : Type 0) : Type 0 where
  whole : T → Piece T
  frame : T → ℕ → Piece T

-- `dfmessages::DataRequest`, the fields that the code reads.
pub record DataRequest : Type 0 where
  pub trigger_number : ℕ
  pub sequence_number : ℕ
  pub run_number : ℕ
  pub trigger_timestamp : ℕ
  pub window_begin : ℕ
  pub window_end : ℕ
  pub component : ℕ
  pub data_destination : ℕ
