-- ===== src/DataSubscriber.antt =====
-- include/datahandlinglibs/models/DataSubscriberModel.hpp: a receiver's callback that passes payloads
-- on to a sender. The sender's answers are arguments; the counters do not reach 2^64.
pub mod Totals
use datahandlinglibs.Base.{
  ℕ, zero, suc, ◌+◌, ◌-◌, ◌*◌, ◌/◌, ◌%◌, ◌^◌, ◌≤◌, ◌<◌, min, max, ◌≡◌, refl, sym, ap, ap₂, subst,
  ◌∙◌, ◌≢◌, ◌↔◌, ◌⊎◌, inl, inr, Bool, true, false, not, ◌&&◌, ◌||◌, Option, none, some, List, [],
  ◌∷◌, ◌++◌, map, append_assoc, append-nil, arith, dec_lt, dec_le, ℕ_discrete, ltb, leb, ◌==◌,
  if◌then◌else◌, ltb→lt, lt→ltb, ltb_ge, le→ltb, leb→le, ==_iff, Bool-cases, Option-cases, ne→==,
  eq→==, ◌>>=◌, le→leb, leb_gt, bind-some, if-both, length, get_elem?, set, drop, take, replicate,
  length-append, length-set, length-replicate, length-drop, get_elem?-set_self, get_elem?-set_ne,
  get_elem?-replicate, get_elem?-none, get_elem?-some, get_elem?-append_left,
  get_elem?-append_right, get_elem?-drop, drop-eq-cons, drop-eq-nil, take-all, get_elem?-in_range,
  length-take, length-take_le, add32, sub32, add64, sub64, mul64,
}

pub record Subscriber : Type 0 where
  pub packets : ℕ
  pub sum_packets : ℕ
  pub dropped_packets : ℕ
  pub callback : Bool

pub data InitError : Type 0 where
  one_output_only one_input_only : InitError

-- `init` on the numbers of outputs and inputs.
unfoldable pub init : ℕ → ℕ → Option InitError
init outputs inputs =
    if not (outputs == 1)
    then some one_output_only
    else if not (inputs == 1)
    then some one_input_only
    else none

unfoldable pub start : Subscriber → Subscriber
start s = record { packets = 0; sum_packets = 0; dropped_packets = 0; callback = true }

unfoldable pub stop : Subscriber → Subscriber
stop s = record s { callback = false }

-- `handle_payload`, with the answer of `try_send`.
unfoldable pub handle_payload : Bool → Subscriber → Subscriber
handle_payload sent s = record s {
  packets = add64 s.packets 1;
  sum_packets = add64 s.sum_packets 1;
  dropped_packets = if not sent then add64 s.dropped_packets 1 else s.dropped_packets;
}

-- `opmon::DataSourceInfo`
pub record Info : Type 0 where
  pub num_packets : ℕ
  pub sum_packets : ℕ
  pub num_dropped_packets : ℕ

unfoldable pub generate_opmon_data : Subscriber → Subscriber × Info
generate_opmon_data s = (
  record s { packets = 0; dropped_packets = 0 },
  record {
    num_packets = s.packets;
    sum_packets = s.sum_packets;
    num_dropped_packets = s.dropped_packets;
  },
)
