-- ===== src/Readout.antt =====
-- The payload types. `ReadoutType` (RDT) is a template parameter that the detector packages fill:
-- here it is a record of what the code asks of it, with the laws that a search relies on.
-- include/datahandlinglibs/ReadoutTypes.hpp has one such type, the dummy frame.
pub mod Order
use datahandlinglibs.Base.{
  ℕ, zero, suc, ◌+◌, ◌-◌, ◌*◌, ◌/◌, ◌%◌, ◌^◌, ◌≤◌, ◌<◌, min, max, ◌≡◌, refl, sym, ap, ap₂, subst,
  ◌∙◌, ◌≢◌, ◌↔◌, ◌⊎◌, inl, inr, Bool, true, false, not, ◌&&◌, ◌||◌, Option, none, some, List, [],
  ◌∷◌, ◌++◌, map, append_assoc, append-nil, arith, dec_lt, dec_le, ℕ_discrete, ltb, leb, ◌==◌,
  if◌then◌else◌, ltb→lt, lt→ltb, ltb_ge, le→ltb, leb→le, ==_iff, Bool-cases, Option-cases, ne→==,
  eq→==, length, get_elem?, set, drop, take, replicate, length-append, length-set, length-replicate,
  length-drop, get_elem?-set_self, get_elem?-set_ne, get_elem?-replicate, get_elem?-none,
  get_elem?-some, get_elem?-append_left, get_elem?-append_right, get_elem?-drop, drop-eq-cons,
  drop-eq-nil, take-all, add32, sub32, add64, sub64, mul64,
}

-- What a payload offers. `tick` is `expected_tick_difference`, `less` is `operator<`, `blank` is the
-- payload `RDT()`, and `frames` are the timestamps of the frames from `begin()` to `end()`.
pub record Readout {ℓ} (T : Type ℓ) : Type ℓ where
  pub timestamp : T → ℕ
  pub num_frames : T → ℕ
  pub less : T → T → Bool
  pub tick : ℕ
  pub blank : T
  pub set_timestamp : T → ℕ → T
  pub frames : T → List ℕ

-- Payloads of different timestamps are ordered by them; ties may be broken by further keys.
pub record Laws {ℓ} {T : Type ℓ} (rt : Readout T) : Type ℓ where
  pub less_of_lt : (a b : T) → rt.timestamp a < rt.timestamp b → rt.less a b ≡ true
  pub less_of_gt : (a b : T) → rt.timestamp b < rt.timestamp a → rt.less a b ≡ false
  pub timestamp-set_timestamp : (a : T) (ts : ℕ) → rt.timestamp (rt.set_timestamp a ts) ≡ ts

-- `DUMMY_FRAME_STRUCT`, without its 1024 bytes of data.
pub record DummyFrame : Type 0 where
  pub timestamp : ℕ
  pub another_key : ℕ

-- The order of the tuples of the two keys.
abbrev pub dummy_less : DummyFrame → DummyFrame → Bool
dummy_less a b =
    ltb a.timestamp b.timestamp
    || not (ltb b.timestamp a.timestamp) && ltb a.another_key b.another_key

abbrev pub set_timestamp : DummyFrame → ℕ → DummyFrame
set_timestamp f ts = record f { timestamp = ts }

abbrev pub set_another_key : DummyFrame → ℕ → DummyFrame
set_another_key f key = record f { another_key = key }

-- One frame to an element. The ticks between frames are the user's.
abbrev pub dummy_readout : ℕ → Readout DummyFrame
dummy_readout tick = record {
  timestamp = λ f. f.timestamp;
  num_frames = λ f. 1;
  less = dummy_less;
  tick = tick;
  blank = record { timestamp = 0; another_key = 0 };
  set_timestamp = set_timestamp;
  frames = λ f. f.timestamp ∷ [];
}

-- The composite order refines the order of timestamps.
pub dummy_readout-Laws : (tick : ℕ) → Laws (dummy_readout tick)
dummy_readout-Laws tick = record {
  less_of_lt = λ a b h. ground arith;
  less_of_gt = λ a b h. ground arith;
  timestamp-set_timestamp = λ a ts. refl;
}
