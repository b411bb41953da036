-- ===== src/Callbacks.antt =====
-- include/datahandlinglibs/DataMoveCallbackRegistry.hpp and detail/DataMoveCallbackRegistry.hxx: the
-- callbacks by id. What the templates take as `DataType` is a code here, and `Callback t` are the
-- functions that take a `t`.
pub mod Typed
use datahandlinglibs.Base.{
  ℕ, zero, suc, ◌+◌, ◌-◌, ◌*◌, ◌/◌, ◌%◌, ◌^◌, ◌≤◌, ◌<◌, min, max, ◌≡◌, refl, sym, ap, ap₂, subst,
  ◌∙◌, ◌≢◌, ◌↔◌, ◌⊎◌, inl, inr, Bool, true, false, not, ◌&&◌, ◌||◌, Option, none, some, List, [],
  ◌∷◌, ◌++◌, map, append_assoc, append-nil, arith, dec_lt, dec_le, ℕ_discrete, ltb, leb, ◌==◌,
  if◌then◌else◌, ltb→lt, lt→ltb, ltb_ge, le→ltb, leb→le, ==_iff, Bool-cases, Option-cases, ne→==,
  eq→==, ◌>>=◌, le→leb, leb_gt, bind-some, length, get_elem?, set, drop, take, replicate,
  length-append, length-set, length-replicate, length-drop, get_elem?-set_self, get_elem?-set_ne,
  get_elem?-replicate, get_elem?-none, get_elem?-some, get_elem?-append_left,
  get_elem?-append_right, get_elem?-drop, drop-eq-cons, drop-eq-nil, take-all, get_elem?-in_range,
  add32, sub32, add64, sub64, mul64,
}
use Prim.Native.String.{String}
use text.Mathlib.Text.{◌==◌ as ◌=str◌}

module _ (DataType : Type 0) (Callback : DataType → Type 0) where
  -- `DataMoveCallback<DataType>` behind a pointer to `CallbackConcept`.
  pub record Registered : Type 0 where
    pub data_type : DataType
    pub callback : Callback data_type

  -- `m_callback_map`
  abbrev pub Registry : Type 0
  Registry = List (String × Registered)

  -- The pointer that `get_callback` returns, or the fault that it runs into.
  pub data Answer (t : DataType) : Type 0 where
    nullptr : Answer t
    found : Callback t → Answer t
    null_dereference : Answer t

  unfoldable pub find : String → Registry → Option Registered
  find id [] = none
  find id ((key, r) ∷ registry) = if key =str id then some r else find id registry

  -- `register_callback<DataType>`: the first registration of an id stays.
  unfoldable pub register_callback : (t : DataType) → String → Callback t → Registry → Registry
  register_callback t id f registry = elim (find id registry) [
    | none ↦ registry ++ ((id, record { data_type = t; callback = f }) ∷ [])
    | some _ ↦ registry
  ]

  -- The `dynamic_cast` gives null for another type, and the next line reads through it.
  unfoldable pub provide : Discrete DataType → (t : DataType) → Registered → Answer t
  provide same t r = elim (same r.data_type t) [
    | yes e ↦ found (subst Callback e r.callback)
    | no _ ↦ null_dereference
  ]

  -- `get_callback<DataType>`
  unfoldable pub get_callback : Discrete DataType → (t : DataType) → String → Registry → Answer t
  get_callback same t id registry = elim (find id registry) [
    | none ↦ nullptr
    | some r ↦ provide same t r
  ]
