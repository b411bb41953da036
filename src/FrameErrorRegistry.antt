-- ===== src/FrameErrorRegistry.antt =====
-- include/datahandlinglibs/FrameErrorRegistry.hpp: the named error intervals of a readout link.
-- `std::map<std::string, ErrorInterval>` is a list of pairs with different keys. The calls are made
-- one after the other; the mutex, which `has_error` does not take, is not modelled.
pub mod Laws
use datahandlinglibs.Base.{
  ℕ, zero, suc, ◌+◌, ◌-◌, ◌*◌, ◌/◌, ◌%◌, ◌^◌, ◌≤◌, ◌<◌, min, max, ◌≡◌, refl, sym, ap, ap₂, subst,
  ◌∙◌, ◌≢◌, ◌↔◌, ◌⊎◌, inl, inr, Bool, true, false, not, ◌&&◌, ◌||◌, Option, none, some, List, [],
  ◌∷◌, ◌++◌, map, append_assoc, append-nil, arith, dec_lt, dec_le, ℕ_discrete, ltb, leb, ◌==◌,
  if◌then◌else◌, ltb→lt, lt→ltb, ltb_ge, le→ltb, leb→le, ==_iff, Bool-cases, Option-cases, ne→==,
  eq→==, length, get_elem?, set, drop, take, replicate, length-append, length-set, length-replicate,
  length-drop, get_elem?-set_self, get_elem?-set_ne, get_elem?-replicate, get_elem?-none,
  get_elem?-some, get_elem?-append_left, get_elem?-append_right, get_elem?-drop, drop-eq-cons,
  drop-eq-nil, take-all, add32, sub32, add64, sub64, mul64,
}
use Prim.Native.String.{String}
use text.Mathlib.Text.{◌==◌ as str_eq}

pub record ErrorInterval : Type 0 where
  pub start_ts : ℕ
  pub end_ts : ℕ

abbrev pub Registry : Type 0
Registry = List (String × ErrorInterval)

-- `m_errors.find(name)`
unfoldable pub find : String → Registry → Option ErrorInterval
find name [] = none
find name ((key, interval) ∷ m) = if str_eq key name then some interval else find name m

-- `m_errors.erase(name)`
unfoldable pub erase : String → Registry → Registry
erase name [] = []
erase name ((key, interval) ∷ m) =
    if str_eq key name then erase name m else (key, interval) ∷ erase name m

unfoldable pub add_error : String → ErrorInterval → Registry → Registry
unfolding erase
add_error name error m = (name, error) ∷ erase name m

unfoldable pub remove_errors_until : ℕ → Registry → Registry
remove_errors_until ts [] = []
remove_errors_until ts ((key, interval) ∷ m) =
    if ltb interval.end_ts ts
    then remove_errors_until ts m
    else (key, interval) ∷ remove_errors_until ts m

unfoldable pub has_error : String → Registry → Bool
unfolding find
has_error name m = elim (find name m) [ none ↦ false | some i ↦ true ]

-- `has_error()` with no name.
unfoldable pub has_any_error : Registry → Bool
has_any_error [] = false
has_any_error (entry ∷ m) = true
