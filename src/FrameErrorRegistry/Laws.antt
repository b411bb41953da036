-- ===== src/FrameErrorRegistry/Laws.antt =====
-- What a lookup finds after each change.
use datahandlinglibs.Base.{
  ℕ, ◌≡◌, refl, subst, ◌∙◌, true, Option, none, some, [], ◌∷◌, arith, ltb, if◌then◌else◌,
}
use Prim.Native.String.{String}
use text.Mathlib.Text.{◌==◌ as str_eq}
use text.Mathlib.TextEquality.{eq_iff}
use text.Mathlib.TextPositions.{eq_refl}
use datahandlinglibs.FrameErrorRegistry.{
  ErrorInterval, Registry, find, erase, add_error, remove_errors_until,
}

-- The keys of a `std::map` differ.
abbrev pub Distinct : Registry → Type 0
Distinct [] = Unit {0}
Distinct ((key, interval) ∷ m) = (find key m ≡ none) × Distinct m

pub find-erase :
    (name key : String) (m : Registry)
    → find name (erase key m) ≡ (if str_eq key name then none else find name m)
unfolding find erase
find-erase name key [] = ground arith
find-erase name key ((k, i) ∷ m) =
    ground (arith, eq_iff k key, eq_iff k name, eq_iff key name, find-erase name key m)

erase-Distinct : (key : String) (m : Registry) → Distinct m → Distinct (erase key m)
unfolding erase
erase-Distinct key [] d = tt
erase-Distinct key ((k, i) ∷ m) d =
    ground (arith, erase-Distinct key m d.1, find-erase k key m, eq_iff k key)

-- After add_error the name is found with the new interval, and every other name with the interval
-- it had.
pub find-add_error :
    (name key : String) (error : ErrorInterval) (m : Registry)
    → find key (add_error name error m) ≡ (if str_eq name key then some error else find key m)
unfolding add_error find
find-add_error name key error m = ground (arith, find-erase key name m)

-- Adding an error keeps the names of a registry distinct.
pub add_error-Distinct :
    (name : String) (error : ErrorInterval) (m : Registry)
    → Distinct m
    → Distinct (add_error name error m)
unfolding add_error
add_error-Distinct name error m d =
    (find-erase name name m ∙ rw (eq_refl name), erase-Distinct name m d)

-- Keeping an interval if it ends at `ts` or later.
abbrev pub recent : ℕ → Option ErrorInterval → Option ErrorInterval
recent ts none = none
recent ts (some i) = if ltb i.end_ts ts then none else some i

find-tail :
    (key name : String) (m : Registry)
    → find key m ≡ none
    → str_eq key name ≡ true
    → find name m ≡ none
find-tail key name m h e = subst (λ k. find k m ≡ none) ((eq_iff key name).0 e) h

-- In a registry with distinct names, remove_errors_until removes exactly the errors that ended
-- before the timestamp, and keeps the intervals of the others.
pub find-remove_errors_until :
    (ts : ℕ) (name : String) (m : Registry)
    → Distinct m
    → find name (remove_errors_until ts m) ≡ recent ts (find name m)
unfolding find remove_errors_until
find-remove_errors_until ts name [] d = refl
find-remove_errors_until ts name ((k, i) ∷ m) d =
    ground (arith, find-remove_errors_until ts name m d.1, find-tail k name m d.0)

pub remove_errors_until-Distinct :
    (ts : ℕ) (m : Registry) → Distinct m → Distinct (remove_errors_until ts m)
unfolding remove_errors_until
remove_errors_until-Distinct ts [] d = tt
remove_errors_until-Distinct ts ((k, i) ∷ m) d =
    ground (arith, remove_errors_until-Distinct ts m d.1, find-remove_errors_until ts k m d.1)
