-- ===== src/SkipList.antt =====
-- include/datahandlinglibs/models/SkipListLatencyBufferModel.hpp and
-- detail/SkipListLatencyBufferModel.hxx, with the clean-up of
-- detail/DefaultSkipListRequestHandler.hxx. The list, folly::ConcurrentSkipList, is a parameter.
pub mod Pop
pub mod Cleanup
use datahandlinglibs.Base.{
  ℕ, zero, suc, ◌+◌, ◌-◌, ◌*◌, ◌/◌, ◌%◌, ◌^◌, ◌≤◌, ◌<◌, min, max, ◌≡◌, refl, sym, ap, ap₂, subst,
  ◌∙◌, ◌≢◌, ◌↔◌, ◌⊎◌, inl, inr, Bool, true, false, not, ◌&&◌, ◌||◌, Option, none, some, List, [],
  ◌∷◌, ◌++◌, map, append_assoc, append-nil, arith, dec_lt, dec_le, ℕ_discrete, ltb, leb, ◌==◌,
  if◌then◌else◌, ltb→lt, lt→ltb, ltb_ge, le→ltb, leb→le, ==_iff, Bool-cases, Option-cases, ne→==,
  eq→==, ◌>>=◌, le→leb, leb_gt, bind-some, length, get_elem?, set, drop, take, replicate,
  length-append, length-set, length-replicate, length-drop, get_elem?-set_self, get_elem?-set_ne,
  get_elem?-replicate, get_elem?-none, get_elem?-some, get_elem?-append_left,
  get_elem?-append_right, get_elem?-drop, drop-eq-cons, drop-eq-nil, take-all, get_elem?-in_range,
  add32, sub32, add64, sub64, mul64,
}
use datahandlinglibs.Readout.{Readout}
use datahandlinglibs.IterableQueue.Fifo.{last}

-- `folly::ConcurrentSkipList<T>::Accessor` over a list `S`, with its iterators `I`.
pub record Accessor (T S I : Type 0) : Type 0 where
  pub create : S
  pub size : S → ℕ
  pub insert : S → T → S × Bool
  pub remove : S → T → S × Bool
  pub pop_back : S → S
  pub first : S → Option T
  pub last_of : S → Option T
  pub begin : S → I
  pub end : S → I
  pub lower_bound : S → T → I
  pub same_place : I → I → Bool
  pub deref : S → I → Option T

-- The members of a list, from first to last.
pub record AccessorLaws {T S I : Type 0} (acc : Accessor T S I) (members : S → List T)
    : Type 0 where
  pub members-create : members acc.create ≡ []
  pub size_law : (s : S) → acc.size s ≡ length (members s)
  pub first_law : (s : S) → acc.first s ≡ get_elem? (members s) 0
  pub last_law : (s : S) → acc.last_of s ≡ last (members s)
  pub members-pop_back :
      (s : S) → members (acc.pop_back s) ≡ take (length (members s) - 1) (members s)
  pub remove_first :
      (s : S) (x : T)
      → get_elem? (members s) 0 ≡ some x
      → ((acc.remove s x).1 ≡ true) × (members (acc.remove s x).0 ≡ drop 1 (members s))
  pub begin_law : (s : S) → acc.deref s (acc.begin s) ≡ get_elem? (members s) 0
  pub begin_is_end : (s : S) → acc.same_place (acc.begin s) (acc.end s) ≡ (length (members s) == 0)

-- A `size_t` that has been in an `int`.
abbrev pub as_int : ℕ → ℕ
as_int n = if ltb (n % 2 ^ 32) (2 ^ 31) then n % 2 ^ 32 else n % 2 ^ 32 + (2 ^ 64 - 2 ^ 32)

module _ {T S I : Type 0} (acc : Accessor T S I) where
  -- `conf` and `scrap`: a new list.
  unfoldable pub conf : S → S
  conf s = acc.create

  unfoldable pub scrap : S → S
  scrap s = acc.create

  -- `occupancy` keeps the size in an `int`.
  unfoldable pub occupancy : S → ℕ
  occupancy s = as_int (acc.size s)

  -- `write`, and `put` likewise
  unfoldable pub write : S → T → S × Bool
  write s new_element = acc.insert s new_element

  unfoldable pub put : S → T → S × Bool
  put s new_element = acc.insert s new_element

  -- `read` copies the first element and leaves it.
  unfoldable pub read : S → Option T
  read s = if acc.same_place (acc.begin s) (acc.end s) then none else acc.deref s (acc.begin s)

  unfoldable pub begin_of : S → I
  begin_of s = acc.begin s

  unfoldable pub end_of : S → I
  end_of s = acc.end s

  -- The second argument, `with_errors`, is not read.
  unfoldable pub lower_bound_of : S → T → Bool → I
  lower_bound_of s element with_errors = acc.lower_bound s element

  unfoldable pub front : S → Option T
  front s = acc.first s

  unfoldable pub back : S → Option T
  back s = acc.last_of s

  -- `pop`, whose counter is `unsigned`: for fewer than 2^32.
  unfoldable pub pop : ℕ → S → S
  pop zero s = s
  pop (suc num) s = pop num (acc.pop_back s)

  -- `flush`
  unfoldable pub flush : S → S
  unfolding pop occupancy
  flush s = pop (occupancy s) s

  -- `generate_opmon_data`
  unfoldable pub num_buffer_elements : S → ℕ
  unfolding occupancy
  num_buffer_elements s = occupancy s

-- What the clean-up of the handler changes.
pub record Handler (S : Type 0) : Type 0 where
  pub list : S
  pub pop_reqs : ℕ
  pub pops_count : ℕ
  pub num_buffer_cleanups : ℕ

-- 10 s of ticks.
abbrev pub max_ts_diff : ℕ
max_ts_diff = 625000000

module _ {T S I : Type 0} (rt : Readout T) (acc : Accessor T S I) where
  -- The loop of `skip_list_cleanup_request` from the list, its first element and the time
  -- difference; the result is the list and the number removed. `none`: a null pointer is read, or
  -- the fuel is out.
  unfoldable pub remove_old : ℕ → S → T → ℕ → ℕ → ℕ → Option (S × ℕ)
  remove_old zero s head tail_ts removed timediff = none
  remove_old (suc fuel) s head tail_ts removed timediff =
      let removal = acc.remove s head in
      let next : Option (S × ℕ) = elim (acc.first removal.0) [
        | none ↦ none
        | some head' ↦
            remove_old fuel removal.0 head' tail_ts (if removal.1 then removed + 1 else removed)
              (sub64 tail_ts (rt.timestamp head'))
      ] in
      if leb max_ts_diff timediff then next else some (s, removed)

  -- `skip_list_cleanup_request`
  unfoldable pub skip_list_cleanup_request : ℕ → Handler S → Option (Handler S)
  unfolding remove_old
  skip_list_cleanup_request fuel h = elim (acc.last_of h.list) [
    | none ↦ some (record h { num_buffer_cleanups = add32 h.num_buffer_cleanups 1 })
    | some tail ↦ elim (acc.first h.list) [
      | none ↦ some (record h { num_buffer_cleanups = add32 h.num_buffer_cleanups 1 })
      | some head ↦
          (if ltb max_ts_diff (sub64 (rt.timestamp tail) (rt.timestamp head))
            then (remove_old fuel h.list head (rt.timestamp tail) 0 max_ts_diff >>= λ r.
                some (record {
                  list = r.0;
                  pop_reqs = add32 h.pop_reqs 1;
                  pops_count = add32 h.pops_count r.1;
                  num_buffer_cleanups = add32 h.num_buffer_cleanups 1;
                }))
            else some (record h { num_buffer_cleanups = add32 h.num_buffer_cleanups 1 }))
    ]
  ]
