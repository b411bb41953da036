-- ===== src/LatencyBuffer.antt =====
-- include/datahandlinglibs/concepts/LatencyBufferConcept.hpp, and what the request handler asks of
-- a buffer beyond it (`lower_bound` and its iterator): the interface between the two. The laws say
-- which list of payloads a buffer stands for.
pub mod Ring
use datahandlinglibs.Base.{
  ℕ, zero, suc, ◌+◌, ◌-◌, ◌*◌, ◌/◌, ◌%◌, ◌^◌, ◌≤◌, ◌<◌, min, max, ◌≡◌, refl, sym, ap, ap₂, subst,
  ◌∙◌, ◌≢◌, ◌↔◌, ◌⊎◌, inl, inr, Bool, true, false, not, ◌&&◌, ◌||◌, Option, none, some, List, [],
  ◌∷◌, ◌++◌, map, append_assoc, append-nil, arith, dec_lt, dec_le, ℕ_discrete, ltb, leb, ◌==◌,
  if◌then◌else◌, ltb→lt, lt→ltb, ltb_ge, le→ltb, leb→le, ==_iff, Bool-cases, Option-cases, ne→==,
  eq→==, length, get_elem?, set, drop, take, replicate, length-append, length-set, length-replicate,
  length-drop, get_elem?-set_self, get_elem?-set_ne, get_elem?-replicate, get_elem?-none,
  get_elem?-some, get_elem?-append_left, get_elem?-append_right, get_elem?-drop, drop-eq-cons,
  drop-eq-nil, take-all, add32, sub32, add64, sub64, mul64,
}
use datahandlinglibs.Readout.{Readout}
use datahandlinglibs.Readout.Order.{Ascending}
use datahandlinglibs.IterableQueue.Fifo.{last}

-- A pointer to a payload is the payload, or `none` for null. `lower_bound` is `none` where the
-- search of the implementation does not end or reads no object, and `pop` where it aborts.
pub record Buffer (T B I : Type 0) : Type 0 where
  pub occupancy : B → ℕ
  pub front : B → Option T
  pub back : B → Option T
  pub pop : ℕ → B → Option B
  pub lower_bound : B → T → Bool → Option I
  pub good : B → I → Bool
  pub next : B → I → I
  pub deref : B → I → Option T

module _ {T B I : Type 0} (buf : Buffer T B I) where
  -- From the iterator `i` the steps go through these payloads, and then the iterator is not good.
  abbrev pub Walks : B → I → List T → Type 0
  Walks b i [] = buf.good b i ≡ false
  Walks b i (x ∷ xs) = (buf.good b i ≡ true) × (buf.deref b i ≡ some x) × Walks b (buf.next b i) xs

-- `Represents b xs`: the buffer holds `xs`, oldest first. `reach e with_errors xs` are the payloads
-- from the iterator that `lower_bound` returns for `e`.
pub record BufferLaws {T B I : Type 0} (rt : Readout T) (buf : Buffer T B I)
    (Represents : B → List T → Type 0) (reach : T → Bool → List T → List T) : Type 0 where
  pub occupancy_law : (b : B) (xs : List T) → Represents b xs → buf.occupancy b ≡ length xs
  pub front_law : (b : B) (xs : List T) → Represents b xs → buf.front b ≡ get_elem? xs 0
  pub back_law : (b : B) (xs : List T) → Represents b xs → buf.back b ≡ last xs
  pub pop_law :
      (b : B) (xs : List T) (n : ℕ)
      → Represents b xs
      → n ≤ length xs
      → (b' : B) × (buf.pop n b ≡ some b') × Represents b' (drop n xs)
  pub reach_law :
      (e : T) (with_errors : Bool) (xs : List T) → length (reach e with_errors xs) ≤ length xs
  pub search_law :
      (b : B) (xs : List T) (e : T) (with_errors : Bool)
      → Represents b xs
      → Ascending rt xs
      → (i : I) × (buf.lower_bound b e with_errors ≡ some i)
        × Walks buf b i (reach e with_errors xs)
