-- ===== src/RawDataProcessor.antt =====
-- include/datahandlinglibs/models/TaskRawDataProcessorModel.hpp and detail/TaskRawDataProcessorModel.hxx:
-- the pre-processing pipeline, and one queue and thread for each post-processing function. The
-- queue, folly::ProducerConsumerQueue, is a parameter. A call of function `i` on an item is an entry
-- of `calls`.
pub mod Refine
pub mod Drain
use datahandlinglibs.Base.{
  ℕ, zero, suc, ◌+◌, ◌-◌, ◌*◌, ◌/◌, ◌%◌, ◌^◌, ◌≤◌, ◌<◌, min, max, ◌≡◌, refl, sym, ap, ap₂, subst,
  ◌∙◌, ◌≢◌, ◌↔◌, ◌⊎◌, inl, inr, Bool, true, false, not, ◌&&◌, ◌||◌, Option, none, some, List, [],
  ◌∷◌, ◌++◌, map, append_assoc, append-nil, arith, dec_lt, dec_le, ℕ_discrete, ltb, leb, ◌==◌,
  if◌then◌else◌, ltb→lt, lt→ltb, ltb_ge, le→ltb, leb→le, ==_iff, Bool-cases, Option-cases, ne→==,
  eq→==, ◌>>=◌, le→leb, leb_gt, bind-some, length, get_elem?, set, drop, take, replicate,
  length-append, length-set, length-replicate, length-drop, get_elem?-set_self, get_elem?-set_ne,
  get_elem?-replicate, get_elem?-none, get_elem?-some, get_elem?-append_left,
  get_elem?-append_right, get_elem?-drop, drop-eq-cons, drop-eq-nil, take-all, add32, sub32, add64,
  sub64, mul64,
}

pub record PcQueue (T Q : Type 0) : Type 0 where
  pub make : ℕ → Q
  pub write : Q → T → Q × Bool
  pub read : Q → Q × Option T
  pub size_guess : Q → ℕ

-- A queue made for `n` holds at most `n - 1` items, first in first out.
pub record PcQueueLaws {T Q : Type 0} (pc : PcQueue T Q) (holds : Q → List T) (room : Q → ℕ)
    : Type 0 where
  pub holds-make : (n : ℕ) → holds (pc.make n) ≡ []
  pub room-make : (n : ℕ) → room (pc.make n) ≡ n - 1
  pub write_answer : (q : Q) (x : T) → (pc.write q x).1 ≡ ltb (length (holds q)) (room q)
  pub holds-write :
      (q : Q) (x : T)
      → holds (pc.write q x).0
        ≡ (if ltb (length (holds q)) (room q) then holds q ++ (x ∷ []) else holds q)
  pub room-write : (q : Q) (x : T) → room (pc.write q x).0 ≡ room q
  pub read_answer : (q : Q) → (pc.read q).1 ≡ get_elem? (holds q) 0
  pub holds-read : (q : Q) → holds (pc.read q).0 ≡ drop 1 (holds q)
  pub room-read : (q : Q) → room (pc.read q).0 ≡ room q
  pub size_guess_law : (q : Q) → pc.size_guess q ≡ length (holds q)

pub record Processor (T Q : Type 0) : Type 0 where
  pub preprocess_functions : List (T → T)
  -- how many; function `i` shows in `calls` by its index
  pub post_process_functions : ℕ
  pub items_to_postprocess_queues : List Q
  pub post_process_threads : ℕ
  pub postprocess_queue_sizes : ℕ
  pub run_marker : Bool
  pub last_processed_daq_ts : ℕ
  pub calls : List (ℕ × T)
  -- `PostprocessingNotKeepingUp`, by queue
  pub warnings : List ℕ

unfoldable pub invoke_all {ℓ} : {T : Type ℓ} → List (T → T) → T → T
invoke_all [] item = item
invoke_all (task ∷ tasks) item = invoke_all tasks (task item)

module _ {T Q : Type 0} where
  abbrev pub new_processor : Processor T Q
  new_processor = record {
    preprocess_functions = [];
    post_process_functions = 0;
    items_to_postprocess_queues = [];
    post_process_threads = 0;
    postprocess_queue_sizes = 0;
    run_marker = false;
    last_processed_daq_ts = 0;
    calls = [];
    warnings = [];
  }

  unfoldable pub add_preprocess_task : (T → T) → Processor T Q → Processor T Q
  add_preprocess_task task p = record p {
    preprocess_functions = p.preprocess_functions ++ (task ∷ []);
  }

  unfoldable pub add_postprocess_task : Processor T Q → Processor T Q
  add_postprocess_task p = record p {
    post_process_threads = p.post_process_threads + 1;
    post_process_functions = p.post_process_functions + 1;
  }

  -- `scrap`
  unfoldable pub scrap : Processor T Q → Processor T Q
  scrap p = record p {
    items_to_postprocess_queues = [];
    post_process_threads = 0;
    post_process_functions = 0;
    preprocess_functions = [];
  }

  -- `start`: the threads run from here on.
  unfoldable pub start : Processor T Q → Processor T Q
  start p = record p { run_marker = true }

  -- `stop`, up to the wait for the threads.
  unfoldable pub stop : Processor T Q → Processor T Q
  stop p = record p { run_marker = false }

  unfoldable pub reset_last_daq_time : Processor T Q → Processor T Q
  reset_last_daq_time p = record p { last_processed_daq_ts = 0 }

  unfoldable pub get_last_daq_time : Processor T Q → ℕ
  get_last_daq_time p = p.last_processed_daq_ts

  -- `preprocess_item`, that is `invoke_all_preprocess_functions`
  unfoldable pub preprocess_item : Processor T Q → T → T
  unfolding invoke_all
  preprocess_item p item = invoke_all p.preprocess_functions item

  module _ (pc : PcQueue T Q) where
    -- `conf`: a queue for each function.
    unfoldable pub conf : ℕ → Processor T Q → Processor T Q
    conf sizes p = record p {
      postprocess_queue_sizes = sizes;
      items_to_postprocess_queues =
          p.items_to_postprocess_queues ++ replicate p.post_process_functions (pc.make sizes);
    }

    unfoldable pub write_all : T → List Q → List Q
    write_all item [] = []
    write_all item (q ∷ qs) = (pc.write q item).0 ∷ write_all item qs

    -- The queues from index `i` on that do not take the item.
    unfoldable pub not_keeping_up : ℕ → T → List Q → List ℕ
    not_keeping_up i item [] = []
    not_keeping_up i item (q ∷ qs) =
        let rest = not_keeping_up (i + 1) item qs in
        if not (pc.write q item).1 then i ∷ rest else rest

    -- `postprocess_item`
    unfoldable pub postprocess_item : Processor T Q → T → Processor T Q
    postprocess_item p item = record p {
      items_to_postprocess_queues = write_all item p.items_to_postprocess_queues;
      warnings = p.warnings ++ not_keeping_up 0 item p.items_to_postprocess_queues;
    }

    -- One turn of `run_post_processing_thread` on queue `i`.
    unfoldable pub thread_turn : Processor T Q → ℕ → Processor T Q
    thread_turn p i = elim (get_elem? p.items_to_postprocess_queues i) [
      | none ↦ p
      | some q ↦
          (if p.run_marker || ltb 0 (pc.size_guess q)
            then record p {
              items_to_postprocess_queues = set p.items_to_postprocess_queues i (pc.read q).0;
              calls = elim (pc.read q).1 [ none ↦ p.calls | some x ↦ p.calls ++ ((i, x) ∷ []) ];
            }
            else p)
    ]

    -- `run_post_processing_thread` once the run marker is false: it loops while its queue has items.
    unfoldable pub drain : ℕ → Processor T Q → ℕ → Processor T Q
    drain zero p i = p
    drain (suc fuel) p i = drain fuel (thread_turn p i) i

    -- `generate_opmon_data`: the elements queued, by post-processor.
    unfoldable pub elements_queued : Processor T Q → List ℕ
    elements_queued p = map pc.size_guess p.items_to_postprocess_queues
