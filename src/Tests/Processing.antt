-- ===== src/Tests/Processing.antt =====
-- A processor over a bounded list, and a registry of callbacks for two types.
use datahandlinglibs.Base.{
  ℕ, ◌-◌, ◌≡◌, refl, Bool, true, false, some, List, [], ◌∷◌, ◌++◌, arith, ltb, if◌then◌else◌,
  length, get_elem?, drop,
}
use mathlib.Core.Bool.{Bool-discrete}
use datahandlinglibs.RawDataProcessor.{
  PcQueue, PcQueueLaws, Processor, new_processor, conf, start, stop, drain, thread_turn,
}
use datahandlinglibs.RawDataProcessor.Refine.{post, turn, run, Shows, calls_of, processor_refines}
use datahandlinglibs.RawDataProcessor.Drain.{stop-drain}
use datahandlinglibs.Callbacks.{Answer, get_callback}
use datahandlinglibs.Callbacks.Typed.{
  Registration, registered, first, get_callback-found, get_callback-wrong_type,
}

record Bounded : Type 0 where
  items : List ℕ
  limit : ℕ

abbrev bounded : PcQueue ℕ Bounded
bounded = record {
  make = λ n. record { items = []; limit = n - 1 };
  write = λ q x. (
    record q { items = if ltb (length q.items) q.limit then q.items ++ (x ∷ []) else q.items },
    ltb (length q.items) q.limit,
  );
  read = λ q. (record q { items = drop 1 q.items }, get_elem? q.items 0);
  size_guess = λ q. length q.items;
}

bounded-Laws : PcQueueLaws bounded (λ q. q.items) (λ q. q.limit)
bounded-Laws = record {
  holds-make = λ n. refl;
  room-make = λ n. refl;
  write_answer = λ q x. refl;
  holds-write = λ q x. refl;
  room-write = λ q x. refl;
  read_answer = λ q. refl;
  holds-read = λ q. refl;
  room-read = λ q. refl;
  size_guess_law = λ q. refl;
}

abbrev two_tasks : Processor ℕ Bounded
two_tasks = record new_processor { post_process_functions = 2; post_process_threads = 2 }

-- A queue of two loses the third item, for the thread that did not turn.
processor_refines_example :
    Shows bounded
      (λ q. q.items)
      (λ q. q.limit)
      (run bounded
        (start (conf bounded 3 two_tasks))
        (post 5 ∷ post 6 ∷ turn 0 ∷ post 7 ∷ turn 1 ∷ []))
      1
      2
      (record { handled = 5 ∷ []; waiting = 6 ∷ [] })
processor_refines_example =
    processor_refines bounded (λ q. q.items) (λ q. q.limit) bounded-Laws two_tasks 3 1
      (post 5 ∷ post 6 ∷ turn 0 ∷ post 7 ∷ turn 1 ∷ []) refl refl (omega arith)

abbrev waiting : Bounded
waiting = record { items = 5 ∷ 6 ∷ []; limit = 4 }

abbrev one_queue : Processor ℕ Bounded
one_queue = record two_tasks { items_to_postprocess_queues = waiting ∷ []; run_marker = true }

stop-drain_example :
    (let after = drain bounded 2 (stop one_queue) 0 in
      (calls_of 0 after.calls ≡ 5 ∷ 6 ∷ []) × (thread_turn bounded after 0 ≡ after))
stop-drain_example =
    stop-drain bounded (λ q. q.items) (λ q. q.limit) bounded-Laws one_queue 0 2 waiting refl
      (omega arith)

-- Callbacks for two types, each a number.
abbrev Number : Bool → Type 0
Number b = ℕ

abbrev calls : List (Registration Bool Number)
calls =
    record { id = "a"; entry = record { data_type = true; callback = 3 } }
    ∷ record { id = "a"; entry = record { data_type = false; callback = 4 } }
    ∷ []

the_callback :
    get_callback Bool Number Bool-discrete true "a" (registered Bool Number Bool-discrete calls [])
    ≡ Answer.found 3
unfolding get_callback datahandlinglibs.Callbacks.find registered
    datahandlinglibs.Callbacks.register_callback datahandlinglibs.Callbacks.provide
the_callback = refl

get_callback-found_example :
    first Bool Number Bool-discrete "a" calls ≡ some (record { data_type = true; callback = 3 })
get_callback-found_example =
    get_callback-found Bool Number Bool-discrete calls "a" true 3 the_callback

get_callback-wrong_type_example :
    get_callback Bool Number Bool-discrete false "a" (registered Bool Number Bool-discrete calls [])
    ≡ Answer.null_dereference
get_callback-wrong_type_example =
    get_callback-wrong_type Bool Number Bool-discrete calls "a" false
      (record { data_type = true; callback = 3 }) refl (λ e. absurd (cc e))
