-- ===== src/DataHandling/Lifecycle/Order.antt =====
-- The order in which the module's components are started and stopped.
use datahandlinglibs.Base.{◌≡◌, refl, Bool, true, false, List, [], ◌∷◌, ◌++◌, arith}
use datahandlinglibs.DataHandling.Lifecycle.{
  Model, Act, act, Command, conf, scrap, start, stop, record_data, acts, conf_acts, scrap_acts,
  fresh,
}

-- The states after each act.
abbrev pub states : List Act → Model → List Model
states [] m = []
states (a ∷ as_list) m = act a m ∷ states as_list (act a m)

abbrev pub after : List Act → Model → Model
after [] m = m
after (a ∷ as_list) m = after as_list (act a m)

-- The acts of a sequence of commands.
abbrev pub all_acts : Bool → Bool → List Command → List Act
all_acts cb ts [] = []
all_acts cb ts (c ∷ cs) = acts cb ts c ++ all_acts cb ts cs

-- Requests come only to a handler that runs, the handler has a processor that runs, and outside
-- callback mode no flush has met a writer.
pub record IsOrdered (cb : Bool) (m : Model) : Type 0 where
  pub callback_law : m.callback ≡ true → m.handler ≡ true
  pub handler_law : m.handler ≡ true → m.processor ≡ true
  pub flush_law : cb ≡ false → m.flush_race ≡ false

abbrev pub AllOrdered : Bool → List Model → Type 0
AllOrdered cb [] = Unit {0}
AllOrdered cb (m ∷ ms) = IsOrdered cb m × AllOrdered cb ms

-- One of the two writers is in use.
record Between (cb : Bool) (m : Model) : Type 0 where
  ordered : IsOrdered cb m
  no_consumer : cb ≡ true → m.consumer ≡ false
  no_data_callback : cb ≡ false → m.data_callback ≡ false

command-Ordered :
    (cb ts : Bool) (c : Command) (m : Model)
    → Between cb m
    → AllOrdered cb (states (acts cb ts c) m) × Between cb (after (acts cb ts c) m)
unfolding acts act conf_acts scrap_acts
command-Ordered true ts conf m b = ground arith
command-Ordered false ts conf m b = ground arith
command-Ordered cb ts scrap m b = ground arith
command-Ordered cb ts record_data m b = ground arith
command-Ordered true true (start n) m b = ground arith
command-Ordered true false (start n) m b = ground arith
command-Ordered false true (start n) m b = ground arith
command-Ordered false false (start n) m b = ground arith
command-Ordered true true stop m b = ground arith
command-Ordered true false stop m b = ground arith
command-Ordered false true stop m b = ground arith
command-Ordered false false stop m b = ground arith

states-append :
    (cb : Bool) (as_list bs : List Act) (m : Model)
    → AllOrdered cb (states as_list m)
    → AllOrdered cb (states bs (after as_list m))
    → AllOrdered cb (states (as_list ++ bs) m)
states-append cb [] bs m h k = k
states-append cb (a ∷ as_list) bs m h k = (h.0, states-append cb as_list bs (act a m) h.1 k)

commands-Ordered :
    (cb ts : Bool) (cs : List Command) (m : Model)
    → Between cb m
    → AllOrdered cb (states (all_acts cb ts cs) m)
commands-Ordered cb ts [] m b = tt
commands-Ordered cb ts (c ∷ cs) m b =
    let (now, next) = command-Ordered cb ts c m b in
    states-append cb (acts cb ts c) (all_acts cb ts cs) m now
      (commands-Ordered cb ts cs (after (acts cb ts c) m) next)

-- Through every act of any sequence of commands, in callback mode or not and with time
-- synchronisation or not, the callback is registered only while the request handler runs, the
-- request handler runs only while the processor does, and outside callback mode no flush of the
-- buffer meets a running consumer or a registered consume_payload.
pub all_acts-Ordered :
    (cb ts : Bool) (cs : List Command) → AllOrdered cb (states (all_acts cb ts cs) fresh)
all_acts-Ordered cb ts cs = commands-Ordered cb ts cs fresh (record {
  ordered = record { callback_law = λ e. e; handler_law = λ e. e; flush_law = λ _. refl };
  no_consumer = λ _. refl;
  no_data_callback = λ _. refl;
})
