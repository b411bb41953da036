-- ===== src/DataSubscriber/Totals.antt =====
-- models/DataSubscriberModel.hpp: the messages of a run account for every payload.
use datahandlinglibs.Base.{ℕ, suc, ◌+◌, ◌≡◌, Bool, true, false, List, [], ◌∷◌, arith, ◌%◌, ◌^◌}
use datahandlinglibs.DataSubscriber.{Subscriber, Info, start, handle_payload, generate_opmon_data}

-- What happens to a started subscriber: a payload, with the answer of its sender, or a report.
pub data Event : Type 0 where
  payload : Bool → Event
  report : Event

unfoldable pub run : List Event → Subscriber → Subscriber × List Info
unfolding handle_payload generate_opmon_data
run [] s = (s, [])
run (payload sent ∷ events) s = run events (handle_payload sent s)
run (report ∷ events) s =
    let told = generate_opmon_data s in let rest = run events told.0 in (rest.0, told.1 ∷ rest.1)

abbrev pub payloads : List Event → ℕ
payloads [] = 0
payloads (payload sent ∷ events) = suc (payloads events)
payloads (report ∷ events) = payloads events

abbrev pub unsent : List Event → ℕ
unsent [] = 0
unsent (payload true ∷ events) = unsent events
unsent (payload false ∷ events) = suc (unsent events)
unsent (report ∷ events) = unsent events

abbrev pub total_packets : List Info → ℕ
total_packets [] = 0
total_packets (i ∷ infos) = i.num_packets + total_packets infos

abbrev pub total_dropped : List Info → ℕ
total_dropped [] = 0
total_dropped (i ∷ infos) = i.num_dropped_packets + total_dropped infos

run_totals :
    (events : List Event) (s : Subscriber)
    → let (s', infos) = run events s in
      ((total_packets infos + s'.packets) % 2 ^ 64 ≡ (s.packets + payloads events) % 2 ^ 64)
      × ((total_dropped infos + s'.dropped_packets) % 2 ^ 64
          ≡ (s.dropped_packets + unsent events) % 2 ^ 64)
      × (s'.sum_packets % 2 ^ 64 ≡ (s.sum_packets + payloads events) % 2 ^ 64)
unfolding run
run_totals [] s = omega arith
run_totals (payload true ∷ events) s = omega (arith, run_totals events (handle_payload true s))
run_totals (payload false ∷ events) s = omega (arith, run_totals events (handle_payload false s))
run_totals (report ∷ events) s = omega (arith, run_totals events (generate_opmon_data s).0)

-- From a start on, the numbers published and those still counted come to the payloads and to those
-- not sent on.
pub start-run :
    (events : List Event) (s : Subscriber)
    → let (s', infos) = run events (start s) in
      ((total_packets infos + s'.packets) % 2 ^ 64 ≡ payloads events % 2 ^ 64)
      × ((total_dropped infos + s'.dropped_packets) % 2 ^ 64 ≡ unsent events % 2 ^ 64)
      × (s'.sum_packets % 2 ^ 64 ≡ payloads events % 2 ^ 64)
unfolding start
start-run events s = omega (arith, run_totals events (start s))
