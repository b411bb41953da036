-- ===== src/RequestHandler/Exclusion.antt =====
-- `m_cleanup_requested`, `m_requests_running` and the condition variable: a cleanup waits for the
-- requests that read the buffer, and new ones wait for the cleanup. `m_cv_mutex` makes each
-- critical section one step; a wait that is not over is a step that does nothing.
pub mod Safe
use datahandlinglibs.Base.{
  ℕ, zero, suc, ◌+◌, ◌-◌, ◌*◌, ◌/◌, ◌%◌, ◌^◌, ◌≤◌, ◌<◌, min, max, ◌≡◌, refl, sym, ap, ap₂, subst,
  ◌∙◌, ◌≢◌, ◌↔◌, ◌⊎◌, inl, inr, Bool, true, false, not, ◌&&◌, ◌||◌, Option, none, some, List, [],
  ◌∷◌, ◌++◌, map, append_assoc, append-nil, arith, dec_lt, dec_le, ℕ_discrete, ltb, leb, ◌==◌,
  if◌then◌else◌, ltb→lt, lt→ltb, ltb_ge, le→ltb, leb→le, ==_iff, Bool-cases, Option-cases, ne→==,
  eq→==, ◌>>=◌, le→leb, leb_gt, bind-some, length, get_elem?, set, drop, take, replicate,
  length-append, length-set, length-replicate, length-drop, get_elem?-set_self, get_elem?-set_ne,
  get_elem?-replicate, get_elem?-none, get_elem?-some, get_elem?-append_left,
  get_elem?-append_right, get_elem?-drop, drop-eq-cons, drop-eq-nil, take-all, add32, sub32, add64,
  sub64, mul64,
}

-- Where the thread is that requested a cleanup, if one did.
pub data Cleaner : Type 0 where
  idle waiting cleaning : Cleaner

-- `reading` counts the threads in `data_request`.
pub record Gate : Type 0 where
  pub cleanup_requested : Bool
  pub requests_running : ℕ
  pub cleaner : Cleaner
  pub reading : ℕ

-- A request comes and goes; a cleanup is asked for with the buffer over its limit or not, begins
-- and ends.
pub data Move : Type 0 where
  enter leave : Move
  ask : Bool → Move
  begin_cleanup end_cleanup : Move

abbrev pub open_gate : Gate
open_gate = record {
  cleanup_requested = false;
  requests_running = 0;
  cleaner = Cleaner.idle;
  reading = 0;
}

-- `m_cv.wait(lock, [&] { return !m_cleanup_requested; }); m_requests_running++;`
unfoldable pub enter_step : Gate → Gate
enter_step g =
    if g.cleanup_requested
    then g
    else record g { requests_running = g.requests_running + 1; reading = g.reading + 1 }

-- `m_requests_running--`, with the mutex, which a running cleanup holds.
unfoldable pub leave_step : Cleaner → ℕ → Gate → Gate
leave_step Cleaner.cleaning n g = g
leave_step _ zero g = g
leave_step _ (suc n) g = record g { requests_running = g.requests_running - 1; reading = n }

-- `occupancy() > m_pop_limit_size && !m_cleanup_requested.exchange(true)`
unfoldable pub ask_step : Bool → Gate → Gate
ask_step over g =
    if over && not g.cleanup_requested
    then record g { cleanup_requested = true; cleaner = Cleaner.waiting }
    else g

-- `m_cv.wait(lock, [&] { return m_requests_running == 0; }); cleanup();`
unfoldable pub begin_step : Cleaner → Gate → Gate
begin_step Cleaner.waiting g =
    if g.requests_running == 0 then record g { cleaner = Cleaner.cleaning } else g
begin_step _ g = g

-- `m_cleanup_requested = false;`
unfoldable pub end_step : Cleaner → Gate → Gate
end_step Cleaner.cleaning g = record g { cleanup_requested = false; cleaner = Cleaner.idle }
end_step _ g = g

unfoldable pub move : Move → Gate → Gate
unfolding enter_step leave_step ask_step begin_step end_step
move enter g = enter_step g
move leave g = leave_step g.cleaner g.reading g
move (ask over) g = ask_step over g
move begin_cleanup g = begin_step g.cleaner g
move end_cleanup g = end_step g.cleaner g

unfoldable pub moves : List Move → Gate → Gate
unfolding move
moves [] g = g
moves (m ∷ ms) g = moves ms (move m g)
