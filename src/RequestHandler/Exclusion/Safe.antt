-- ===== src/RequestHandler/Exclusion/Safe.antt =====
-- Requests and cleanups exclude each other, and a cleanup is never kept waiting for ever.
use datahandlinglibs.Base.{
  ℕ, zero, suc, ◌≡◌, refl, ap, ap₂, subst, ◌∙◌, Bool, true, false, List, [], ◌∷◌, arith, ℕ_discrete,
  ne→==, eq→==,
}
use datahandlinglibs.RequestHandler.Exclusion.{
  Cleaner, Gate, Move, enter, leave, ask, begin_cleanup, end_cleanup, open_gate, leave_step,
  begin_step, end_step, move, moves,
}

-- What the cleaner's place says of the flag and of the readers.
abbrev pub Agrees : Cleaner → Bool → ℕ → Type 0
Agrees Cleaner.idle requested n = requested ≡ false
Agrees Cleaner.waiting requested n = requested ≡ true
Agrees Cleaner.cleaning requested n = (requested ≡ true) × (n ≡ 0)

pub record Sound (g : Gate) : Type 0 where
  pub counted : g.requests_running ≡ g.reading
  pub agrees : Agrees g.cleaner g.cleanup_requested g.reading

-- One step.
move-Sound :
    (m : Move) (r : Bool) (n k : ℕ) (c : Cleaner)
    → n ≡ k
    → Agrees c r k
    → Sound
        (move m (record { cleanup_requested = r; requests_running = n; cleaner = c; reading = k }))
unfolding move
move-Sound enter true n k c e a = record { counted = e; agrees = a }
move-Sound enter false n k Cleaner.idle e a = record { counted = omega arith; agrees = refl }
move-Sound enter false n k Cleaner.waiting e a = absurd (cc a)
move-Sound enter false n k Cleaner.cleaning e a = absurd (cc a.0)
move-Sound leave r n k Cleaner.cleaning e a = record { counted = e; agrees = a }
move-Sound leave r n zero Cleaner.idle e a = record { counted = e; agrees = a }
move-Sound leave r n zero Cleaner.waiting e a = record { counted = e; agrees = a }
move-Sound leave r n (suc k) Cleaner.idle e a = record { counted = omega arith; agrees = a }
move-Sound leave r n (suc k) Cleaner.waiting e a = record { counted = omega arith; agrees = a }
move-Sound (ask false) r n k c e a = record { counted = e; agrees = a }
move-Sound (ask true) true n k c e a = record { counted = e; agrees = a }
move-Sound (ask true) false n k c e a = record { counted = e; agrees = refl }
move-Sound begin_cleanup r n k Cleaner.idle e a = record { counted = e; agrees = a }
move-Sound begin_cleanup r n k Cleaner.waiting e a = elim (ℕ_discrete n 0) [
  | yes none_left ↦
      rw (move, begin_step, eq→== n 0 none_left) record { counted = e; agrees = (a, omega arith) }
  | no some_left ↦ rw (move, begin_step, ne→== n 0 some_left) record { counted = e; agrees = a }
]
move-Sound begin_cleanup r n k Cleaner.cleaning e a = record { counted = e; agrees = a }
move-Sound end_cleanup r n k Cleaner.idle e a = record { counted = e; agrees = a }
move-Sound end_cleanup r n k Cleaner.waiting e a = record { counted = e; agrees = a }
move-Sound end_cleanup r n k Cleaner.cleaning e a = record { counted = e; agrees = refl }

moves-Sound : (ms : List Move) (g : Gate) → Sound g → Sound (moves ms g)
unfolding moves
moves-Sound [] g s = s
moves-Sound (m ∷ ms) g s =
    moves-Sound ms (move m g)
      (move-Sound m g.cleanup_requested g.requests_running g.reading g.cleaner s.counted s.agrees)

open_gate-Sound : Sound open_gate
open_gate-Sound = record { counted = refl; agrees = refl }

no_reader : (g : Gate) → Sound g → g.cleaner ≡ Cleaner.cleaning → g.reading ≡ 0
no_reader g s e = (subst (λ c. Agrees c g.cleanup_requested g.reading) e s.agrees).1

-- Through any sequence of critical sections from the start, when a cleanup is under way no request
-- reads the buffer.
pub moves-exclude :
    (ms : List Move)
    → (moves ms open_gate).cleaner ≡ Cleaner.cleaning
    → (moves ms open_gate).reading ≡ 0
moves-exclude ms e = no_reader (moves ms open_gate) (moves-Sound ms open_gate open_gate-Sound) e

-- `n` requests end, and the cleanup is made.
abbrev pub drain : ℕ → List Move
drain zero = begin_cleanup ∷ end_cleanup ∷ []
drain (suc n) = leave ∷ drain n

abbrev pub waiting_gate : ℕ → Gate
waiting_gate n = record {
  cleanup_requested = true;
  requests_running = n;
  cleaner = Cleaner.waiting;
  reading = n;
}

drain_all : (n : ℕ) → moves (drain n) (waiting_gate n) ≡ open_gate
unfolding moves move begin_step end_step leave_step
drain_all zero = refl
drain_all (suc n) =
    ap (λ k. moves (drain n) (record (waiting_gate n) { requests_running = k })) (omega arith)
    ∙ drain_all n

shut : (g : Gate) → Sound g → g.cleaner ≡ Cleaner.waiting → g ≡ waiting_gate g.reading
shut g s e =
    ap₂ (λ k c. record g { requests_running = k; cleaner = c }) s.counted e
    ∙ ap (λ r. record (waiting_gate g.reading) { cleanup_requested = r })
        (subst (λ c. Agrees c g.cleanup_requested g.reading) e s.agrees)

-- Through any sequence of critical sections from the start, where a cleanup waits, the exits of the
-- requests that read, as many as there are, let it begin, and its end opens the gate again: no flag
-- or count is left behind.
pub cleanup-ends :
    (ms : List Move)
    → (moves ms open_gate).cleaner ≡ Cleaner.waiting
    → moves (drain (moves ms open_gate).reading) (moves ms open_gate) ≡ open_gate
cleanup-ends ms e =
    let g = moves ms open_gate in
    ap (moves (drain g.reading)) (shut g (moves-Sound ms open_gate open_gate-Sound) e)
    ∙ drain_all g.reading
