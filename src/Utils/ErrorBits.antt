-- ===== src/Utils/ErrorBits.antt =====
-- `ErrorBitGenerator::next`, with the tables that `generate` draws at random as parameters.
use datahandlinglibs.Base.{
  ℕ, zero, suc, ◌+◌, ◌%◌, ◌≤◌, ◌≡◌, refl, ap₂, Bool, true, false, not, ◌&&◌, List, [], ◌∷◌, arith,
  leb, ◌==◌, if◌then◌else◌, ne→==, leb_gt, replicate,
}

pub record Tables : Type 0 where
  pub error_bits : ℕ → ℕ
  pub error_occurrences : ℕ → ℕ
  pub no_error_occurrences : ℕ → ℕ

pub record Generator : Type 0 where
  pub error_bits_index : ℕ
  pub error_occurrences_index : ℕ
  pub no_error_occurrences_index : ℕ
  pub current_occurrence : ℕ
  pub occurrence_count : ℕ
  pub set_error_bits : Bool

-- `ErrorBitGenerator(rate)`
abbrev pub generator : Generator
generator = record {
  error_bits_index = 0;
  error_occurrences_index = 0;
  no_error_occurrences_index = 0;
  current_occurrence = 0;
  occurrence_count = 0;
  set_error_bits = true;
}

-- The next phase, when the current one is over.
abbrev pub next_phase : Tables → Bool → Generator → Generator
next_phase t true g = record {
  error_bits_index = (g.error_bits_index + 1) % 1000;
  error_occurrences_index = (g.error_occurrences_index + 1) % 1000;
  no_error_occurrences_index = g.no_error_occurrences_index;
  current_occurrence = t.no_error_occurrences g.no_error_occurrences_index;
  occurrence_count = 0;
  set_error_bits = false;
}
next_phase t false g = record {
  error_bits_index = g.error_bits_index;
  error_occurrences_index = g.error_occurrences_index;
  no_error_occurrences_index = (g.no_error_occurrences_index + 1) % 1000;
  current_occurrence = t.error_occurrences g.error_occurrences_index;
  occurrence_count = 0;
  set_error_bits = true;
}

abbrev pub enter_phase : Tables → Generator → Generator
enter_phase t g =
    if leb g.current_occurrence g.occurrence_count then next_phase t g.set_error_bits g else g

unfoldable pub next : Tables → Generator → ℕ × Generator
next t g =
    let p = enter_phase t g in
    (
      if p.set_error_bits && not (p.current_occurrence == 0)
          then t.error_bits p.error_bits_index
          else 0,
      record p { occurrence_count = p.occurrence_count + 1 },
    )

unfoldable pub draw : ℕ → Tables → Generator → List ℕ
unfolding next
draw zero t g = []
draw (suc n) t g = let (bits, g') = next t g in bits ∷ draw n t g'

-- While the occurrences of a phase are not used up, the generator draws the same value: the phase's
-- error bits in a phase of errors, and 0 in one without.
pub draw-phase :
    (n : ℕ) (t : Tables) (g : Generator)
    → g.occurrence_count + n ≤ g.current_occurrence
    → draw n t g ≡ replicate n (if g.set_error_bits then t.error_bits g.error_bits_index else 0)
unfolding draw next
draw-phase zero t g h = refl
draw-phase (suc n) t g h =
    rw
      (
        leb_gt g.current_occurrence g.occurrence_count (omega arith),
        ne→== g.current_occurrence 0 (omega arith),
      )
      (ap₂ ◌∷◌ (and_true g.set_error_bits)
        (draw-phase n t (record g { occurrence_count = g.occurrence_count + 1 }) (omega arith)))
  where
    and_true :
        (b : Bool)
        → (if b && true then t.error_bits g.error_bits_index else 0)
          ≡ (if b then t.error_bits g.error_bits_index else 0)
    and_true true = refl
    and_true false = refl
