-- ===== src/RequestHandler/Opmon/Totals.antt =====
-- No answer is lost between two publications.
use datahandlinglibs.Base.{ℕ, ◌+◌, ◌%◌, ◌^◌, ◌≡◌, List, [], ◌∷◌, arith}
use datahandlinglibs.RequestHandler.Respond.{classify}
use datahandlinglibs.RequestHandler.Respond.Codes.{tally, classify-tally}
use datahandlinglibs.RequestHandler.Opmon.{
  Stats, Info, Tick, answered, published, monitor, generate_opmon_data,
}

abbrev pub answers : List Tick → ℕ
answers [] = 0
answers (answered code h ∷ ts) = 1 + answers ts
answers (published waiting recording ∷ ts) = answers ts

-- The found, bad and delayed requests that were published.
abbrev pub published_tally : List Info → ℕ
published_tally [] = 0
published_tally (i ∷ is) = tally i.requests + published_tally is

-- Through any sequence of answers and publications, the found, bad and delayed requests published
-- plus those still counted are those counted before plus one for each answer, modulo 2^32: a
-- publication loses and repeats no answer.
pub monitor-tally :
    (ts : List Tick) (s : Stats)
    → (published_tally (monitor ts s).0 + tally (monitor ts s).1.requests) % 2 ^ 32
      ≡ (tally s.requests + answers ts) % 2 ^ 32
unfolding monitor generate_opmon_data
monitor-tally [] s = omega arith
monitor-tally (answered code h ∷ ts) s = omega (
  arith,
  classify-tally code h s.requests,
  monitor-tally ts (record s { requests = (classify code h s.requests).1 }),
)
monitor-tally (published waiting recording ∷ ts) s =
    omega (arith, monitor-tally ts (generate_opmon_data waiting recording s).1)
