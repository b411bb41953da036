-- ===== src/Tests/Errors.antt =====
-- The error registry.
use datahandlinglibs.Base.{◌≡◌, refl, none, [], ◌∷◌}
use datahandlinglibs.FrameErrorRegistry.{ErrorInterval, Registry, find, remove_errors_until}
use datahandlinglibs.FrameErrorRegistry.Laws.{Distinct, find-remove_errors_until}

abbrev interval : ErrorInterval
interval = record { start_ts = 10; end_ts = 20 }

abbrev two_errors : Registry
two_errors = ("MISSING_FRAMES", interval) ∷ ("SKEWED", record { start_ts = 30; end_ts = 40 }) ∷ []

two_errors-Distinct : Distinct two_errors
unfolding find
two_errors-Distinct = (refl, (refl, tt))

find-remove_errors_until_example : find "MISSING_FRAMES" (remove_errors_until 25 two_errors) ≡ none
unfolding find
find-remove_errors_until_example =
    find-remove_errors_until 25 "MISSING_FRAMES" two_errors two_errors-Distinct
