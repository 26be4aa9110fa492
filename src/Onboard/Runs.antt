-- ===== src/Onboard/Runs.antt =====
-- The first-run guide at concrete inputs.
use road.Base.{◌≡◌, [], ◌∷◌, ◌++◌, if◌then◌else◌, codes, bytes_eq, get_or}
use road.Onboard.Console.{Console}
use road.Onboard.Guide.{run}
use road.Onboard.Shown.{after, opening, shown_of, english, russian, run_lem}

-- One answer, and then the end of the input.
abbrev answered : Console
answered = record { lines = codes "2" ∷ []; shown = [] }

run_lem_example :
    run (λ text. text) answered
    ≡ after answered 6 (
        opening
        ++ shown_of
            (if bytes_eq (get_or answered.lines 0 []) (codes "2") then russian else english))
run_lem_example = run_lem (λ text. text) answered
