-- ===== src/Tests/ProfileExamples.antt =====
-- Examples for the profiles and the risk score of an agent.
use omnisec.Prelude.{ℕ, ◌*◌, ◌≤◌, ◌≡◌, ◌++◌, List, [], ◌∷◌, arith}
use omnisec.Security.Risk.{day}
use omnisec.Security.Scores.{
  Finding, destinations, traffic, outbound, drift, hour, scored, InBand, total_score-scored,
}
use omnisec.Security.Manager.{new_profile_manager}
use omnisec.Security.Maturity.{Call, registering, activity, perform, run, Warranted, run-Warranted}
use omnisec.Tests.Fixtures.{thousandths}
use omnisec.Tests.SecurityExamples.{printing}

abbrev found : List Finding
found = destinations 2 ∷ traffic 20_000 ∷ outbound 9_000 ∷ hour ∷ drift 3_000 ∷ []

total_score-scored_example :
    ((scored printing 7 "agent" found).total_score ≡ 100)
    × InBand
        (scored printing 7 "agent" found).risk_level
        (scored printing 7 "agent" found).total_score
    × ((scored printing 7 "agent" found).total_score
        ≤ (scored printing 7 "agent" (found ++ hour ∷ [])).total_score)
total_score-scored_example = total_score-scored printing 7 "agent" found (hour ∷ [])

abbrev seen : ℕ → Call
seen now = activity now 7 "api.example" "10.0.0.1" 443 "tcp" 500 200

run-Warranted_example :
    Warranted thousandths printing
      (perform thousandths printing
        (run thousandths printing new_profile_manager (registering 0 7 "agent" ∷ seen day ∷ []))
        (seen (9 * day)))
      (9 * day)
      7
run-Warranted_example =
    run-Warranted thousandths printing (registering 0 7 "agent" ∷ seen day ∷ []) (seen (9 * day))
      (omega arith, (omega arith, tt)) (omega arith) (omega arith)
