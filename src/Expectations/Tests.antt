-- ===== src/Expectations/Tests.antt =====
-- A concrete expectation (pkg/utils/expectation/expectation.go).
use controller_mesh.Prelude.{◌+◌, ◌≤◌, ◌<◌, ◌≡◌, [], true, false, none, some}
use controller_mesh.Expectations.{
  expectations_timeout, record_expectation, satisfied, delete_expectation,
}
use controller_mesh.Expectations.Laws.{satisfied-record_expectation}

satisfied-record_expectation_example :
    let stored = record_expectation 10 "default/pod" 5 [] in
    (5 ≤ 3 → satisfied 20 "default/pod" 3 stored ≡ some true)
    × ((3 < 5 → 20 < 10 + expectations_timeout → satisfied 20 "default/pod" 3 stored ≡ some false)
        × ((3 < 5 → 10 + expectations_timeout ≤ 20 → satisfied 20 "default/pod" 3 stored ≡ none)
            × (satisfied 20 "default/pod" 3 (delete_expectation "default/pod" stored) ≡ some true)))
satisfied-record_expectation_example = satisfied-record_expectation [] "default/pod" 10 20 5 3
