-- ===== src/Expectations/Laws.antt =====
-- What a recorded expectation answers later (pkg/utils/expectation/expectation.go).
use controller_mesh.Prelude.{
  ℕ, ◌+◌, ◌≤◌, ◌<◌, String, ◌≡◌, true, false, none, some, insert, lookup-insert, lookup-erase,
  eq_refl, arith,
}
use controller_mesh.Expectations.{
  Expectation, Expectations, expectations_timeout, is_expired, record_expectation, get_expectation,
  satisfied, delete_expectation, set_expectation,
}

-- A recorded expectation is met exactly by values from the expected one on; below that it is unmet
-- for three minutes and then a panic, whatever else is stored. Once deleted it is always met.
pub satisfied-record_expectation :
    (store : Expectations) (key : String) (start now value seen : ℕ)
    → let stored = record_expectation start key value store in
      (value ≤ seen → satisfied now key seen stored ≡ some true)
      × ((seen < value
            → now < start + expectations_timeout
            → satisfied now key seen stored ≡ some false)
          × ((seen < value
                → start + expectations_timeout ≤ now
                → satisfied now key seen stored ≡ none)
              × (satisfied now key seen (delete_expectation key stored) ≡ some true)))
unfolding satisfied record_expectation set_expectation get_expectation delete_expectation is_expired
satisfied-record_expectation store key start now value seen =
    let item : Expectation = record { key = key; value = value; timestamp = start } in
    let written = lookup-insert key key item store in
    let erased = lookup-erase key key (insert key item store) in
    ground (arith, written, erased, eq_refl key)
