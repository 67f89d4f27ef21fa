-- ===== src/Expectations.antt =====
-- Expectations with a time limit (pkg/utils/expectation/expectation.go). The thread-safe store is a
-- map by the keys of its items, and none of its operations fails, as none does where each item has
-- a key. Times are numbers of nanoseconds.
pub mod Laws
mod Tests
use controller_mesh.Prelude.{
  ℕ, ◌-◌, String, List, [], ◌∷◌, Bool, true, false, Option, none, some, Map, lookup, insert, erase,
  leb, if◌then◌else◌,
}

pub record Expectation : Type 0 where
  pub key : String
  pub value : ℕ
  pub timestamp : ℕ

abbrev pub Expectations : Type 0
Expectations = Map Expectation

-- `ExpectationsTimeout`, three minutes. The time that `NewExpectations` is given is not read.
abbrev pub expectations_timeout : ℕ
expectations_timeout = 180000000000

unfoldable pub new_expectations : Expectations
new_expectations = []

unfoldable pub is_expired : ℕ → Expectation → Bool
is_expired now e = leb expectations_timeout (now - e.timestamp)

unfoldable pub set_expectation : ℕ → String → ℕ → Expectations → Expectations
set_expectation now key value store =
    insert key (record { key = key; value = value; timestamp = now }) store

unfoldable pub record_expectation : ℕ → String → ℕ → Expectations → Expectations
unfolding set_expectation
record_expectation now key timestamp store = set_expectation now key timestamp store

unfoldable pub get_expectation : String → Expectations → Option Expectation
get_expectation key store = lookup key store

-- `none` is the panic of an expectation that has expired.
unfoldable pub satisfied : ℕ → String → ℕ → Expectations → Option Bool
unfolding get_expectation is_expired
satisfied now key timestamp store = elim (get_expectation key store) [
  | none ↦ some true
  | some e ↦
      if leb e.value timestamp then some true else if is_expired now e then none else some false
]

unfoldable pub delete_expectation : String → Expectations → Expectations
unfolding get_expectation
delete_expectation key store = elim (get_expectation key store) [
  | none ↦ store
  | some e ↦ erase e.key store
]
