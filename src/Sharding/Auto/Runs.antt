-- ===== src/Sharding/Auto/Runs.antt =====
-- The calls of AutoSharding (pkg/manager/controllers/shardingconfigserver/auto_sharding.go).
use mathlib.Core.List.{append-nil}
use controller_mesh.Prelude.{
  String, List, [], ◌∷◌, ◌++◌, map, true, false, not, ◌||◌, some, filter, contains, ◌≡◌, refl, sym,
  ap, ◌∙◌, if◌then◌else◌, ◌==◌, arith, Bool-cases, inl, inr,
}
use controller_mesh.Sharding.Config.{Child, Environment}
use controller_mesh.Sharding.Auto.{get_child}
use controller_mesh.Sharding.Auto.Sync.{
  RootObject, Call, create_config, update_status, update_root, Answer, Run, delete_call, has_hash,
  is_listed, is_disabled, protect_finalizer, add_finalizers, delete_outdated, create_missing,
  sync_status, report, create, generate, auto_sharding,
}

-- The children with the hash, those with another one, and those that are to be made.
abbrev pub current : String → List Child → List Child
current hash old = filter (has_hash hash) old

abbrev pub outdated : String → List Child → List Child
outdated hash old = filter (λ c. not (has_hash hash c)) old

abbrev pub missing : List Child → List Child → List Child
missing old children = filter (λ c. not (is_listed old c)) children

abbrev pub hold_calls : RootObject → List Call
hold_calls root =
    if contains protect_finalizer root.finalizers
    then []
    else update_root (root.finalizers ++ protect_finalizer ∷ []) ∷ []

abbrev pub status_calls : (List String → String) → RootObject → List Child → List Call
status_calls names_hash root children =
    let names = map (λ c. c.name) children in
    if names_hash root.child_configs == names_hash names then [] else update_status names ∷ []

module _ (env : Environment) (names_hash : List String → String) (answer : Call → Answer) where
  delete_outdated-done :
      (hash : String) (old : List Child)
      → ((delete_outdated env names_hash answer hash old).1).0 ≡ false
      → delete_outdated env names_hash answer hash old
        ≡ (map delete_call (outdated hash old), (false, current hash old))
  unfolding delete_outdated
  delete_outdated-done hash [] h = refl
  delete_outdated-done hash (c ∷ cs) h = grind (arith, delete_outdated-done hash cs)

  create_missing-done :
      (old children : List Child)
      → (create_missing env names_hash answer old children).1 ≡ false
      → create_missing env names_hash answer old children
        ≡ (map create_config (missing old children), false)
  unfolding create_missing
  create_missing-done old [] h = refl
  create_missing-done old (c ∷ cs) h = grind (arith, create_missing-done old cs)

  -- What `generate` calls, behind `calls`.
  abbrev generated : List Call → List Child → RootObject → List Child → List Call
  generated calls old root children =
      let hash = env.root_hash root.config.root in
      calls
      ++ map delete_call (outdated hash old)
      ++ map create_config (missing (current hash old) children)
      ++ status_calls names_hash root children

  report-calls :
      (calls : List Call) (root : RootObject) (children : List Child)
      → (report env names_hash answer calls root children).calls
        ≡ calls ++ status_calls names_hash root children
  unfolding sync_status
  report-calls calls root children =
      elim (Bool-cases (names_hash root.child_configs == names_hash (map (λ c. c.name) children))) [
        | inl e ↦ rw e (sym (append-nil calls))
        | inr e ↦ rw e refl
      ]

  create-calls :
      (calls : List Call) (old : List Child) (root : RootObject) (children : List Child)
      → (create env names_hash answer calls old root children).failed ≡ false
      → (create env names_hash answer calls old root children).calls
        ≡ calls ++ map create_config (missing old children) ++ status_calls names_hash root children
  create-calls calls old root children h =
      elim (Bool-cases ((create_missing env names_hash answer old children).1)) [
        | inl e ↦ grind (arith, h, e)
        | inr e ↦
            rw (create_missing-done old children e)
              (report-calls (calls ++ map create_config (missing old children)) root children)
      ]

  generate-failed :
      (calls : List Call) (old : List Child) (root : RootObject) (run : Run)
      → ((delete_outdated env names_hash answer (env.root_hash root.config.root) old).1).0 ≡ true
      → generate env names_hash answer calls old root ≡ some run
      → run.failed ≡ true
  unfolding generate
  generate-failed calls old root run e h = grind (arith, e, h)

  generate-goes_on :
      (calls : List Call) (old : List Child) (root : RootObject) (children : List Child)
      → ((delete_outdated env names_hash answer (env.root_hash root.config.root) old).1).0 ≡ false
      → get_child env root.config ≡ some children
      → generate env names_hash answer calls old root
        ≡ some (
            create env names_hash answer
              (calls ++ map delete_call (outdated (env.root_hash root.config.root) old))
              (current (env.root_hash root.config.root) old)
              root
              children)
  unfolding generate
  generate-goes_on calls old root children e g =
      rw (delete_outdated-done (env.root_hash root.config.root) old e, g) refl

  generate-calls :
      (calls : List Call) (old : List Child) (root : RootObject) (children : List Child) (run : Run)
      → get_child env root.config ≡ some children
      → generate env names_hash answer calls old root ≡ some run
      → run.failed ≡ false
      → run.calls ≡ generated calls old root children
  generate-calls calls old root children run g h f =
      let hash = env.root_hash root.config.root in
      let start = calls ++ map delete_call (outdated hash old) in
      let made = create env names_hash answer start (current hash old) root children in
      elim (Bool-cases
        (((delete_outdated env names_hash answer (env.root_hash root.config.root) old).1).0)) [
          | inl e ↦ grind (arith, generate-failed calls old root run e h, f)
          | inr e ↦
              let same : made ≡ run = cc (generate-goes_on calls old root children e g, h) in
              ap (λ r. r.calls) (sym same)
              ∙ create-calls start (current hash old) root children (ap (λ r. r.failed) same ∙ f)
        ]

abbrev held : RootObject → RootObject
held root = record root { finalizers = (add_finalizers root.finalizers protect_finalizer).0 }

auto_sharding-generates :
    (env : Environment) (names_hash : List String → String) (answer : Call → Answer)
    (listed : Answer) (old : List Child) (root : RootObject) (run : Run)
    → (root.deleted || is_disabled root.config) ≡ false
    → auto_sharding env names_hash answer listed old root ≡ some run
    → run.failed ≡ false
    → generate env names_hash answer (hold_calls root) old (held root) ≡ some run
unfolding auto_sharding add_finalizers
auto_sharding-generates env names_hash answer listed old root run on h f =
    elim (Bool-cases (contains protect_finalizer root.finalizers)) [
      | inl e ↦ grind (arith, on, h, f, e)
      | inr e ↦ grind (arith, on, h, f, e)
    ]

-- Where a root is neither deleted nor disabled and the reconciliation returns no error, its calls are
-- these, in this order: the root gets the finalizer if it has none, every child with another hash is
-- deleted, every child that has no configuration left is created, and the status is written if the
-- hash of its names is another one.
pub auto_sharding-calls :
    (env : Environment) (names_hash : List String → String) (answer : Call → Answer)
    (listed : Answer) (old : List Child) (root : RootObject) (children : List Child) (run : Run)
    → (root.deleted || is_disabled root.config) ≡ false
    → get_child env root.config ≡ some children
    → auto_sharding env names_hash answer listed old root ≡ some run
    → run.failed ≡ false
    → run.calls
      ≡ hold_calls root
        ++ map delete_call (outdated (env.root_hash root.config.root) old)
        ++ map create_config (missing (current (env.root_hash root.config.root) old) children)
        ++ status_calls names_hash root children
auto_sharding-calls env names_hash answer listed old root children run on g h f =
    generate-calls env names_hash answer (hold_calls root) old (held root) children run g
      (auto_sharding-generates env names_hash answer listed old root run on h f) f
