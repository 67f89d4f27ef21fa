-- ===== src/Sharding/Auto/Sync.antt =====
-- What the controller does with a root configuration: AutoSharding and what it calls
-- (pkg/manager/controllers/shardingconfigserver/auto_sharding.go). The answer of the API server is a
-- function of the call; `none` is a panic.
use controller_mesh.Prelude.{
  ℕ, zero, suc, String, List, [], ◌∷◌, ◌++◌, map, Bool, true, false, not, ◌||◌, Option, none, some,
  length, get_elem?, is_empty, contains, lookup, if◌then◌else◌, ◌==◌, ◌>>=◌,
}
use controller_mesh.Sharding.Config.{Child, RootConfig, Environment}
use controller_mesh.Sharding.Auto.{get_child}

-- A root with the part of its metadata and of its status that is read or written.
pub record RootObject : Type 0 where
  pub config : RootConfig
  pub deleted : Bool
  pub finalizers : List String
  pub child_configs : List String

-- `append(xs[:i], xs[i+1:]...)`.
abbrev pub remove_at {ℓ} : {A : Type ℓ} → ℕ → List A → List A
remove_at i [] = []
remove_at zero (x ∷ xs) = xs
remove_at (suc i) (x ∷ xs) = x ∷ remove_at i xs

-- The rounds of the loop from the index `i` on: `range` has fixed their number before the first one.
unfoldable pub clear_from : String → ℕ → ℕ → List String → Bool → Option (List String × Bool)
clear_from key zero i xs res = some (xs, res)
clear_from key (suc rounds) i xs res = do
  x ← get_elem? xs i
  let removed = clear_from key rounds (suc i) (remove_at i xs) true
  let kept = clear_from key rounds (suc i) xs res
  if x == key then removed else kept

unfoldable pub clear_finalizers : List String → String → Option (List String × Bool)
unfolding clear_from
clear_finalizers xs key = clear_from key (length xs) 0 xs false

unfoldable pub add_finalizers : List String → String → List String × Bool
add_finalizers xs key = if contains key xs then (xs, false) else (xs ++ key ∷ [], true)

unfoldable pub clear_status : RootObject → RootObject × Bool
clear_status root =
    if is_empty root.child_configs
    then (root, false)
    else (record root { child_configs = [] }, true)

abbrev pub protect_finalizer : String
protect_finalizer = "finalizer.ctrlmesh.kusionstack.io/protected"

abbrev pub is_disabled : RootConfig → Bool
is_disabled c = elim (c.root.disable) [ none ↦ false | some b ↦ b ]

-- A call of the API server: a configuration goes by its namespace and its name, the status by its
-- list, and the root by its finalizers.
pub data Call : Type 0 where
  delete_config : String → String → Call
  create_config : Child → Call
  update_status : List String → Call
  update_root : List String → Call

pub data Answer : Type 0 where
  answer_ok : Answer
  answer_not_found : Answer
  answer_error : Answer

-- `err == nil`.
abbrev pub is_ok : Answer → Bool
is_ok answer_ok = true
is_ok answer_not_found = false
is_ok answer_error = false

-- `err != nil && !errors.IsNotFound(err)`.
abbrev pub is_refused : Answer → Bool
is_refused answer_ok = false
is_refused answer_not_found = false
is_refused answer_error = true

-- The calls, whether an error is returned, and the root in memory.
pub record Run : Type 0 where
  pub calls : List Call
  pub failed : Bool
  pub root : RootObject

abbrev pub ran : List Call → Bool → RootObject → Run
ran calls failed root = record { calls = calls; failed = failed; root = root }

abbrev pub delete_call : Child → Call
delete_call c = delete_config c.namespace c.name

-- A missing annotation reads as the empty text.
abbrev pub has_hash : String → Child → Bool
has_hash hash c = elim (lookup "ctrlmesh.kusionstack.io/auto-sharding-hash" c.annotations) [
  | none ↦ "" == hash
  | some h ↦ h == hash
]

abbrev pub is_listed : List Child → Child → Bool
is_listed old c = contains c.name (map (λ o. o.name) old)

module _ (env : Environment) (names_hash : List String → String) (answer : Call → Answer) where
  unfoldable pub delete_all : List Child → List Call × Bool
  delete_all [] = ([], false)
  delete_all (c ∷ cs) =
      let (calls, failed) = delete_all cs in
      if is_ok (answer (delete_call c))
      then (delete_call c ∷ calls, failed)
      else (delete_call c ∷ [], true)

  -- The calls, whether one of them failed, and the configurations of `oldMap`.
  unfoldable pub delete_outdated : String → List Child → List Call × (Bool × List Child)
  delete_outdated hash [] = ([], (false, []))
  delete_outdated hash (c ∷ cs) =
      let (calls, (failed, kept)) = delete_outdated hash cs in
      if has_hash hash c
      then (calls, (failed, c ∷ kept))
      else if is_ok (answer (delete_call c))
      then (delete_call c ∷ calls, (failed, kept))
      else (delete_call c ∷ [], (true, []))

  unfoldable pub create_missing : List Child → List Child → List Call × Bool
  create_missing old [] = ([], false)
  create_missing old (c ∷ cs) =
      let (calls, failed) = create_missing old cs in
      if is_listed old c
      then (calls, failed)
      else if is_ok (answer (create_config c))
      then (create_config c ∷ calls, failed)
      else (create_config c ∷ [], true)

  unfoldable pub sync_status : RootObject → List Child → RootObject × Bool
  sync_status root children =
      let names = map (λ c. c.name) children in
      if names_hash root.child_configs == names_hash names
      then (root, false)
      else (record root { child_configs = names }, true)

  -- The branch of a root that is deleted or disabled, behind the update of the status.
  abbrev pub release : List Call → RootObject → Option Run
  release calls root = do
    (finalizers, removed) ← clear_finalizers root.finalizers protect_finalizer
    let freed = record root { finalizers = finalizers }
    some (
        if removed
        then ran (calls ++ update_root finalizers ∷ [])
            (not (is_ok (answer (update_root finalizers)))) freed
        else ran calls false freed)

  unfoldable pub withdraw : List Child → RootObject → Option Run
  unfolding delete_all clear_status clear_finalizers
  withdraw old root =
      let (deletes, failed) = delete_all old in
      let (cleared, changed) = clear_status root in
      let update = update_status cleared.child_configs in
      if failed
      then some (ran deletes true root)
      else if not changed
      then release deletes cleared
      else if is_refused (answer update)
      then some (ran (deletes ++ update ∷ []) true cleared)
      else release (deletes ++ update ∷ []) cleared

  -- Behind the creation of the children.
  abbrev pub report : List Call → RootObject → List Child → Run
  report calls root children =
      let (synced, changed) = sync_status root children in
      let update = update_status synced.child_configs in
      if changed
      then ran (calls ++ update ∷ []) (not (is_ok (answer update))) synced
      else ran calls false synced

  abbrev pub create : List Call → List Child → RootObject → List Child → Run
  create calls old root children =
      let (creates, failed) = create_missing old children in
      if failed then ran (calls ++ creates) true root else report (calls ++ creates) root children

  -- Behind the update of the finalizers.
  unfoldable pub generate : List Call → List Child → RootObject → Option Run
  unfolding delete_outdated create_missing sync_status get_child
  generate calls old root =
      let (deletes, (failed, kept)) = delete_outdated (env.root_hash root.config.root) old in
      if failed then some (ran (calls ++ deletes) true root) else (do
        children ← get_child env root.config
        some (create (calls ++ deletes) kept root children))

  -- `old` is what the list of the configurations with the label of the root gives, and `listed` its
  -- answer.
  unfoldable pub auto_sharding : Answer → List Child → RootObject → Option Run
  unfolding withdraw generate add_finalizers
  auto_sharding listed old root =
      let (finalizers, added) = add_finalizers root.finalizers protect_finalizer in
      let held = record root { finalizers = finalizers } in
      if is_refused listed
      then some (ran [] true root)
      else if root.deleted || is_disabled root.config
      then withdraw old root
      else if not added
      then generate [] old held
      else if is_ok (answer (update_root finalizers))
      then generate (update_root finalizers ∷ []) old held
      else some (ran (update_root finalizers ∷ []) true held)
