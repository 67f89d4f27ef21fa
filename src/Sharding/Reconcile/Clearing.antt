-- ===== src/Sharding/Reconcile/Clearing.antt =====
-- The deletion of pods whose shard is gone: clearOldPods of
-- pkg/manager/controllers/shardingconfigserver/shardingconfig_controller.go.
use mathlib.Core.Path.{subst}
use controller_mesh.Prelude.{
  ℕ, ◌≤◌, String, List, [], ◌∷◌, Bool, true, false, not, ◌&&◌, ◌||◌, Option, none, some, Map,
  lookup, length, filter, all, ◌≡◌, refl, ap, if◌then◌else◌, ◌==◌, ◌>>=◌, arith, Bool-cases, inl,
  inr,
}
use controller_mesh.Pods.{Pod}
use controller_mesh.Selectors.{LabelSelector}
use controller_mesh.Sharding.Auto.Sync.{Answer, answer_ok, answer_not_found, answer_error, is_ok}

-- What reading a configuration gives: the selector of its specification, if it is there.
pub data ShardAnswer : Type 0 where
  shard_found : Option LabelSelector → ShardAnswer
  shard_missing : ShardAnswer
  shard_error : ShardAnswer

-- `po.Labels[...]`, where a missing label reads as the empty text.
abbrev pub shard_name : Pod → String
shard_name p = elim (lookup "ctrlmesh.kusionstack.io/sharding-config-injected" p.labels) [
  | none ↦ ""
  | some name ↦ name
]

-- The pods that are to be deleted, in the order of the calls, and whether an error is returned.
abbrev pub Cleared : Type 0
Cleared = Option (List Pod × Bool)

-- `as_selector` is `LabelSelectorAsSelector`, whose error is ignored: `none` is the nil that it then
-- returns, and a panic where it is used.
module _ (get_shard : String → ShardAnswer) (delete_answer : Pod → Answer)
    (as_selector : Option LabelSelector → Option (Map String → Bool)) where
  -- A deletion, and the end of the loop unless the pod is not found. The error that is returned may
  -- be nil.
  abbrev pub answered : Pod → Answer → Cleared → Cleared
  answered p answer_ok rest = some (p ∷ [], false)
  answered p answer_not_found rest = do (ps, failed) ← rest; some (p ∷ ps, failed)
  answered p answer_error rest = some (p ∷ [], true)

  abbrev pub delete_old : Pod → Cleared → Cleared
  delete_old p rest = answered p (delete_answer p) rest

  abbrev pub keep_selected : Pod → Option (Map String → Bool) → Cleared → Cleared
  keep_selected p none rest = none
  keep_selected p (some matches) rest = if matches p.labels then rest else delete_old p rest

  abbrev pub check_shard : Pod → ShardAnswer → Cleared → Cleared
  check_shard p (shard_found s) rest = keep_selected p (as_selector s) rest
  check_shard p shard_missing rest = delete_old p rest
  check_shard p shard_error rest = some ([], true)

  unfoldable pub clear_old_pods : List Pod → Cleared
  clear_old_pods [] = some ([], false)
  clear_old_pods (p ∷ ps) =
      let rest = clear_old_pods ps in
      if p.deleted || shard_name p == ""
      then rest
      else check_shard p (get_shard (shard_name p)) rest

  -- The pod names a shard that is gone or that does not select it.
  abbrev pub is_stale : Pod → Bool
  is_stale p = not (p.deleted || shard_name p == "") && (elim (get_shard (shard_name p)) [
    | shard_found s ↦ (elim (as_selector s) [
      | none ↦ false
      | some matches ↦ not (matches p.labels)
    ])
    | shard_missing ↦ true
    | shard_error ↦ false
  ])

  abbrev pub deletions : List Pod → ℕ
  deletions ps = length (filter (λ p. is_ok (delete_answer p)) ps)

  abbrev IsClear : Cleared → Type 0
  IsClear none = Unit
  IsClear (some (ps, failed)) = (deletions ps ≤ 1) × (all is_stale ps ≡ true)

  IsClear-ok : (p : Pod) (failed : Bool) → is_stale p ≡ true → IsClear (some (p ∷ [], failed))
  IsClear-ok p failed e = (ground arith, ground (arith, e))

  IsClear-not_found :
      (p : Pod) (rest : Cleared)
      → is_stale p ≡ true
      → is_ok (delete_answer p) ≡ false
      → IsClear rest
      → IsClear (do (ps, failed) ← rest; some (p ∷ ps, failed))
  IsClear-not_found p none e f h = tt
  IsClear-not_found p (some (ps, failed)) e f (few, stale) = (rw f few, ground (arith, e, stale))

  IsClear-answered :
      (p : Pod) (rest : Cleared) (answer : Answer)
      → delete_answer p ≡ answer
      → is_stale p ≡ true
      → IsClear rest
      → IsClear (answered p answer rest)
  IsClear-answered p rest answer_ok a e h = IsClear-ok p false e
  IsClear-answered p rest answer_not_found a e h = IsClear-not_found p rest e (ap is_ok a) h
  IsClear-answered p rest answer_error a e h = IsClear-ok p true e

  IsClear-selected :
      (p : Pod) (rest : Cleared) (s : Option LabelSelector) (m : Option (Map String → Bool))
      → (p.deleted || shard_name p == "") ≡ false
      → get_shard (shard_name p) ≡ shard_found s
      → as_selector s ≡ m
      → IsClear rest
      → IsClear (keep_selected p m rest)
  IsClear-selected p rest s none named g e h = tt
  IsClear-selected p rest s (some matches) named g e h = elim (Bool-cases (matches p.labels)) [
    | inl selected ↦ rw selected h
    | inr other ↦
        rw other (IsClear-answered p rest (delete_answer p) refl (rw (named, g, e, other) refl) h)
  ]

  IsClear-checked :
      (p : Pod) (rest : Cleared) (shard : ShardAnswer)
      → (p.deleted || shard_name p == "") ≡ false
      → get_shard (shard_name p) ≡ shard
      → IsClear rest
      → IsClear (check_shard p shard rest)
  IsClear-checked p rest (shard_found s) named g h =
      IsClear-selected p rest s (as_selector s) named g refl h
  IsClear-checked p rest shard_missing named g h =
      IsClear-answered p rest (delete_answer p) refl (rw (named, g) refl) h
  IsClear-checked p rest shard_error named g h = (omega arith, refl)

  clear_old_pods-IsClear : (ps : List Pod) → IsClear (clear_old_pods ps)
  unfolding clear_old_pods
  clear_old_pods-IsClear [] = (omega arith, refl)
  clear_old_pods-IsClear (p ∷ ps) = elim (Bool-cases (p.deleted || shard_name p == "")) [
    | inl e ↦ rw e (clear_old_pods-IsClear ps)
    | inr e ↦ rw e (
        IsClear-checked p (clear_old_pods ps) (get_shard (shard_name p)) e refl
          (clear_old_pods-IsClear ps))
  ]

  -- Whatever the answers are: all pods that are to be deleted name a shard that is gone or that does
  -- not select them, and at most one of them is deleted in one reconciliation.
  pub clear_old_pods-few :
      (ps asked : List Pod) (failed : Bool)
      → clear_old_pods ps ≡ some (asked, failed)
      → (deletions asked ≤ 1) × (all is_stale asked ≡ true)
  clear_old_pods-few ps asked failed h = subst IsClear h (clear_old_pods-IsClear ps)
