-- ===== src/Rollout/Order.antt =====
-- How the shards of a stateful set take turns
-- (pkg/manager/controllers/rollout/rollout_controller.go).
use controller_mesh.Prelude.{
  ℕ, String, ◌≡◌, refl, ◌∙◌, List, [], ◌∷◌, Bool, true, false, not, ◌&&◌, Option, none, some, all,
  is_some, if◌then◌else◌, Bool-cases, inl, inr,
}
use controller_mesh.Pods.{Pod}
use controller_mesh.Expectations.{Expectations}
use controller_mesh.Rollout.{
  StatefulSet, Config, upgrade, is_selected, prepend_finished, Rolled, roll,
}
use controller_mesh.Rollout.Scan.{is_done}
use controller_mesh.Rollout.Upgrade.{upgrade_finishes, upgrade-finished}

module _ (delete_fails : Pod → Bool) (now : ℕ) (lease_holder : String → String → Option String)
    (roll_type : String) (sts : StatefulSet) (expected : Expectations) where
  -- The first shard that takes part and has a pod that is not done.
  abbrev pub first_unfinished : List (Config × List Pod) → Option (Config × List Pod)
  first_unfinished [] = none
  first_unfinished ((cfg, pods) ∷ cfgs) =
      let rest = first_unfinished cfgs in
      if is_selected roll_type cfg && not (all (is_done sts expected) pods)
      then some (cfg, pods)
      else rest

  abbrev pub deletions_of : Option (Config × List Pod) → List Pod
  deletions_of none = []
  deletions_of (some (cfg, pods)) =
      (upgrade delete_fails now lease_holder sts cfg pods expected).deletions

  after_finished :
      (rest : Expectations → Rolled) (cfg : Config) (pods : List Pod)
      → all (is_done sts expected) pods ≡ true
      → let r =
          prepend_finished (upgrade delete_fails now lease_holder sts cfg pods expected) rest in
        (r.asked ≡ (rest expected).asked) × (r.finished ≡ (rest expected).finished)
  after_finished rest cfg pods d =
      let finish = upgrade_finishes delete_fails now lease_holder sts cfg pods expected in
      let (nothing, same) =
        upgrade-finished delete_fails now lease_holder sts cfg pods expected d in
      rw (finish, d, same, nothing) (refl, refl)

  after_unfinished :
      (rest : Expectations → Rolled) (cfg : Config) (pods : List Pod)
      → all (is_done sts expected) pods ≡ false
      → let u = upgrade delete_fails now lease_holder sts cfg pods expected in
        let r = prepend_finished u rest in (r.asked ≡ u.deletions) × (r.finished ≡ false)
  after_unfinished rest cfg pods d =
      rw (upgrade_finishes delete_fails now lease_holder sts cfg pods expected, d) (refl, refl)

  -- Each round asks to delete pods of one shard at most: those that `upgrade` asks for in the first
  -- shard, in the order of the shards, that takes part and has a pod that is not done. It reaches
  -- its end exactly if there is no such shard.
  pub roll_one_shard :
      (cfgs : List (Config × List Pod))
      → let r = roll delete_fails now lease_holder roll_type sts cfgs expected in
        (r.asked ≡ deletions_of (first_unfinished cfgs))
        × (r.finished ≡ not (is_some (first_unfinished cfgs)))
  unfolding roll
  roll_one_shard [] = (refl, refl)
  roll_one_shard ((cfg, pods) ∷ cfgs) = elim (Bool-cases (is_selected roll_type cfg)) [
    | inr s ↦ rw (s, roll) (roll_one_shard cfgs)
    | inl s ↦ elim (Bool-cases (all (is_done sts expected) pods)) [
      | inl d ↦
          let (asked, finished) =
            after_finished (λ e. roll delete_fails now lease_holder roll_type sts cfgs e) cfg pods
              d in
          let (ih, ih') = roll_one_shard cfgs in rw (s, d, roll) (asked ∙ ih, finished ∙ ih')
      | inr d ↦
          rw (s, d, roll)
            (after_unfinished (λ e. roll delete_fails now lease_holder roll_type sts cfgs e) cfg
              pods d)
    ]
  ]
