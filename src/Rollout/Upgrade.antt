-- ===== src/Rollout/Upgrade.antt =====
-- The order in which `upgrade` deletes the pods of a shard, and when it is done
-- (pkg/manager/controllers/rollout/rollout_controller.go).
use controller_mesh.Prelude.{
  ℕ, String, ◌≡◌, refl, sym, ◌∙◌, ap, List, [], ◌∷◌, Bool, true, false, ◌||◌, Option, some, Map,
  any, all, filter, is_empty, if◌then◌else◌, arith, Option-cases, Bool-cases, inl, inr,
}
use controller_mesh.Pods.{Pod}
use controller_mesh.Expectations.{Expectations}
use controller_mesh.Rollout.{
  StatefulSet, Config, is_terminating, Upgraded, get_holder_identity, upgrade, upgrade_scanned,
}
use controller_mesh.Rollout.Scan.{
  put_all, values, is_outdated, is_unready, is_done, scan-eq, AreDistinct, AreDistinct-filter,
  values-collected, is_empty-collected, all-is_done,
}
use controller_mesh.Rollout.Deletions.{
  followers_first, delete_leader-deletions, delete_leader-finish, delete_pods-IsDeleted,
}

module _ (delete_fails : Pod → Bool) (now : ℕ) (lease_holder : String → String → Option String)
    (sts : StatefulSet) (cfg : Config) (pods : List Pod) (expected : Expectations) where
  abbrev result : Upgraded
  result = upgrade delete_fails now lease_holder sts cfg pods expected

  abbrev found : Bool × Map Pod
  found = (any (is_terminating expected) pods, put_all (filter (is_outdated sts expected) pods) [])

  upgrade-unready : any (is_unready sts expected) pods ≡ true → result.deletions ≡ []
  unfolding upgrade
  upgrade-unready e = rw (scan-eq sts expected pods false [], e, upgrade) refl

  upgrade-scanned :
      any (is_unready sts expected) pods ≡ false
      → result ≡ upgrade_scanned delete_fails now lease_holder cfg expected found
  unfolding upgrade
  upgrade-scanned e = rw (scan-eq sts expected pods false [], e, upgrade) refl

  abbrev old : List Pod
  old = filter (is_outdated sts expected) pods

  abbrev first : String → List Pod
  first identity = followers_first delete_fails now identity old

  values-nil : (m : Map Pod) → is_empty m ≡ true → values m ≡ []
  unfolding values
  values-nil [] e = refl
  values-nil ((name, p) ∷ m) e = ground (arith, e)

  upgrade_scanned-deletions :
      (identity : String) (m : Map Pod)
      → values m ≡ old
      → get_holder_identity delete_fails now lease_holder cfg ≡ some identity
      → (upgrade_scanned delete_fails now lease_holder cfg expected (false, m)).deletions
        ≡ first identity
  upgrade_scanned-deletions identity m found_old holder = elim (Bool-cases (is_empty m)) [
    | inl e ↦
        rw e (ap (followers_first delete_fails now identity) (sym (values-nil m e) ∙ found_old))
    | inr e ↦
        rw (e, holder)
          (delete_leader-deletions delete_fails now identity (values m) _
              (delete_pods-IsDeleted delete_fails now identity m expected)
            ∙ ap (followers_first delete_fails now identity) found_old)
  ]

  waits :
      any (is_terminating expected) pods ≡ true
      → (upgrade_scanned delete_fails now lease_holder cfg expected found).deletions ≡ []
  waits t = rw t refl

  -- Where the pods have distinct names and the lease has a holder, `upgrade` asks to delete, whichever
  -- calls fail: nothing as long as a pod is terminating or a pod with the recent revision is not
  -- ready; otherwise all the pods with another revision that do not hold the lease, and only where
  -- there is none of them one that holds it.
  pub upgrade_deletes :
      (identity : String)
      → AreDistinct pods
      → get_holder_identity delete_fails now lease_holder cfg ≡ some identity
      → result.deletions ≡ (
          if any (is_unready sts expected) pods || any (is_terminating expected) pods
          then []
          else followers_first delete_fails now identity (filter (is_outdated sts expected) pods))
  upgrade_deletes identity distinct holder =
      elim (Bool-cases (any (is_unready sts expected) pods)) [
        | inl u ↦ rw u (upgrade-unready u)
        | inr u ↦ elim (Bool-cases (any (is_terminating expected) pods)) [
          | inl t ↦ rw (u, t) (ap (λ r. r.deletions) (upgrade-scanned u) ∙ waits t)
          | inr t ↦
              rw (u, t)
                (ap (λ r. r.deletions) (upgrade-scanned u)
                  ∙ (ap
                        (λ b.
                          (upgrade_scanned delete_fails now lease_holder cfg expected
                            (b, put_all old [])).deletions)
                        t
                      ∙ upgrade_scanned-deletions identity (put_all old [])
                          (values-collected old
                            (AreDistinct-filter (is_outdated sts expected) pods distinct))
                          holder))
        ]
      ]

  upgrade_scanned-finish :
      (m : Map Pod)
      → (upgrade_scanned delete_fails now lease_holder cfg expected (false, m)).finish ≡ is_empty m
  unfolding values
  upgrade_scanned-finish [] = refl
  upgrade_scanned-finish ((name, p) ∷ m) =
      elim (Option-cases (get_holder_identity delete_fails now lease_holder cfg)) [
        | inl e ↦ rw e refl
        | inr (identity, e) ↦ rw e (
            delete_leader-finish delete_fails now identity p (values m) _
              (delete_pods-IsDeleted delete_fails now identity ((name, p) ∷ m) expected))
      ]

  waits_unfinished :
      any (is_terminating expected) pods ≡ true
      → (upgrade_scanned delete_fails now lease_holder cfg expected found).finish ≡ false
  waits_unfinished t = rw t refl

  upgrade-unready_unfinished : any (is_unready sts expected) pods ≡ true → result.finish ≡ false
  unfolding upgrade
  upgrade-unready_unfinished e = rw (scan-eq sts expected pods false [], e, upgrade) refl

  -- `upgrade` reports a shard as finished exactly if each of its pods has the recent revision, is
  -- ready, and is neither terminating nor expected to be deleted.
  pub upgrade_finishes : result.finish ≡ all (is_done sts expected) pods
  upgrade_finishes =
      rw (all-is_done sts expected pods) (elim (Bool-cases (any (is_unready sts expected) pods)) [
        | inl u ↦ rw u (upgrade-unready_unfinished u)
        | inr u ↦ elim (Bool-cases (any (is_terminating expected) pods)) [
          | inl t ↦ rw (u, t) (ap (λ r. r.finish) (upgrade-scanned u) ∙ waits_unfinished t)
          | inr t ↦
              rw (u, t)
                (ap (λ r. r.finish) (upgrade-scanned u)
                  ∙ (ap
                        (λ b.
                          (upgrade_scanned delete_fails now lease_holder cfg expected
                            (b, put_all old [])).finish)
                        t
                      ∙ (upgrade_scanned-finish (put_all old []) ∙ is_empty-collected old)))
        ]
      ])

  upgrade_scanned-empty :
      (m : Map Pod)
      → is_empty m ≡ true
      → let u = upgrade_scanned delete_fails now lease_holder cfg expected (false, m) in
        (u.deletions ≡ []) × (u.expectations ≡ expected)
  upgrade_scanned-empty [] e = (refl, refl)
  upgrade_scanned-empty (entry ∷ m) e = ground (arith, e)

  -- A shard that is finished is left alone.
  pub upgrade-finished :
      all (is_done sts expected) pods ≡ true
      → (result.deletions ≡ []) × (result.expectations ≡ expected)
  upgrade-finished e =
      let parts = sym (all-is_done sts expected pods) ∙ e in
      let ready : any (is_unready sts expected) pods ≡ false = ground (arith, parts) in
      let stays : any (is_terminating expected) pods ≡ false = ground (arith, parts) in
      let none_old : is_empty old ≡ true = ground (arith, parts) in
      let scanned_so =
        upgrade-scanned ready
        ∙ ap (λ b. upgrade_scanned delete_fails now lease_holder cfg expected (b, put_all old []))
            stays in
      rw scanned_so (upgrade_scanned-empty (put_all old []) (is_empty-collected old ∙ none_old))
