-- ===== src/Rollout/Deletions.antt =====
-- What the loops of `upgrade` over the pods to delete do
-- (pkg/manager/controllers/rollout/rollout_controller.go).
use mathlib.Core.List.{append-nil, append_assoc}
use controller_mesh.Prelude.{
  ℕ, String, ◌≡◌, refl, sym, ◌∙◌, ap, List, [], ◌∷◌, ◌++◌, Bool, true, false, not, ◌||◌, Option,
  none, some, Map, any, filter, filter-none, ltb, is_some, if◌then◌else◌, arith, Option-cases,
  Bool-cases, inl, inr,
}
use controller_mesh.Pods.{Pod}
use controller_mesh.Expectations.{Expectations}
use controller_mesh.Rollout.{is_leader, Deleting, delete_pods, delete_pod, delete_leader}
use controller_mesh.Rollout.Scan.{values}

abbrev pub last_of : List Pod → Option Pod → Option Pod
last_of [] p = p
last_of (q ∷ ps) p = last_of ps (some q)

module _ (delete_fails : Pod → Bool) (now : ℕ) (identity : String) where
  abbrev pub leads : Pod → Bool
  leads p = is_leader p identity

  abbrev pub follows : Pod → Bool
  follows p = not (is_leader p identity)

  -- A pod that does not lead has been asked to go.
  abbrev pub busy : Deleting → Bool
  busy d = ltb 0 d.size || d.error

  delete_pod-asked :
      (p : Pod) (d : Deleting) → (delete_pod delete_fails now p d).asked ≡ d.asked ++ p ∷ []
  delete_pod-asked p d = ground arith

  delete_pod-leader : (p : Pod) (d : Deleting) → (delete_pod delete_fails now p d).leader ≡ d.leader
  delete_pod-leader p d = ground arith

  delete_pod-busy : (p : Pod) (d : Deleting) → busy (delete_pod delete_fails now p d) ≡ true
  delete_pod-busy p d = ground arith

  or_true : (a : Bool) → true ≡ (a || true)
  or_true a = ground arith

  delete_pods-asked :
      (m : Map Pod) (d : Deleting)
      → (delete_pods delete_fails now identity m d).asked ≡ d.asked ++ filter follows (values m)
  unfolding delete_pods values
  delete_pods-asked [] d = sym (append-nil d.asked)
  delete_pods-asked ((name, p) ∷ m) d = elim (Bool-cases (is_leader p identity)) [
    | inl l ↦ rw (l, delete_pods) (delete_pods-asked m (record d { leader = some p }))
    | inr l ↦
        rw (l, delete_pods)
          (delete_pods-asked m (delete_pod delete_fails now p d)
            ∙ (ap (λ xs. xs ++ filter follows (values m)) (delete_pod-asked p d)
                ∙ append_assoc d.asked (p ∷ []) (filter follows (values m))))
  ]

  delete_pods-busy :
      (m : Map Pod) (d : Deleting)
      → busy (delete_pods delete_fails now identity m d) ≡ (busy d || any follows (values m))
  unfolding delete_pods values
  delete_pods-busy [] d = ground arith
  delete_pods-busy ((name, p) ∷ m) d = elim (Bool-cases (is_leader p identity)) [
    | inl l ↦ rw (l, delete_pods) (delete_pods-busy m (record d { leader = some p }))
    | inr l ↦
        rw (l, delete_pods)
          (delete_pods-busy m (delete_pod delete_fails now p d)
            ∙ (ap (λ b. b || any follows (values m)) (delete_pod-busy p d) ∙ or_true (busy d)))
  ]

  delete_pods-leader :
      (m : Map Pod) (d : Deleting)
      → (delete_pods delete_fails now identity m d).leader
        ≡ last_of (filter leads (values m)) d.leader
  unfolding delete_pods values
  delete_pods-leader [] d = refl
  delete_pods-leader ((name, p) ∷ m) d = elim (Bool-cases (is_leader p identity)) [
    | inl l ↦ rw (l, delete_pods) (delete_pods-leader m (record d { leader = some p }))
    | inr l ↦
        rw (l, delete_pods)
          (delete_pods-leader m (delete_pod delete_fails now p d)
            ∙ ap (last_of (filter leads (values m))) (delete_pod-leader p d))
  ]

  -- The pods that the last two parts of `upgrade` ask to delete, from the list of those to delete.
  abbrev pub followers_first : List Pod → List Pod
  followers_first old =
      if any follows old
      then filter follows old
      else (elim (last_of (filter leads old) none) [ none ↦ [] | some p ↦ p ∷ [] ])

  pub record IsDeleted (old : List Pod) (d : Deleting) : Type 0 where
    pub all_asked : d.asked ≡ filter follows old
    pub all_busy : busy d ≡ any follows old
    pub last_leads : d.leader ≡ last_of (filter leads old) none

  pub delete_leader-deletions :
      (old : List Pod) (d : Deleting)
      → IsDeleted old d
      → (delete_leader delete_fails now d).deletions ≡ followers_first old
  delete_leader-deletions old d h = elim (Bool-cases (any follows old)) [
    | inl e ↦ rw (h.all_busy, e) h.all_asked
    | inr e ↦
        let nobody = h.all_asked ∙ filter-none follows old e in
        elim (Option-cases (last_of (filter leads old) none)) [
          | inl n ↦ rw (h.all_busy, e, h.last_leads, n) nobody
          | inr (p, n) ↦ rw (h.all_busy, e, h.last_leads, n) (ap (λ xs. xs ++ p ∷ []) nobody)
        ]
  ]

  last_of-some : (ps : List Pod) (p : Pod) → is_some (last_of ps (some p)) ≡ true
  last_of-some [] p = refl
  last_of-some (q ∷ ps) p = last_of-some ps q

  -- A pod that is to be deleted keeps `upgrade` from being finished.
  pub delete_leader-finish :
      (q : Pod) (old : List Pod) (d : Deleting)
      → IsDeleted (q ∷ old) d
      → (delete_leader delete_fails now d).finish ≡ false
  delete_leader-finish q old d h =
      ground (arith, h.all_busy, h.last_leads, last_of-some (filter leads old) q)

  pub delete_pods-IsDeleted :
      (m : Map Pod) (expected : Expectations)
      → IsDeleted (values m) (
          delete_pods delete_fails now identity m
            (record { size = 0; leader = none; error = false; asked = []; expecting = expected }))
  delete_pods-IsDeleted m expected =
      let d : Deleting = record {
        size = 0;
        leader = none;
        error = false;
        asked = [];
        expecting = expected;
      } in
      record {
        all_asked = delete_pods-asked m d;
        all_busy = delete_pods-busy m d;
        last_leads = delete_pods-leader m d;
      }
