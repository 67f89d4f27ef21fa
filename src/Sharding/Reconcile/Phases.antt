-- ===== src/Sharding/Reconcile/Phases.antt =====
-- The order in which a reconciliation touches the pods of a configuration
-- (pkg/manager/controllers/shardingconfigserver/shardingconfig_controller.go).
use mathlib.Core.List.{append-nil, append_assoc}
use controller_mesh.Prelude.{
  String, ◌≡◌, refl, sym, ◌∙◌, ap, List, [], ◌∷◌, ◌++◌, map, Bool, true, false, not, ◌&&◌, none,
  some, any, filter, is_empty-filter, if◌then◌else◌, ◌==◌, arith, Bool-cases, inl, inr,
}
use controller_mesh.Pods.{Pod}
use controller_mesh.Sharding.Reconcile.{
  SyncPod, Server, Plan, empty_plan, leads, classify_pod, classify, Action, delete, send,
  delete_pods, send_pods, execute, filter_pods, go, reconcile,
}

-- The pod runs with another specification than the one it was sent.
abbrev pub unloaded : SyncPod → Bool
unloaded p = elim (p.current_status.meta_state) [
  | none ↦ false
  | some m ↦ not (m.expected_hash == m.current_hash)
]

-- The pod was sent another specification than the new one.
abbrev pub outdated : String → SyncPod → Bool
outdated hash p = elim (p.current_status.meta_state) [
  | none ↦ false
  | some m ↦ (m.expected_hash == m.current_hash) && not (hash == m.expected_hash)
]

-- The server has sent nothing to the pod, or the pod reports no state.
abbrev pub fresh : String → SyncPod → Bool
fresh hash p = elim (p.current_status.meta_state) [
  | none ↦ true
  | some m ↦ ((m.expected_hash == m.current_hash) && (hash == m.expected_hash)) && not p.dispatched
]

abbrev deletes : List SyncPod → List Action
deletes ps = map (λ p. delete p.pod.uid) ps

abbrev sends : String → List SyncPod → List Action
sends hash ps = map (λ p. send p.pod.uid hash) ps

abbrev other_unloaded : SyncPod → Bool
other_unloaded p = unloaded p && not (leads p)

-- First the pods that do not lead, then those that lead, then the updates, then the dispatches.
abbrev pub phase : String → List SyncPod → List Action
phase hash ps =
    if any other_unloaded ps
    then deletes (filter other_unloaded ps)
    else if any unloaded ps
    then deletes (filter unloaded ps)
    else if any (outdated hash) ps
    then sends hash (filter (outdated hash) ps)
    else sends hash (filter (fresh hash) ps)

abbrev leader_unloaded : SyncPod → Bool
leader_unloaded p = unloaded p && leads p

unfoldable extend : String → List SyncPod → Plan → Plan
extend hash ps plan = record {
  to_dispatch = plan.to_dispatch ++ filter (fresh hash) ps;
  to_update = plan.to_update ++ filter (outdated hash) ps;
  leaders_to_delete = plan.leaders_to_delete ++ filter leader_unloaded ps;
  others_to_delete = plan.others_to_delete ++ filter other_unloaded ps;
}

extend-nil : (hash : String) (plan : Plan) → extend hash [] plan ≡ plan
unfolding extend
extend-nil hash plan = simp append-nil

-- What the body of the second loop does with a pod of each kind.
extend_pod :
    (hash : String) (p : SyncPod) (plan : Plan)
    → classify_pod hash p plan ≡ (
        if unloaded p
        then (if leads p
            then record plan { leaders_to_delete = plan.leaders_to_delete ++ p ∷ [] }
            else record plan { others_to_delete = plan.others_to_delete ++ p ∷ [] })
        else if outdated hash p
        then record plan { to_update = plan.to_update ++ p ∷ [] }
        else if fresh hash p
        then record plan { to_dispatch = plan.to_dispatch ++ p ∷ [] }
        else plan)
unfolding classify_pod
extend_pod hash p plan = ground arith

-- A pod is of one kind at most.
one_kind :
    (hash : String) (p : SyncPod)
    → (unloaded p ≡ true → (outdated hash p ≡ false) × (fresh hash p ≡ false))
      × (outdated hash p ≡ true → fresh hash p ≡ false)
one_kind hash p = ground arith

extend-cons :
    (hash : String) (p : SyncPod) (ps : List SyncPod) (plan : Plan)
    → extend hash ps (classify_pod hash p plan) ≡ extend hash (p ∷ ps) plan
unfolding extend
extend-cons hash p ps plan =
    let (excludes, excludes') = one_kind hash p in
    elim (Bool-cases (unloaded p)) [
      | inl u ↦
          let (o, f) = excludes u in
          elim (Bool-cases (leads p)) [
            | inl l ↦ rw (extend_pod hash p plan, u, o, f, l, append_assoc) refl
            | inr l ↦ rw (extend_pod hash p plan, u, o, f, l, append_assoc) refl
          ]
      | inr u ↦ elim (Bool-cases (outdated hash p)) [
        | inl o ↦ rw (extend_pod hash p plan, u, o, excludes' o, append_assoc) refl
        | inr o ↦ elim (Bool-cases (fresh hash p)) [
          | inl f ↦ rw (extend_pod hash p plan, u, o, f, append_assoc) refl
          | inr f ↦ rw (extend_pod hash p plan, u, o, f) refl
        ]
      ]
    ]

classify-extend :
    (hash : String) (ps : List SyncPod) (plan : Plan) → classify hash ps plan ≡ extend hash ps plan
unfolding classify
classify-extend hash [] plan = sym (extend-nil hash plan)
classify-extend hash (p ∷ ps) plan =
    classify-extend hash ps (classify_pod hash p plan) ∙ extend-cons hash p ps plan

-- Without other pods to delete, the pods to delete are the leaders.
filter_leaders :
    (ps : List SyncPod)
    → any other_unloaded ps ≡ false
    → filter leader_unloaded ps ≡ filter unloaded ps
filter_leaders [] e = refl
filter_leaders (p ∷ ps) e = ground (arith, e, filter_leaders ps)

module _ (delete_fails send_fails : Pod → Bool) where
  delete_pods-actions :
      (ps : List SyncPod) (failed : Bool) (s : Server)
      → (delete_pods delete_fails send_fails ps failed s).0 ≡ deletes ps
  unfolding delete_pods
  delete_pods-actions [] failed s = refl
  delete_pods-actions (p ∷ ps) failed s =
      ap (λ rest. delete p.pod.uid ∷ rest) (delete_pods-actions ps _ _)

  send_pods-actions :
      (hash : String) (ps : List SyncPod) (failed : Bool) (s : Server)
      → (send_pods delete_fails send_fails hash ps failed s).0 ≡ sends hash ps
  unfolding send_pods
  send_pods-actions hash [] failed s = refl
  send_pods-actions hash (p ∷ ps) failed s =
      ap (λ rest. send p.pod.uid hash ∷ rest) (send_pods-actions hash ps _ _)

  execute-phase :
      (hash : String) (ps : List SyncPod) (s : Server)
      → (execute delete_fails send_fails hash (extend hash ps empty_plan) s).0 ≡ phase hash ps
  unfolding execute extend
  execute-phase hash ps s = elim (Bool-cases (any other_unloaded ps)) [
    | inl e ↦
        let some_other = is_empty-filter other_unloaded ps ∙ ap not e in
        simp (e, some_other, delete_pods-actions)
    | inr e ↦
        let no_other = is_empty-filter other_unloaded ps ∙ ap not e in
        let leaders = filter_leaders ps e in
        elim (Bool-cases (any unloaded ps)) [
          | inl u ↦
              let some_leader = is_empty-filter unloaded ps ∙ ap not u in
              simp (e, no_other, leaders, u, some_leader, delete_pods-actions)
          | inr u ↦
              let no_leader = is_empty-filter unloaded ps ∙ ap not u in
              elim (Bool-cases (any (outdated hash) ps)) [
                | inl o ↦
                    let some_old = is_empty-filter (outdated hash) ps ∙ ap not o in
                    simp (e, no_other, leaders, u, no_leader, o, some_old, send_pods-actions)
                | inr o ↦
                    let no_old = is_empty-filter (outdated hash) ps ∙ ap not o in
                    simp (e, no_other, leaders, u, no_leader, o, no_old, send_pods-actions)
              ]
        ]
  ]

  -- Where the first loop keeps the pods `ps`, the calls of the reconciliation are these, whichever
  -- of them fail: if a pod of `ps` that does not lead runs with another specification than it was
  -- sent, all such pods are deleted; otherwise all pods are that run with another one, which lead;
  -- if there are none either, the new specification is sent to all pods that were sent another one;
  -- and otherwise it is sent to those that were sent none or that report none.
  pub reconcile_in_phases :
      (hash : String) (pods : List Pod) (s : Server) (ps : List SyncPod)
      → (filter_pods pods s).0 ≡ go ps
      → (reconcile delete_fails send_fails hash pods s).actions ≡ phase hash ps
  unfolding reconcile
  reconcile_in_phases hash pods s ps e =
      let t = (filter_pods pods s).1 in
      rw (e, reconcile)
        (ap (λ plan. (execute delete_fails send_fails hash plan t).0)
            (classify-extend hash ps empty_plan)
          ∙ execute-phase hash ps t)
