-- ===== src/Rollout/Scan.antt =====
-- What the first loop of `upgrade` collects
-- (pkg/manager/controllers/rollout/rollout_controller.go).
use mathlib.Core.List.{append-nil, append_assoc}
use controller_mesh.Prelude.{
  String, ◌≡◌, refl, sym, ◌∙◌, ap, List, [], ◌∷◌, ◌++◌, map, Bool, false, not, ◌&&◌, ◌||◌, Option,
  none, some, Map, lookup, insert, lookup-insert, any, all, filter, is_empty, is_some,
  if◌then◌else◌, ◌==◌, eq_iff, arith, Bool-cases, inl, inr,
}
use controller_mesh.Pods.{Pod, is_pod_ready}
use controller_mesh.Expectations.{Expectations}
use controller_mesh.Rollout.{StatefulSet, is_updated_revision, is_terminating, scan}

abbrev pub put_all : List Pod → Map Pod → Map Pod
put_all [] m = m
put_all (p ∷ ps) m = put_all ps (insert p.name p m)

or_assoc : (a b c : Bool) → ((a || b) || c) ≡ (a || (b || c))
or_assoc a b c = ground arith

or_false : (a : Bool) → (a || false) ≡ a
or_false a = ground arith

module _ (sts : StatefulSet) (expected : Expectations) where
  abbrev pub is_outdated : Pod → Bool
  is_outdated p = not (is_updated_revision sts p)

  abbrev pub is_unready : Pod → Bool
  is_unready p = is_updated_revision sts p && not (is_pod_ready p)

  -- The pod has the recent revision, is ready and is not on its way out.
  abbrev pub is_done : Pod → Bool
  is_done p = (is_updated_revision sts p && is_pod_ready p) && not (is_terminating expected p)

  abbrev pub scanned : Bool → Bool → Map Pod → Option (Bool × Map Pod)
  scanned unready terminating m = if unready then none else some (terminating, m)

  again :
      (p : Pod) (ps : List Pod) (t : Bool) (m : Map Pod)
      → scanned
          (any is_unready ps)
          ((t || is_terminating expected p) || any (is_terminating expected) ps)
          m
        ≡ scanned
            (any is_unready ps)
            (t || (is_terminating expected p || any (is_terminating expected) ps))
            m
  again p ps t m =
      ap (λ b. scanned (any is_unready ps) b m)
        (or_assoc t (is_terminating expected p) (any (is_terminating expected) ps))

  pub scan-eq :
      (ps : List Pod) (t : Bool) (m : Map Pod)
      → scan sts expected ps t m
        ≡ scanned
            (any is_unready ps)
            (t || any (is_terminating expected) ps)
            (put_all (filter is_outdated ps) m)
  unfolding scan
  scan-eq [] t m = ap (λ b. some (b, m)) (sym (or_false t))
  scan-eq (p ∷ ps) t m =
      let t' = t || is_terminating expected p in
      elim (Bool-cases (is_updated_revision sts p)) [
        | inl u ↦ elim (Bool-cases (is_pod_ready p)) [
          | inl r ↦
              rw (u, r, scan, scan-eq ps t' m) (again p ps t (put_all (filter is_outdated ps) m))
          | inr r ↦ rw (u, r, scan) refl
        ]
        | inr u ↦
            rw (u, scan, scan-eq ps t' (insert p.name p m))
              (again p ps t (put_all (filter is_outdated ps) (insert p.name p m)))
      ]

unfoldable pub values : Map Pod → List Pod
values m = map (λ (e : String × Pod). e.1) m

-- No two pods have the same name.
abbrev pub AreDistinct : List Pod → Type 0
AreDistinct [] = Unit
AreDistinct (p ∷ ps) = (any (λ q. q.name == p.name) ps ≡ false) × AreDistinct ps

any-filter : (f g : Pod → Bool) (ps : List Pod) → any f ps ≡ false → any f (filter g ps) ≡ false
any-filter f g [] h = refl
any-filter f g (p ∷ ps) h = ground (arith, h, any-filter f g ps)

pub AreDistinct-filter :
    (f : Pod → Bool) (ps : List Pod) → AreDistinct ps → AreDistinct (filter f ps)
AreDistinct-filter f [] h = h
AreDistinct-filter f (p ∷ ps) (h, hs) = elim (Bool-cases (f p)) [
  | inl e ↦ rw e (any-filter (λ q. q.name == p.name) f ps h, AreDistinct-filter f ps hs)
  | inr e ↦ rw e (AreDistinct-filter f ps hs)
]

-- No pod has its name in the map.
abbrev pub IsFresh : Map Pod → List Pod → Type 0
IsFresh m ps = any (λ q. is_some (lookup q.name m)) ps ≡ false

values-insert :
    (m : Map Pod) (p : Pod)
    → is_some (lookup p.name m) ≡ false
    → values (insert p.name p m) ≡ values m ++ p ∷ []
unfolding values lookup insert
values-insert [] p h = refl
values-insert ((name, q) ∷ m) p h = ground (arith, h, values-insert m p)

IsFresh-insert :
    (m : Map Pod) (p : Pod) (ps : List Pod)
    → IsFresh m ps
    → any (λ q. q.name == p.name) ps ≡ false
    → IsFresh (insert p.name p m) ps
IsFresh-insert m p [] f h = refl
IsFresh-insert m p (q ∷ ps) f h = ground (
  arith,
  f,
  h,
  IsFresh-insert m p ps,
  lookup-insert p.name q.name p m,
  eq_iff p.name q.name,
  eq_iff q.name p.name,
)

pub values-put_all :
    (ps : List Pod) (m : Map Pod)
    → AreDistinct ps
    → IsFresh m ps
    → values (put_all ps m) ≡ values m ++ ps
values-put_all [] m d f = sym (append-nil (values m))
values-put_all (p ∷ ps) m (h, d) f =
    let absent : is_some (lookup p.name m) ≡ false = ground (arith, f) in
    let rest_fresh : IsFresh m ps = ground (arith, f) in
    values-put_all ps (insert p.name p m) d (IsFresh-insert m p ps rest_fresh h)
    ∙ (ap (λ xs. xs ++ ps) (values-insert m p absent) ∙ append_assoc (values m) (p ∷ []) ps)

IsFresh-nil : (ps : List Pod) → IsFresh [] ps
unfolding lookup
IsFresh-nil [] = refl
IsFresh-nil (p ∷ ps) = IsFresh-nil ps

pub values-collected : (ps : List Pod) → AreDistinct ps → values (put_all ps []) ≡ ps
unfolding values
values-collected ps d = values-put_all ps [] d (IsFresh-nil ps)

is_empty-insert : (key : String) (p : Pod) (m : Map Pod) → is_empty (insert key p m) ≡ false
unfolding insert
is_empty-insert key p [] = refl
is_empty-insert key p ((name, q) ∷ m) = ground arith

is_empty-put_all :
    (ps : List Pod) (m : Map Pod) → is_empty m ≡ false → is_empty (put_all ps m) ≡ false
is_empty-put_all [] m e = e
is_empty-put_all (p ∷ ps) m e = is_empty-put_all ps (insert p.name p m) (is_empty-insert p.name p m)

pub is_empty-collected : (ps : List Pod) → is_empty (put_all ps []) ≡ is_empty ps
is_empty-collected [] = refl
is_empty-collected (p ∷ ps) = is_empty-put_all ps (insert p.name p []) (is_empty-insert p.name p [])

pub all-is_done :
    (sts : StatefulSet) (expected : Expectations) (ps : List Pod)
    → all (is_done sts expected) ps ≡ (
        not (any (is_unready sts expected) ps)
        && (not (any (is_terminating expected) ps)
            && is_empty (filter (is_outdated sts expected) ps)))
all-is_done sts expected [] = refl
all-is_done sts expected (p ∷ ps) = ground (arith, all-is_done sts expected ps)
