-- ===== src/Proxy/Loading.antt =====
-- Which specification a running proxy keeps (pkg/proxy/proto/proto_manager.go and grpc.go).
use controller_mesh.Prelude.{
  String, ◌≡◌, refl, sym, ap, ◌∙◌, List, [], ◌∷◌, true, false, Option, none, some, ◌>>=◌, ◌==◌,
  eq_iff, arith, Option-cases, Bool-cases, inl, inr,
}
use controller_mesh.Selectors.{LabelSelector}
use controller_mesh.Proxy.{SpecMeta, ProxySpec, InternalSpec, convert_proto_spec_to_internal}
use controller_mesh.Proxy.Specs.{
  ProxyStatus, SpecManager, meta_of, Loadable, loadable, unloadable, compare_meta, check_loadable,
  write_expected_spec, write_current_spec, Failures, load_spec, update_spec, recv, get_status,
  is_invalid,
}

abbrev pub no_failures : Failures
no_failures = record { expected = false; current = false }

-- A specification is loaded, and it is of this shard and has this hash.
pub record IsLoaded (m : SpecMeta) (sm : SpecManager) : Type 0 where
  pub current : InternalSpec
  pub is_current : sm.current_spec ≡ some current
  pub has_meta : current.proxy_spec.meta ≡ some m

-- The meta of the last specification that is valid, or the one given where none is.
abbrev pub or_meta : SpecMeta → Option SpecMeta → SpecMeta
or_meta e none = e
or_meta e (some m) = m

abbrev pub valid_meta : SpecMeta → ProxySpec → SpecMeta
valid_meta e spec = elim (is_invalid spec) [ true ↦ e | false ↦ or_meta e spec.meta ]

abbrev pub last_meta : SpecMeta → List ProxySpec → SpecMeta
last_meta e [] = e
last_meta e (spec ∷ specs) = last_meta (valid_meta e spec) specs

module _ (decode : String → LabelSelector) where
  -- The specifications that arrive, one after the other.
  abbrev pub recv_all : List ProxySpec → SpecManager → Option SpecManager
  recv_all [] sm = some sm
  recv_all (spec ∷ specs) sm = recv decode no_failures spec sm >>= λ next. recv_all specs next

  -- A result with this specification still loaded, and that one expected.
  abbrev pub Keeps : SpecMeta → SpecMeta → Option SpecManager → Type 0
  Keeps m e next =
      (sm : SpecManager) × (next ≡ some sm) × IsLoaded m sm × (meta_of sm.expected_spec ≡ some e)

  compare_meta-loadable : (m e : SpecMeta) → compare_meta m e ≡ loadable → m ≡ e
  unfolding compare_meta
  compare_meta-loadable m e h =
      let s : (m.shard_name == e.shard_name) ≡ true = ground (arith, h) in
      let t : (m.hash == e.hash) ≡ true = ground (arith, h, s) in
      λ i. record {
        shard_name = (eq_iff m.shard_name e.shard_name).0 s i;
        hash = (eq_iff m.hash e.hash).0 t i;
      }

  Keeps-load_spec :
      (m e : SpecMeta) (verdict : Loadable) (spec : InternalSpec) (sm : SpecManager)
      → (verdict ≡ loadable → m ≡ e)
      → spec.proxy_spec.meta ≡ some e
      → meta_of sm.expected_spec ≡ some e
      → IsLoaded m sm
      → Keeps m e (load_spec decode no_failures spec verdict sm)
  unfolding load_spec write_current_spec
  Keeps-load_spec m e (unloadable reason) spec sm same h x l =
      (_, refl, record { current = l.current; is_current = l.is_current; has_meta = l.has_meta }, x)
  Keeps-load_spec m e loadable spec sm same h x l = (
    _,
    refl,
    record { current = spec; is_current = refl; has_meta = h ∙ ap some (sym (same refl)) },
    x,
  )

  check_loadable-some :
      (m e : SpecMeta) (sm : SpecManager) (c : InternalSpec)
      → sm.current_spec ≡ some c
      → c.proxy_spec.meta ≡ some m
      → meta_of sm.expected_spec ≡ some e
      → check_loadable sm ≡ some (compare_meta m e)
  unfolding check_loadable
  check_loadable-some m e sm c x y z = rw (x, y, z) refl

  Keeps-verdict :
      (m e : SpecMeta) (spec : InternalSpec) (sm : SpecManager) (verdict : Loadable)
      → check_loadable sm ≡ some verdict
      → Keeps m e (load_spec decode no_failures spec verdict sm)
      → Keeps m e (check_loadable sm >>= λ v. load_spec decode no_failures spec v sm)
  Keeps-verdict m e spec sm verdict h k = rw h k

  Keeps-update_spec :
      (m e : SpecMeta) (spec : ProxySpec) (sm : SpecManager)
      → spec.meta ≡ some e
      → IsLoaded m sm
      → Keeps m e (update_spec decode no_failures spec sm)
  unfolding update_spec write_expected_spec convert_proto_spec_to_internal
  Keeps-update_spec m e spec sm h l =
      let internal = convert_proto_spec_to_internal decode spec in
      let next : SpecManager = record sm {
        storage = record (sm.storage) { expected_spec_file = spec ∷ sm.storage.expected_spec_file };
        expected_spec = some internal;
      } in
      let loaded : IsLoaded m next = record {
        current = l.current;
        is_current = l.is_current;
        has_meta = l.has_meta;
      } in
      Keeps-verdict m e internal next (compare_meta m e)
        (check_loadable-some m e next l.current l.is_current l.has_meta h)
        (Keeps-load_spec m e (compare_meta m e) internal next (compare_meta-loadable m e) h h
          loaded)

  Keeps-same :
      (m e e' : SpecMeta) (next next' : Option SpecManager)
      → next' ≡ next
      → e' ≡ e
      → Keeps m e next
      → Keeps m e' next'
  Keeps-same m e e' next next' h g k = rw (h, g) k

  valid-has_meta :
      (e : SpecMeta) (spec : ProxySpec)
      → is_invalid spec ≡ false
      → spec.meta ≡ some (or_meta e spec.meta)
  unfolding is_invalid
  valid-has_meta e spec h = elim (Option-cases spec.meta) [
    | inl missing ↦ ground (arith, h, missing)
    | inr (own, has) ↦ rw has refl
  ]

  Keeps-recv :
      (m e : SpecMeta) (spec : ProxySpec) (sm : SpecManager)
      → IsLoaded m sm
      → meta_of sm.expected_spec ≡ some e
      → Keeps m (valid_meta e spec) (recv decode no_failures spec sm)
  unfolding recv
  Keeps-recv m e spec sm l x = elim (Bool-cases (is_invalid spec)) [
    | inl dropped ↦ rw (dropped, recv, valid_meta) (sm, refl, l, x)
    | inr valid ↦
        rw (valid, recv, valid_meta)
          (Keeps-update_spec m (or_meta e spec.meta) spec sm (valid-has_meta e spec valid) l)
  ]

  Keeps-recv_all :
      (m e : SpecMeta) (specs : List ProxySpec) (sm : SpecManager)
      → IsLoaded m sm
      → meta_of sm.expected_spec ≡ some e
      → Keeps m (last_meta e specs) (recv_all specs sm)
  Keeps-recv_all m e [] sm l x = (sm, refl, l, x)
  Keeps-recv_all m e (spec ∷ specs) sm l x =
      let (next, is_next, l', x') = Keeps-recv m e spec sm l x in
      Keeps-same m (last_meta e (spec ∷ specs)) (last_meta e (spec ∷ specs)) (recv_all specs next)
        (recv_all (spec ∷ specs) sm) (ap (λ n. n >>= λ k. recv_all specs k) is_next) refl
        (Keeps-recv_all m (valid_meta e spec) specs next l' x')

  abbrev status_of : SpecMeta → SpecMeta → SpecManager → ProxyStatus
  status_of m e sm = record {
    meta_state = record {
      expected_hash = e.hash;
      current_hash = m.hash;
      hash_unload_reason = sm.unload_reason;
    };
    leader_election_state = sm.leader_election_state;
  }

  get_status-some :
      (m e : SpecMeta) (sm : SpecManager) (c : InternalSpec)
      → sm.current_spec ≡ some c
      → c.proxy_spec.meta ≡ some m
      → meta_of sm.expected_spec ≡ some e
      → get_status sm ≡ some (some (status_of m e sm))
  unfolding get_status
  get_status-some m e sm c x y z = rw (x, y, z) refl

  -- A proxy that has loaded a specification keeps its shard and hash, whatever specifications arrive
  -- while the files can be written: after them, the status tells the hash of the loaded one as the
  -- current hash, and that of the last valid one as the expected hash.
  pub get_status-recv_all :
      (m e : SpecMeta) (specs : List ProxySpec) (sm : SpecManager)
      → IsLoaded m sm
      → meta_of sm.expected_spec ≡ some e
      → (last : SpecManager) × (status : ProxyStatus) × (recv_all specs sm ≡ some last)
        × IsLoaded m last
        × (get_status last ≡ some (some status))
        × (status.meta_state.current_hash ≡ m.hash)
        × (status.meta_state.expected_hash ≡ (last_meta e specs).hash)
  get_status-recv_all m e specs sm l x =
      let (last, runs, k, y) = Keeps-recv_all m e specs sm l x in
      (
        last,
        status_of m (last_meta e specs) last,
        runs,
        k,
        get_status-some m (last_meta e specs) last k.current k.is_current k.has_meta y,
        refl,
        refl,
      )
