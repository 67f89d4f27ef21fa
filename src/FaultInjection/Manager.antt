-- ===== src/FaultInjection/Manager.antt =====
-- The manager of the faults: Sync and what it calls (pkg/proxy/faultinjection/manager.go). `none`
-- is the panic of a nil pointer, behind which the state is left open; the mutex, held through
-- `Sync`, is left out.
use Prim.Native.String
use controller_mesh.Prelude.{
  String, List, [], ◌∷◌, Bool, true, false, Option, none, some, Map, lookup, insert, erase,
  if◌then◌else◌, ◌==◌, colon_join, ◌>>=◌,
}
use controller_mesh.FaultInjection.Config.{
  FaultInjection, HttpFaultInjection, SyncOption, update, delete, check, recover, unknown, Platform,
}
use controller_mesh.FaultInjection.Store.{
  Store, new_fault_injection_store, create_or_update_rule, delete_rule,
}

-- A response and the error beside it.
pub record Reply : Type 0 where
  pub success : Bool
  pub message : String
  pub error : Option String

abbrev pub reply : Bool → String → Reply
reply success message = record { success = success; message = message; error = none }

abbrev text : String → String → String
text a b = String.◌++◌ a b

-- `fmt.Sprintf("illegal config option %s", config.Option)`, as the message and as the error.
abbrev pub illegal : String → Reply
illegal name =
    let message = text "illegal config option " name in
    record { success = false; message = message; error = some message }

module _ (lib : Platform) where
  open lib use {Float, Regexp}

  pub record Manager : Type 0 where
    pub fault_injection_map : Map (FaultInjection Float)
    pub fault_injection_store : Store Float Regexp

  unfoldable pub new_manager : Manager
  unfolding new_fault_injection_store
  new_manager = record {
    fault_injection_map = [];
    fault_injection_store = new_fault_injection_store;
  }

  -- The loop of `unregisterRules`.
  unfoldable pub delete_faults :
      String → List (HttpFaultInjection Float) → Store Float Regexp → Store Float Regexp
  delete_faults fi_name [] s = s
  delete_faults fi_name (f ∷ fs) s =
      delete_faults fi_name fs (delete_rule (colon_join fi_name f.name) s)

  -- The loop of `registerRules`.
  unfoldable pub create_faults :
      String → List (HttpFaultInjection Float) → Store Float Regexp → Option (Store Float Regexp)
  create_faults fi_name [] s = some s
  create_faults fi_name (f ∷ fs) s = do
    s' ← create_or_update_rule lib (colon_join fi_name f.name) f s
    create_faults fi_name fs s'

  unfoldable pub register_rules : FaultInjection Float → Manager → Option Manager
  unfolding create_faults
  register_rules fi m = do
    s ← create_faults fi.name fi.http_fault_injections m.fault_injection_store
    some (record m { fault_injection_store = s })

  unfoldable pub unregister_rules : String → Manager → Manager
  unfolding delete_faults
  unregister_rules fi_name m = elim (lookup fi_name m.fault_injection_map) [
    | none ↦ m
    | some fi ↦ record m {
      fault_injection_store =
          delete_faults fi.name fi.http_fault_injections m.fault_injection_store;
    }
  ]

  unfoldable pub sync_update : FaultInjection Float → Manager → Option (Reply × Manager)
  unfolding register_rules unregister_rules
  sync_update config m = elim (lookup config.name m.fault_injection_map) [
    | some fi ↦
        if config.config_hash == fi.config_hash
        then some
            (reply true (text "faultInjection spec hash not updated, hash " fi.config_hash), m)
        else (do
          let cleared = unregister_rules fi.name m
          m' ← register_rules config (record cleared {
            fault_injection_map = insert config.name config cleared.fault_injection_map;
          })
          some (
            reply true (
                text "faultInjection spec hash updated, old hash "
                  (text fi.config_hash (text ", new " config.config_hash))),
            m',
          ))
    | none ↦ do
      m' ←
          register_rules config
            (record m { fault_injection_map = insert config.name config m.fault_injection_map })
      some (reply true (text "new faultInjection with spec hash " config.config_hash), m')
  ]

  unfoldable pub sync_delete : FaultInjection Float → Manager → Reply × Manager
  unfolding unregister_rules
  sync_delete config m = elim (lookup config.name m.fault_injection_map) [
    | some fi ↦
        let cleared = unregister_rules fi.name m in
        (
          reply true (text "faultInjection config " (text fi.name " success deleted")),
          record cleared { fault_injection_map = erase config.name cleared.fault_injection_map },
        )
    | none ↦ (reply true (text "faultInjection config " (text config.name " already deleted")), m)
  ]

  -- Where the configuration is not found, the message reads the name of a nil pointer.
  unfoldable pub sync_check : FaultInjection Float → Manager → Option Reply
  sync_check config m = elim (lookup config.name m.fault_injection_map) [
    | none ↦ none
    | some fi ↦
        if config.config_hash == fi.config_hash
        then some (reply true "")
        else some (
            reply false (
              text "unequal fault injection " (
                text fi.name
                  (text " hash, old " (text fi.config_hash (text ", new " config.config_hash))))))
  ]

  -- The switch of `Sync`, which has no case for RECOVER.
  unfoldable pub sync_option :
      SyncOption → FaultInjection Float → Manager → Option (Reply × Manager)
  unfolding sync_update sync_delete sync_check
  sync_option update config m = sync_update config m
  sync_option delete config m = some (sync_delete config m)
  sync_option check config m = do r ← sync_check config m; some (r, m)
  sync_option recover config m = some (illegal "RECOVER", m)
  sync_option (unknown name) config m = some (illegal name, m)

  unfoldable pub sync : FaultInjection Float → Manager → Option (Reply × Manager)
  unfolding sync_option
  sync config m = sync_option config.option config m
