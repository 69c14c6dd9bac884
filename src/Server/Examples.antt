-- ===== src/Server/Examples.antt =====
-- The theorems on the server's core at concrete inputs.
use buildat.Base.{
  ℕ, zero, suc, ◌+◌, ◌^◌, ◌<◌, ◌≡◌, ◌≢◌, refl, Option, none, some, List, [], ◌∷◌, Bool, true, false,
  arith, if◌then◌else◌, ◌==◌, not,
}
use buildat.Base.Keys.{Bytes, bytes_eq, bytes_eq_instance, nat_eq}
use buildat.Base.Map.{Map, lookup, insert}
use buildat.Packet.Registry.{bytes}
use buildat.Loader.Info.{ModuleInfo, ModuleMeta, ModuleDependency}
use buildat.Server.EventTypes.{event_registry, type_of, IsRegistry, Typed, type_of-Typed}
use buildat.Server.State.{
  ModuleContainer, State, initial, push_events, emit_event, is_in, enter_module, load_module,
  unload_module_u, without, get_modules_in_unload_order, in_unload_order, tmp_store_data,
  tmp_restore_data,
}
use buildat.Server.Access.{container_of, is_dependency_u, is_dependency_u-circular}
use buildat.Server.Subscriptions.{subs_of, times_in, notified, unload_module_u-is_in}
use buildat.Server.Data.{tmp_store_data-tmp_restore_data}

event_registry-IsRegistry : IsRegistry event_registry
unfolding event_registry lookup
event_registry-IsRegistry = record { below = λ n t e. absurd cc; apart = λ n m t e e'. absurd cc }

room : event_registry.next_type + 1 < 2 ^ 64
unfolding event_registry
room = omega arith

type_of-Typed_example :
    let (t, r') = type_of (bytes "core:start") event_registry in
    Typed (bytes "core:start") event_registry r' t × (type_of (bytes "core:start") r' ≡ (t, r'))
type_of-Typed_example =
    type_of-Typed (bytes "core:start") event_registry event_registry-IsRegistry room

abbrev plain : ModuleMeta
plain = record {
  disable_cpp = false;
  cxxflags = [];
  ldflags = [];
  cxxflags_linux = [];
  ldflags_linux = [];
  cxxflags_windows = [];
  ldflags_windows = [];
  dependencies = [];
  reverse_dependencies = [];
}

abbrev info_of : Bytes → List ModuleDependency → ModuleInfo
info_of name deps = record { name = name; path = []; meta = record plain { dependencies = deps } }

abbrev container : Bytes → List ModuleDependency → ModuleContainer
container name deps = record { info = info_of name deps; has_module = true; event_queue = [] }

-- The module "b" depends on "a".
abbrev on_a : List ModuleDependency
on_a = record { module_name = bytes "a"; optional = false } ∷ []

-- Both are loaded.
abbrev two_loaded : State
two_loaded = record initial {
  modules = (bytes "a", 0) ∷ (bytes "b", 1) ∷ [];
  containers = (0, container (bytes "a") []) ∷ (1, container (bytes "b") on_a) ∷ [];
}

abbrev rank : Bytes → ℕ
rank name = if bytes_eq name (bytes "b") then 1 else 0

-- The module "a" is loaded and names itself as its dependency.
abbrev circular : State
circular = record initial {
  modules = (bytes "a", 0) ∷ [];
  containers = (0, container (bytes "a") on_a) ∷ [];
}

itself : container_of (bytes "a") circular ≡ some (container (bytes "a") on_a)
unfolding container_of lookup
itself = refl

is_dependency_u-circular_example :
    is_dependency_u 5 (container (bytes "a") on_a) (container (bytes "b") []) circular ≡ none
is_dependency_u-circular_example =
    is_dependency_u-circular 5 (container (bytes "a") on_a) (container (bytes "b") [])
      (record { module_name = bytes "a"; optional = false }) circular refl itself
      (λ e. ground arith)

abbrev event_type : Bytes → ℕ
event_type name = 0

abbrev builds : ModuleInfo → Bool
builds info = true

-- The modules "a" and "b" are loaded, and "b" is subscribed to the type 2.
abbrev subscribed : State
subscribed = record initial {
  modules = (bytes "a", 0) ∷ (bytes "b", 1) ∷ [];
  containers = (0, container (bytes "a") []) ∷ (1, container (bytes "b") []) ∷ [];
  event_subs = [] ∷ [] ∷ (0 ∷ 1 ∷ []) ∷ [];
}

b_loaded : lookup (bytes "b") subscribed.modules ≡ some 1
unfolding lookup
b_loaded = refl

unload_module_u-is_in_example :
    let s' = unload_module_u event_type builds (bytes "b") subscribed in
    ((type j : ℕ)
      → is_in j (subs_of type s') ≡ (if 1 == j then false else is_in j (subs_of type subscribed)))
    × ((n : Bytes)
        → lookup n s'.modules
          ≡ (if bytes_eq (bytes "b") n then none else lookup n subscribed.modules))
    × (lookup 1 s'.containers ≡ none)
    × ((j : ℕ)
        → lookup j s'.containers ≡ (
            if 1 == j
            then none
            else notified
                (record { type = event_type (bytes "core:module_unloaded"); parameter = bytes "b" })
                (times_in j (subs_of (event_type (bytes "core:module_unloaded")) subscribed))
                (lookup j subscribed.containers)))
    × (s' ≡ record subscribed {
      event_subs = s'.event_subs;
      modules = s'.modules;
      containers = s'.containers;
    })
unload_module_u-is_in_example =
    unload_module_u-is_in event_type builds (bytes "b") 1 subscribed b_loaded

tmp_store_data-tmp_restore_data_example :
    let restored = tmp_restore_data (bytes "x") (tmp_store_data (bytes "x") (1 ∷ 2 ∷ []) initial) in
    (restored.0 ≡ 1 ∷ 2 ∷ [])
    × ((tmp_restore_data (bytes "x") restored.1).0 ≡ [])
    × ((other : Bytes)
        → other ≢ bytes "x"
        → (tmp_restore_data other restored.1).0 ≡ (tmp_restore_data other initial).0)
tmp_store_data-tmp_restore_data_example =
    tmp_store_data-tmp_restore_data (bytes "x") (1 ∷ 2 ∷ []) initial

-- A module that is loaded, unloaded and loaded again is twice in the order of unloading.
reloaded : State
reloaded =
    let info = record (info_of (bytes "a") []) { meta = plain } in
    let once = (load_module event_type builds info initial).0 in
    (load_module event_type builds info (unload_module_u event_type builds (bytes "a") once)).0

reloaded_twice : get_modules_in_unload_order reloaded ≡ 1 ∷ 1 ∷ []
unfolding reloaded load_module emit_event enter_module unload_module_u without push_events lookup
    insert buildat.Base.Map.erase get_modules_in_unload_order in_unload_order
reloaded_twice = refl
