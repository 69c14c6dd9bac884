-- ===== src/Server/State.antt =====
-- CState without its threads (src/server/state.cpp). The mutexes make each operation a step. A
-- container is held by the map of the loaded modules only: a weak pointer to it is its number, and
-- it leads to nothing once the module was unloaded.
use buildat.Base.{
  ℕ, suc, ◌+◌, Option, none, some, List, [], ◌∷◌, ◌++◌, Bool, true, false, not, ◌&&◌, ◌||◌,
  if◌then◌else◌, ◌==◌, leb, length, get_or, set, resize, map,
}
use buildat.Base.Keys.{Bytes, bytes_eq, bytes_eq_instance, nat_eq}
use buildat.Base.Map.{Map, lookup, insert, erase}
use buildat.Base.Sets as Sets
use buildat.Packet.Registry.{bytes}
use buildat.Loader.Info.{ModuleInfo}

-- An event: its type, and its parameter as bytes.
pub record Event : Type 0 where
  pub type : ℕ
  pub parameter : Bytes

-- `has_module` is false for a module without C++ code.
pub record ModuleContainer : Type 0 where
  pub info : ModuleInfo
  pub has_module : Bool
  pub event_queue : List Event

-- The request to shut down.
pub record Shutdown : Type 0 where
  pub requested : Bool
  pub exit_status : ℕ
  pub reason : Bytes

pub record State : Type 0 where
  pub shutdown_state : Shutdown
  pub module_info : Map Bytes ModuleInfo
  pub modules : Map Bytes ℕ
  pub containers : Map ℕ ModuleContainer
  pub next_container : ℕ
  pub unloads_requested : List Bytes
  pub reloads_requested : List ModuleInfo
  pub module_load_order : List Bytes
  pub event_subs : List (List ℕ)
  pub tmp_data : Map Bytes Bytes
  pub file_paths : Map Bytes Bytes

abbrev pub initial : State
initial = record {
  shutdown_state = record { requested = false; exit_status = 0; reason = [] };
  module_info = [];
  modules = [];
  containers = [];
  next_container = 0;
  unloads_requested = [];
  reloads_requested = [];
  module_load_order = [];
  event_subs = [];
  tmp_data = [];
  file_paths = [];
}

unfoldable pub shutdown : ℕ → Bytes → State → State
shutdown exit_status reason s =
    if s.shutdown_state.requested && (exit_status == 0) then s else record s {
      shutdown_state = record { requested = true; exit_status = exit_status; reason = reason };
    }

-- The status and the reason are given if a shutdown was requested.
unfoldable pub is_shutdown_requested : State → Option (ℕ × Bytes)
is_shutdown_requested s =
    if s.shutdown_state.requested
    then some (s.shutdown_state.exit_status, s.shutdown_state.reason)
    else none

-- push_event() for each subscriber that is still there.
unfoldable pub push_events : Event → List ℕ → Map ℕ ModuleContainer → Map ℕ ModuleContainer
push_events event [] containers = containers
push_events event (id ∷ ids) containers = elim (lookup id containers) [
  | none ↦ push_events event ids containers
  | some mc ↦
      push_events event ids
        (insert id (record mc { event_queue = mc.event_queue ++ event ∷ [] }) containers)
]

-- emit_event(event, false).
unfoldable pub emit_event : Event → State → State
emit_event event s = if leb (length s.event_subs) event.type then s else record s {
  containers = push_events event (get_or s.event_subs event.type []) s.containers;
}

-- A number in a list.
unfoldable pub is_in : ℕ → List ℕ → Bool
is_in id [] = false
is_in id (i ∷ is) = (i == id) || is_in id is

-- sub_event() by the module of a container. A container that is not there is not known.
unfoldable pub sub_event : ℕ → ℕ → State → State
sub_event id type s =
    let subs =
      if leb (length s.event_subs) (type + 1)
      then resize (type + 1) [] s.event_subs
      else s.event_subs in
    elim (lookup id s.containers) [
      | none ↦ s
      | some _ ↦
          if is_in id (get_or subs type [])
          then record s { event_subs = subs }
          else record s { event_subs = set subs type (get_or subs type [] ++ id ∷ []) }
    ]

-- A new container is entered, in load_module().
unfoldable pub enter_module : ModuleInfo → Bool → State → State
enter_module info has_module s = record s {
  modules = insert info.name s.next_container s.modules;
  containers =
      insert s.next_container (record { info = info; has_module = has_module; event_queue = [] })
        s.containers;
  next_container = suc s.next_container;
  module_load_order = s.module_load_order ++ info.name ∷ [];
}

-- Event::t() and build_module_u(): the type of an event's name, and whether a module's code gave
-- an instance. init() of the module is the module's own code.
module _ (event_type : Bytes → ℕ) (builds : ModuleInfo → Bool) where
  unfoldable pub load_module : ModuleInfo → State → State × Bool
  load_module info s =
      let s1 : State = record s { module_info = insert info.name info s.module_info } in
      elim (lookup info.name s.modules) [
        | some _ ↦ (s, false)
        | none ↦ if not info.meta.disable_cpp && not (builds info) then (s1, false) else (
          emit_event
              (record { type = event_type (bytes "core:module_loaded"); parameter = info.name })
              (enter_module info (not info.meta.disable_cpp) s1),
          true,
        )
      ]

  -- The subscriptions of a container are dropped.
  unfoldable pub without : ℕ → List ℕ → List ℕ
  without id [] = []
  without id (i ∷ is) = let rest = without id is in if i == id then rest else i ∷ rest

  unfoldable pub unload_module_u : Bytes → State → State
  unload_module_u name s = elim (lookup name s.modules) [
    | none ↦ s
    | some id ↦
        emit_event (record { type = event_type (bytes "core:module_unloaded"); parameter = name })
          (record s {
            event_subs = map (without id) s.event_subs;
            modules = erase name s.modules;
            containers = erase id s.containers;
          })
  ]

-- unload_module() of the interface: the request.
unfoldable pub unload_module : Bytes → State → State
unload_module name s = elim (lookup name s.modules) [
  | none ↦ s
  | some _ ↦ record s { unloads_requested = Sets.insert name s.unloads_requested }
]

unfoldable pub request : ModuleInfo → List ModuleInfo → List ModuleInfo
request info [] = info ∷ []
request info (info0 ∷ infos) =
    let rest = request info infos in
    if bytes_eq info0.name info.name then info ∷ infos else info0 ∷ rest

unfoldable pub reload_module : ModuleInfo → State → State
reload_module info s = record s { reloads_requested = request info s.reloads_requested }

-- reload_module() by name.
unfoldable pub reload_module_by_name : Bytes → State → State
reload_module_by_name name s = elim (lookup name s.module_info) [
  | none ↦ s
  | some info ↦ reload_module info s
]

-- `none` is the exception ModuleNotFoundException.
unfoldable pub get_module_path : Bytes → State → Option Bytes
get_module_path name s = elim (lookup name s.modules) [
  | none ↦ none
  | some id ↦ elim (lookup id s.containers) [ none ↦ none | some mc ↦ some mc.info.path ]
]

unfoldable pub has_module : Bytes → State → Bool
has_module name s = elim (lookup name s.modules) [ none ↦ false | some _ ↦ true ]

unfoldable pub get_loaded_modules : State → List Bytes
get_loaded_modules s = map (λ (m : Bytes × ℕ). m.0) s.modules

-- The containers of the names in the list, the last name first.
unfoldable pub in_unload_order : List Bytes → Map Bytes ℕ → List ℕ
in_unload_order [] modules = []
in_unload_order (name ∷ names) modules =
    let later = in_unload_order names modules in
    elim (lookup name modules) [ none ↦ later | some id ↦ later ++ id ∷ [] ]

unfoldable pub get_modules_in_unload_order : State → List ℕ
get_modules_in_unload_order s = in_unload_order s.module_load_order s.modules

unfoldable pub tmp_store_data : Bytes → Bytes → State → State
tmp_store_data name data_ s = record s { tmp_data = insert name data_ s.tmp_data }

unfoldable pub tmp_restore_data : Bytes → State → Bytes × State
tmp_restore_data name s = (
  elim (lookup name s.tmp_data) [ none ↦ [] | some data_ ↦ data_ ],
  record s { tmp_data = erase name s.tmp_data },
)

unfoldable pub add_file_path : Bytes → Bytes → State → State
add_file_path name path s = record s { file_paths = insert name path s.file_paths }

unfoldable pub get_file_path : Bytes → State → Bytes
get_file_path name s = elim (lookup name s.file_paths) [ none ↦ [] | some path ↦ path ]
