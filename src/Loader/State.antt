-- ===== src/Loader/State.antt =====
-- The state of ResolveState (builtin/loader/loader.cpp).
use buildat.Base.{none, some, List, [], ◌∷◌, ◌++◌, Bool, true, false}
use buildat.Base.Keys.{Bytes, bytes_eq_instance}
use buildat.Base.Map.{Map, lookup, insert}
use buildat.Loader.Info.{ModuleDependency}

-- m_error_message, before it is put into words.
pub data Message : Type 0 where
  no_errors : Message
  no_info : Bytes → Message
  adding_required : Message → Message
  missing_dependencies : Message

-- The sets are their elements in the order of iteration.
pub record ResolveState : Type 0 where
  pub failed : Bool
  pub error_message : Message
  pub required_modules : List Bytes
  pub module_load_order : List Bytes
  pub promised_modules : List Bytes
  pub reverse_dependencies : Map Bytes (List ModuleDependency)

abbrev pub resolve_state : ResolveState
resolve_state = record {
  failed = false;
  error_message = no_errors;
  required_modules = [];
  module_load_order = [];
  promised_modules = [];
  reverse_dependencies = [];
}

unfoldable pub set_error : Message → ResolveState → Bool × ResolveState
set_error message s = (false, record s { failed = true; error_message = message })

-- `m_reverse_dependencies[name]`
unfoldable pub reverse_of : Bytes → Map Bytes (List ModuleDependency) → List ModuleDependency
reverse_of name m = elim (lookup name m) [ none ↦ [] | some ds ↦ ds ]

-- `m_reverse_dependencies[name].push_back(dep)`
unfoldable pub push_reverse : Bytes → ModuleDependency → ResolveState → ResolveState
push_reverse name dep s = record s {
  reverse_dependencies =
      insert name (reverse_of name s.reverse_dependencies ++ dep ∷ []) s.reverse_dependencies;
}
