-- ===== src/Loader/Info.antt =====
-- What the loader knows of a module (src/interface/module_info.h).
use buildat.Base.{Option, some, ◌≡◌, List, Bool}
use buildat.Base.Keys.{Bytes}

pub record ModuleDependency : Type 0 where
  pub module_name : Bytes
  pub optional : Bool

pub record ModuleMeta : Type 0 where
  pub disable_cpp : Bool
  pub cxxflags : Bytes
  pub ldflags : Bytes
  pub cxxflags_linux : Bytes
  pub ldflags_linux : Bytes
  pub cxxflags_windows : Bytes
  pub ldflags_windows : Bytes
  pub dependencies : List ModuleDependency
  pub reverse_dependencies : List ModuleDependency

pub record ModuleInfo : Type 0 where
  pub name : Bytes
  pub path : Bytes
  pub meta : ModuleMeta

-- What ResolveState uses of the loader: get_module_info(), whose answer carries the name that was
-- asked for. `none` is a null pointer.
pub record Infos : Type 0 where
  pub get_module_info : Bytes → Option ModuleInfo
  pub named : (n : Bytes) (i : ModuleInfo) → get_module_info n ≡ some i → i.name ≡ n
