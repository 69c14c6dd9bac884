-- ===== src/Loader/Examples.antt =====
-- Tests of the dependency resolution, and its theorems at concrete modules.
use buildat.Base.{
  ◌≡◌, ◌≢◌, refl, Option, none, some, List, [], ◌∷◌, Bool, true, false, if◌then◌else◌, arith,
}
use buildat.Base.Keys.{Bytes, bytes_eq, bytes_eq_iff, bytes_eq_instance}
use buildat.Base.Map.{lookup}
use buildat.Base.Sets.{contains, insert}
use buildat.Packet.Registry.{bytes}
use buildat.Loader.Info.{ModuleDependency, ModuleInfo, ModuleMeta, Infos}
use buildat.Loader.State.{ResolveState, resolve_state, reverse_of, push_reverse, set_error}
use buildat.Loader.Require.{require_dependencies, require_reverse, require_module, require_modules}
use buildat.Loader.Step.{load_module, deps_promised, pick, step, steps, report, step_through}
use buildat.Loader.Order.{IsOrdered}
use buildat.Loader.Complete.{IsLoadOrder, step_through-IsLoadOrder, step_through-total}
use buildat.Loader.Optional.{second_loop_idle}
use buildat.Loader.Closure.{Extends, Requires, require_modules-Extends}
use buildat.Loader.Fuel.{require_modules-total}

abbrev main_name : Bytes
main_name = bytes "main"

abbrev network_name : Bytes
network_name = bytes "network"

abbrev meta_of : List ModuleDependency → ModuleMeta
meta_of ds = record {
  disable_cpp = false;
  cxxflags = [];
  ldflags = [];
  cxxflags_linux = [];
  ldflags_linux = [];
  cxxflags_windows = [];
  ldflags_windows = [];
  dependencies = ds;
  reverse_dependencies = [];
}

-- `main` depends on `network`.
abbrev main_info : Bool → ModuleInfo
main_info optional = record {
  name = main_name;
  path = [];
  meta = meta_of (record { module_name = network_name; optional = optional } ∷ []);
}

abbrev network_info : ModuleInfo
network_info = record { name = network_name; path = []; meta = meta_of [] }

abbrev info_of : Bool → Bytes → Option ModuleInfo
info_of optional n =
    if bytes_eq n main_name
    then some (main_info optional)
    else if bytes_eq n network_name
    then some network_info
    else none

info_of-named : (o : Bool) (n : Bytes) (i : ModuleInfo) → info_of o n ≡ some i → i.name ≡ n
info_of-named o n i h = ground (arith, bytes_eq_iff n main_name, bytes_eq_iff n network_name)

abbrev game : Bool → Infos
game optional = record { get_module_info = info_of optional; named = info_of-named optional }

abbrev both : List Bytes
both = main_name ∷ network_name ∷ []

abbrev collected : ResolveState
collected = record resolve_state { required_modules = both }

abbrev resolved : ResolveState
resolved = record collected {
  module_load_order = network_name ∷ main_name ∷ [];
  promised_modules = both;
}

main_needs_network :
    require_modules (game false) 3 (main_name ∷ []) resolve_state ≡ some (true, collected)
unfolding require_modules require_module require_dependencies require_reverse push_reverse set_error
    contains insert
main_needs_network = refl

network_first : step_through (game false) collected ≡ some (true, resolved)
unfolding step_through steps step pick deps_promised load_module report set_error contains insert
    reverse_of lookup
network_first = refl

-- With an optional dependency `main` comes first.
main_first :
    step_through (game true) collected ≡ some (true, record resolved { module_load_order = both })
unfolding step_through steps step pick deps_promised load_module report set_error contains insert
    reverse_of lookup
main_first = refl

collected-IsOrdered : IsOrdered (game false) collected
unfolding contains
collected-IsOrdered = record { same = λ n. refl; ordered = tt; required = λ n h. absurd (cc) }

step_through-IsLoadOrder_example : IsLoadOrder (game false) collected resolved
step_through-IsLoadOrder_example =
    step_through-IsLoadOrder (game false) collected resolved collected-IsOrdered network_first

step_through-total_example : step_through (game true) collected ≢ none
step_through-total_example = step_through-total (game true) collected

first_loop :
    steps (game true) 3 true collected ≡ some (record resolved { module_load_order = both })
unfolding steps step pick deps_promised load_module set_error contains insert reverse_of lookup
first_loop = refl

second_loop_idle_example :
    steps (game true) 1 false (record resolved { module_load_order = both })
    ≡ some (record resolved { module_load_order = both })
second_loop_idle_example =
    second_loop_idle (game true) 3 0 collected (record resolved { module_load_order = both })
      first_loop refl

require_modules-Extends_example :
    Extends (game false) resolve_state collected
    × ((n : Bytes) → contains (main_name ∷ []) n ≡ true → Requires collected n)
require_modules-Extends_example =
    require_modules-Extends (game false) 3 (main_name ∷ []) resolve_state collected
      main_needs_network

both_covers : (n : Bytes) (i : ModuleInfo) → info_of false n ≡ some i → contains both n ≡ true
unfolding contains
both_covers n i h = ground (
  arith,
  bytes_eq_iff n main_name,
  bytes_eq_iff n network_name,
  bytes_eq_iff main_name n,
  bytes_eq_iff network_name n,
)

require_modules-total_example : require_modules (game false) 3 (main_name ∷ []) resolve_state ≢ none
unfolding contains
require_modules-total_example =
    require_modules-total (game false) both both_covers 3 (main_name ∷ []) resolve_state
      (omega arith)
