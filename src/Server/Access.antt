-- ===== src/Server/Access.antt =====
-- Which module may access which (is_dependency_u() and check_valid_access_u() in
-- src/server/state.cpp).
use buildat.Base.{
  ℕ, zero, suc, ◌<◌, ◌≡◌, ◌≢◌, refl, Option, none, some, List, [], ◌∷◌, Bool, true, false,
  if◌then◌else◌, ◌==◌,
}
use buildat.Base.Keys.{Bytes, bytes_eq, bytes_eq_instance, nat_eq}
use buildat.Base.Map.{lookup, beq-ne}
use buildat.Loader.Info.{ModuleDependency}
use buildat.Server.State.{State, ModuleContainer}

-- The first loop: the dependencies themselves.
unfoldable pub names_dependency : Bytes → List ModuleDependency → Bool
names_dependency name [] = false
names_dependency name (dep ∷ deps) =
    let rest = names_dependency name deps in if bytes_eq dep.module_name name then true else rest

-- The container of a loaded module.
unfoldable pub container_of : Bytes → State → Option ModuleContainer
container_of name s = elim (lookup name s.modules) [
  | none ↦ none
  | some id ↦ lookup id s.containers
]

-- The second loop: `call` is is_dependency_u(). `none`: the calls do not end within the fuel.
unfoldable pub any_dependency :
    (ModuleContainer → Option Bool) → List ModuleDependency → State → Option Bool
any_dependency call [] s = some false
any_dependency call (dep ∷ deps) s =
    let rest = any_dependency call deps s in
    elim (container_of dep.module_name s) [
      | none ↦ rest
      | some mc ↦ elim (call mc) [ none ↦ none | some is ↦ if is then some true else rest ]
    ]

-- The fuel is the depth of the recursion.
unfoldable pub is_dependency_u : ℕ → ModuleContainer → ModuleContainer → State → Option Bool
is_dependency_u zero dependent dependency s = none
is_dependency_u (suc fuel) dependent dependency s =
    if names_dependency dependency.info.name dependent.info.meta.dependencies
    then some true
    else any_dependency (λ mc. is_dependency_u fuel mc dependency s)
        dependent.info.meta.dependencies s

pub data Access : Type 0 where
  valid accessing_itself target_depends_on_caller out_of_fuel : Access

-- `target` and `caller` are the numbers of the containers.
unfoldable pub check_valid_access_u : ℕ → ℕ → ModuleContainer → ℕ → ModuleContainer → State → Access
check_valid_access_u fuel target target_mc caller caller_mc s =
    if caller == target
    then accessing_itself
    else elim (is_dependency_u fuel target_mc caller_mc s) [
      | none ↦ out_of_fuel
      | some is ↦ if is then target_depends_on_caller else valid
    ]

-- An element of a list of dependencies.
pub data Among (dep : ModuleDependency) : List ModuleDependency → Type 0 where
  here : (deps : List ModuleDependency) → Among dep (dep ∷ deps)
  there :
      (d : ModuleDependency) (deps : List ModuleDependency) → Among dep deps → Among dep (d ∷ deps)

-- A module names another as its dependency, or has a loaded dependency that depends on it.
pub data DependsOn (s : State) (dependency : ModuleContainer) : ModuleContainer → Type 0 where
  direct :
      (mc : ModuleContainer)
      → names_dependency dependency.info.name mc.info.meta.dependencies ≡ true
      → DependsOn s dependency mc
  through :
      (mc mc' : ModuleContainer) (dep : ModuleDependency)
      → Among dep mc.info.meta.dependencies
      → container_of dep.module_name s ≡ some mc'
      → DependsOn s dependency mc'
      → DependsOn s dependency mc

-- The dependencies of the loaded modules are not circular: each that is loaded has a lower rank
-- than the module that names it.
pub record IsRanked (rank : Bytes → ℕ) (s : State) : Type 0 where
  pub lower :
      (name : Bytes) (mc mc' : ModuleContainer) (dep : ModuleDependency)
      → container_of name s ≡ some mc
      → Among dep mc.info.meta.dependencies
      → container_of dep.module_name s ≡ some mc'
      → rank dep.module_name < rank name

-- A loaded module whose only dependency is itself: is_dependency_u() for another module calls
-- itself without end, since no depth of calls is enough.
pub is_dependency_u-circular :
    (fuel : ℕ) (mc other : ModuleContainer) (dep : ModuleDependency) (s : State)
    → mc.info.meta.dependencies ≡ dep ∷ []
    → container_of dep.module_name s ≡ some mc
    → dep.module_name ≢ other.info.name
    → is_dependency_u fuel mc other s ≡ none
unfolding is_dependency_u any_dependency names_dependency
is_dependency_u-circular zero mc other dep s deps itself apart = refl
is_dependency_u-circular (suc fuel) mc other dep s deps itself apart =
    let again = is_dependency_u-circular fuel mc other dep s deps itself apart in
    rw (deps, beq-ne dep.module_name other.info.name apart, any_dependency, itself, again) refl
