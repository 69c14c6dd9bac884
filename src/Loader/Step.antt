-- ===== src/Loader/Step.antt =====
-- ResolveState::load_module, step and step_through.
use buildat.Base.{
  ℕ, zero, suc, Option, none, some, List, [], ◌∷◌, ◌++◌, Bool, true, false, not, ◌&&◌, ◌||◌,
  if◌then◌else◌, length,
}
use buildat.Base.Keys.{Bytes}
use buildat.Base.Sets.{contains, insert}
use buildat.Loader.Info.{ModuleDependency, ModuleInfo, Infos}
use buildat.Loader.State.{no_info, missing_dependencies, ResolveState, set_error, reverse_of}

-- `none` is the exception "already promised".
unfoldable pub load_module : Bytes → ResolveState → Option ResolveState
load_module name s =
    if contains s.promised_modules name
    then none
    else some (record s {
      module_load_order = s.module_load_order ++ name ∷ [];
      promised_modules = insert name s.promised_modules;
    })

-- No dependency makes the module wait.
unfoldable pub deps_promised : Bool → List Bytes → List ModuleDependency → Bool
deps_promised follow promised [] = true
deps_promised follow promised (dep ∷ deps) =
    if not (contains promised dep.module_name) && (not dep.optional || not follow)
    then false
    else deps_promised follow promised deps

-- What the loop over the required modules finds.
pub data Pick : Type 0 where
  unknown : Bytes → Pick
  suitable : ModuleInfo → Pick
  nothing : Pick

-- How a call of step() ends.
pub data Step : Type 0 where
  returns : Bool → ResolveState → Step
  throws : Step

module _ (l : Infos) where
  unfoldable pub pick : Bool → ResolveState → List Bytes → Pick
  pick follow s [] = nothing
  pick follow s (name ∷ names) =
      let rest = pick follow s names in
      if contains s.promised_modules name then rest else elim (l.get_module_info name) [
        | none ↦ unknown name
        | some info ↦
            if deps_promised follow s.promised_modules info.meta.dependencies
              && deps_promised follow s.promised_modules (reverse_of name s.reverse_dependencies)
            then suitable info
            else rest
      ]

  unfoldable pub step : Bool → ResolveState → Step
  step follow s = elim (pick follow s s.required_modules) [
    | unknown name ↦ (let (r, s') = set_error (no_info name) s in returns r s')
    | suitable info ↦ elim (load_module info.name s) [ none ↦ throws | some s' ↦ returns true s' ]
    | nothing ↦ returns false s
  ]

  -- `while(step(follow));` with fuel. A round that goes on promises one more of the required
  -- modules.
  unfoldable pub steps : ℕ → Bool → ResolveState → Option ResolveState
  steps zero follow s = none
  steps (suc fuel) follow s = elim (step follow s) [
    | throws ↦ none
    | returns more s' ↦ (let rest = steps fuel follow s' in if more then rest else some s')
  ]

  -- The last loop, over the required modules: those that are not promised.
  unfoldable pub report : List Bytes → ResolveState → Bool × ResolveState
  report [] s = (not s.failed, s)
  report (name ∷ names) s =
      let missing =
        λ (deps : List ModuleDependency). not (deps_promised false s.promised_modules deps) in
      let skip = report names s in
      let go_on =
        λ (b : Bool). report names (if b then (set_error missing_dependencies s).1 else s) in
      if contains s.promised_modules name then skip else elim (l.get_module_info name) [
        | none ↦ set_error (no_info name) s
        | some info ↦
            go_on
              (missing info.meta.dependencies || missing (reverse_of name s.reverse_dependencies))
      ]

  -- The fuel of both loops is one more than the required modules (Loader/Fuel.antt).
  unfoldable pub step_through : ResolveState → Option (Bool × ResolveState)
  step_through s =
      let fuel = suc (length s.required_modules) in
      elim (steps fuel true s) [
        | none ↦ none
        | some s1 ↦ if s1.failed then some (false, s1) else elim (steps fuel false s1) [
          | none ↦ none
          | some s2 ↦ if s2.failed then some (false, s2) else some (report s2.required_modules s2)
        ]
      ]
