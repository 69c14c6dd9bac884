-- ===== src/Loader/Require.antt =====
-- ResolveState::require_module and require_modules. `none` means that the fuel ran out; the fuel
-- is the depth of the calls of require_module by itself.
use buildat.Base.{ℕ, zero, suc, Option, none, some, List, [], ◌∷◌, Bool, true, false, if◌then◌else◌}
use buildat.Base.Keys.{Bytes}
use buildat.Base.Sets.{contains, insert}
use buildat.Loader.Info.{ModuleDependency, ModuleInfo, Infos}
use buildat.Loader.State.{no_info, adding_required, ResolveState, set_error, push_reverse}

abbrev pub Outcome : Type 0
Outcome = Option (Bool × ResolveState)

-- `if(!require_module(…)) return false;`
abbrev pub and_if : Outcome → (ResolveState → Outcome) → Outcome
and_if r k = elim r [ none ↦ none | some (ok, s) ↦ if ok then k s else some (false, s) ]

-- The loop over the dependencies. `call` is require_module().
unfoldable pub require_dependencies :
    (Bytes → Bool → ResolveState → Outcome) → List ModuleDependency → ResolveState → Outcome
require_dependencies call [] s = some (true, s)
require_dependencies call (dep ∷ deps) s =
    and_if (call dep.module_name dep.optional s) (λ s'. require_dependencies call deps s')

-- The loop over the reverse dependencies of `name`.
unfoldable pub require_reverse :
    (Bytes → Bool → ResolveState → Outcome) → Bytes → List ModuleDependency → ResolveState → Outcome
require_reverse call name [] s = some (true, s)
require_reverse call name (dep ∷ deps) s =
    let ignored = require_reverse call name deps s in
    let stored = push_reverse dep.module_name (record dep { module_name = name }) s in
    if contains s.promised_modules dep.module_name
    then ignored
    else and_if (call dep.module_name dep.optional stored) (λ s'. require_reverse call name deps s')

module _ (l : Infos) where
  -- Both loops of require_module, once the module is required.
  abbrev pub require_all :
      (Bytes → Bool → ResolveState → Outcome) → Bytes → ModuleInfo → ResolveState → Outcome
  require_all call name info s =
      and_if (require_dependencies call info.meta.dependencies s)
        (require_reverse call name info.meta.reverse_dependencies)

  unfoldable pub require_module : ℕ → Bytes → Bool → ResolveState → Outcome
  require_module zero name optional s = none
  require_module (suc fuel) name optional s =
      if contains s.required_modules name then some (true, s) else elim (l.get_module_info name) [
        | none ↦ if optional then some (true, s) else some (set_error (no_info name) s)
        | some info ↦
            require_all (require_module fuel) name info
              (record s { required_modules = insert name s.required_modules })
      ]

  unfoldable pub require_modules : ℕ → List Bytes → ResolveState → Outcome
  require_modules fuel [] s = some (true, s)
  require_modules fuel (name ∷ names) s =
      let rest = λ (s' : ResolveState). require_modules fuel names s' in
      elim (require_module fuel name false s) [
        | none ↦ none
        | some (ok, s') ↦
            if ok
            then rest s'
            else some (false, record s' { error_message = adding_required s'.error_message })
      ]
