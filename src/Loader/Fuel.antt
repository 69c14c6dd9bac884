-- ===== src/Loader/Fuel.antt =====
-- How deep require_module() calls itself.
use buildat.Base.{
  ℕ, zero, suc, ◌≤◌, ◌<◌, ◌≡◌, ◌≢◌, inl, inr, none, some, List, [], ◌∷◌, Bool, true, false,
  if◌then◌else◌, arith, Bool-cases, Option-cases,
}
use buildat.Base.Keys.{Bytes}
use buildat.Base.Sets.{contains, insert, contains-insert}
use buildat.Loader.Info.{ModuleDependency, ModuleInfo, Infos}
use buildat.Loader.State.{ResolveState, set_error, push_reverse, no_info, adding_required}
use buildat.Loader.Require.{
  Outcome, and_if, require_dependencies, require_reverse, require_all, require_module,
  require_modules,
}
use buildat.Loader.Progress.{waiting, waiting-insert_lt, waiting_mono}
use buildat.Loader.Closure.{Grows}

-- `all` holds every module that there is.
module _ (l : Infos) (all : List Bytes)
    (covers : (n : Bytes) (i : ModuleInfo)
      → l.get_module_info n ≡ some i
      → contains all n ≡ true) where
  -- The modules that are not required yet.
  abbrev pub unrequired : ResolveState → ℕ
  unrequired s = waiting s.required_modules all

  -- The call returns, and what was required still is.
  abbrev Comes : ResolveState → Outcome → Type 0
  Comes s none = ⊥
  Comes s (some (ok, s')) = Grows s s'

  abbrev IsTotal : ℕ → (Bytes → Bool → ResolveState → Outcome) → Type 0
  IsTotal bound call =
      (name : Bytes) (optional : Bool) (s : ResolveState)
      → unrequired s < bound
      → Comes s (call name optional s)

  unrequired-Grows : (s t : ResolveState) → Grows s t → unrequired t ≤ unrequired s
  unrequired-Grows s t g = waiting_mono s.required_modules t.required_modules all g

  Comes-trans : (s t : ResolveState) (r : Outcome) → Grows s t → Comes t r → Comes s r
  Comes-trans s t none g c = c
  Comes-trans s t (some (ok, u)) g c = λ n e. c n (g n e)

  and_if-Comes :
      (bound : ℕ) (s : ResolveState) (r : Outcome) (k : ResolveState → Outcome)
      → unrequired s < bound
      → Comes s r
      → ((t : ResolveState) → unrequired t < bound → Comes t (k t))
      → Comes s (and_if r k)
  and_if-Comes bound s none k h c f = c
  and_if-Comes bound s (some (false, t)) k h c f = c
  and_if-Comes bound s (some (true, t)) k h c f =
      Comes-trans s t (k t) c (f t (omega (arith, unrequired-Grows s t c)))

  require_dependencies-Comes :
      (bound : ℕ) (call : Bytes → Bool → ResolveState → Outcome) (ds : List ModuleDependency)
      (s : ResolveState)
      → IsTotal bound call
      → unrequired s < bound
      → Comes s (require_dependencies call ds s)
  unfolding require_dependencies
  require_dependencies-Comes bound call [] s c h = λ n e. e
  require_dependencies-Comes bound call (d ∷ ds) s c h =
      and_if-Comes bound s (call d.module_name d.optional s) _ h (c d.module_name d.optional s h)
        (λ t ht. require_dependencies-Comes bound call ds t c ht)

  require_reverse-Comes :
      (bound : ℕ) (call : Bytes → Bool → ResolveState → Outcome) (name : Bytes)
      (ds : List ModuleDependency) (s : ResolveState)
      → IsTotal bound call
      → unrequired s < bound
      → Comes s (require_reverse call name ds s)
  unfolding require_reverse push_reverse
  require_reverse-Comes bound call name [] s c h = λ n e. e
  require_reverse-Comes bound call name (d ∷ ds) s c h =
      let stored = push_reverse d.module_name (record d { module_name = name }) s in
      elim (Bool-cases (contains s.promised_modules d.module_name)) [
        | inl skip ↦ rw (skip) (require_reverse-Comes bound call name ds s c h)
        | inr new ↦ rw (new) (
            and_if-Comes bound stored (call d.module_name d.optional stored) _ h
              (c d.module_name d.optional stored h)
              (λ t ht. require_reverse-Comes bound call name ds t c ht))
      ]

  unknown-Comes :
      (name : Bytes) (optional : Bool) (s : ResolveState)
      → Comes s (if optional then some (true, s) else some (set_error (no_info name) s))
  unfolding set_error
  unknown-Comes name true s = λ n e. e
  unknown-Comes name false s = λ n e. e

  entered_rest :
      (name : Bytes) (s : ResolveState)
      → contains all name ≡ true
      → contains s.required_modules name ≡ false
      → unrequired (record s { required_modules = insert name s.required_modules }) < unrequired s
  entered_rest name s a new = waiting-insert_lt name s.required_modules all a new

  require_module_known :
      (fuel : ℕ) (name : Bytes) (optional : Bool) (s : ResolveState) (info : ModuleInfo)
      → contains s.required_modules name ≡ false
      → l.get_module_info name ≡ some info
      → require_module l (suc fuel) name optional s
        ≡ require_all l
            (require_module l fuel)
            name
            info
            (record s { required_modules = insert name s.required_modules })
  unfolding require_module
  require_module_known fuel name optional s info new e = rw (e, new, require_module)

  require_module-Comes : (fuel : ℕ) → IsTotal fuel (require_module l fuel)
  require_module-Comes zero name optional s h = absurd (omega arith)
  require_module-Comes (suc fuel) name optional s h =
      elim (Bool-cases (contains s.required_modules name)) [
        | inl old ↦ unfold require_module in rw (old) (λ n e. e)
        | inr new ↦ elim (Option-cases (l.get_module_info name)) [
          | inl e ↦ unfold require_module set_error in rw (new, e) (unknown-Comes name optional s)
          | inr (info, e) ↦
              let s1 : ResolveState = record s {
                required_modules = insert name s.required_modules;
              } in
              let call = require_module l fuel in
              let ih = require_module-Comes fuel in
              let enough : unrequired s1 < fuel =
                omega (arith, entered_rest name s (covers name info e) new) in
              let loops =
                and_if-Comes fuel s1 (require_dependencies call info.meta.dependencies s1)
                  (require_reverse call name info.meta.reverse_dependencies) enough
                  (require_dependencies-Comes fuel call info.meta.dependencies s1 ih enough)
                  (λ t ht.
                    require_reverse-Comes fuel call name info.meta.reverse_dependencies t ih ht) in
              rw (require_module_known fuel name optional s info new e) (
                Comes-trans s s1 _
                  (λ n r. ground (arith, contains-insert name n s.required_modules)) loops)
        ]
      ]

  require_modules_from :
      (fuel : ℕ) (names : List Bytes) (s : ResolveState) (r : Outcome)
      → unrequired s < fuel
      → Comes s r
      → ((t : ResolveState) → unrequired t < fuel → require_modules l fuel names t ≢ none)
      → elim r [
        | none ↦ none
        | some (ok, t) ↦
            if ok
            then require_modules l fuel names t
            else some (false, record t { error_message = adding_required t.error_message })
      ]
        ≢ none
  require_modules_from fuel names s none h c k = absurd c
  require_modules_from fuel names s (some (true, t)) h c k =
      k t (omega (arith, unrequired-Grows s t c))
  require_modules_from fuel names s (some (false, t)) h c k = λ e. cc

  -- If every module that exists is in the list `all`, and the fuel is more than those of them that
  -- are not required yet, then require_modules() ends: it returns true or false.
  pub require_modules-total :
      (fuel : ℕ) (names : List Bytes) (s : ResolveState)
      → unrequired s < fuel
      → require_modules l fuel names s ≢ none
  unfolding require_modules
  require_modules-total fuel [] s h = λ e. cc
  require_modules-total fuel (name ∷ names) s h =
      require_modules_from fuel names s (require_module l fuel name false s) h
        (require_module-Comes fuel name false s h) (require_modules-total fuel names)
