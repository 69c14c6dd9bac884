-- ===== src/Loader/Progress.antt =====
-- What one call of step() does, and how long `while(step(…));` runs.
use buildat.Base.{
  ℕ, zero, suc, ◌+◌, ◌≤◌, ◌<◌, ◌≡◌, ◌≢◌, refl, sym, ap, ◌∙◌, ◌⊎◌, inl, inr, none, some, List, [],
  ◌∷◌, ◌++◌, Bool, true, false, if◌then◌else◌, length, arith, some_injective,
}
use mathlib.Core.Path.{subst}
use buildat.Base.Keys.{Bytes, bytes_eq_iff}
use buildat.Base.Sets.{contains, insert, contains-insert, contains-append}
use buildat.Loader.Info.{ModuleInfo, Infos}
use buildat.Loader.State.{ResolveState, set_error, reverse_of, no_info}
use buildat.Loader.Step.{load_module, Pick, unknown, suitable, nothing, pick, returns, step, steps}
use buildat.Loader.Order.{
  deps_promised-Met, IsReady, Ordered-append, IsOrdered, IsPick, pick-IsPick,
}

-- The state after a module was marked to be loaded.
abbrev pub promoted : Bytes → ResolveState → ResolveState
promoted name s = record s {
  module_load_order = s.module_load_order ++ name ∷ [];
  promised_modules = insert name s.promised_modules;
}

Pick-cases :
    (p : Pick)
    → ((n : Bytes) × (p ≡ unknown n)) ⊎ ((i : ModuleInfo) × (p ≡ suitable i)) ⊎ (p ≡ nothing)
Pick-cases (unknown n) = inl (n, refl)
Pick-cases (suitable i) = inr (inl (i, refl))
Pick-cases nothing = inr (inr refl)

-- How many of the names are not promised.
abbrev pub waiting : List Bytes → List Bytes → ℕ
waiting promised [] = 0
waiting promised (n ∷ ns) = (if contains promised n then 0 else 1) + waiting promised ns

pub waiting-le : (promised ns : List Bytes) → waiting promised ns ≤ length ns
waiting-le promised [] = omega arith
waiting-le promised (n ∷ ns) = ground (arith, waiting-le promised ns)

waiting-insert_le :
    (name : Bytes) (promised ns : List Bytes)
    → waiting (insert name promised) ns ≤ waiting promised ns
waiting-insert_le name promised [] = omega arith
waiting-insert_le name promised (n ∷ ns) =
    ground (arith, contains-insert name n promised, waiting-insert_le name promised ns)

pub waiting-insert_lt :
    (name : Bytes) (promised ns : List Bytes)
    → contains ns name ≡ true
    → contains promised name ≡ false
    → waiting (insert name promised) ns < waiting promised ns
unfolding contains
waiting-insert_lt name promised [] here fresh = absurd (cc)
waiting-insert_lt name promised (n ∷ ns) here fresh = ground (
  arith,
  contains-insert name n promised,
  bytes_eq_iff n name,
  bytes_eq_iff name n,
  waiting-insert_le name promised ns,
  waiting-insert_lt name promised ns,
)

pub waiting_mono :
    (xs ys ns : List Bytes)
    → ((n : Bytes) → contains xs n ≡ true → contains ys n ≡ true)
    → waiting ys ns ≤ waiting xs ns
waiting_mono xs ys [] g = omega arith
waiting_mono xs ys (n ∷ ns) g = ground (arith, g n, waiting_mono xs ys ns g)

module _ (l : Infos) where
  -- A step that goes on has marked the module that it picked.
  pub record Goes (follow : Bool) (s s' : ResolveState) : Type 0 where
    pub info : ModuleInfo
    pub picked : IsPick l follow s s.required_modules info
    pub after : s' ≡ promoted picked.name s

  step_suitable :
      (follow : Bool) (s : ResolveState) (i : ModuleInfo)
      → (p : IsPick l follow s s.required_modules i)
      → pick l follow s s.required_modules ≡ suitable i
      → step l follow s ≡ returns true (promoted p.name s)
  unfolding step load_module
  step_suitable follow s i p e = ground (arith, l.named p.name i p.known, p.fresh)

  pub step-nothing :
      (follow : Bool) (s : ResolveState)
      → pick l follow s s.required_modules ≡ nothing
      → step l follow s ≡ returns false s
  unfolding step
  step-nothing follow s e = rw (e, step)

  step_unknown :
      (follow : Bool) (s : ResolveState) (n : Bytes)
      → pick l follow s s.required_modules ≡ unknown n
      → step l follow s ≡ returns false (record s { failed = true; error_message = no_info n })
  unfolding step set_error
  step_unknown follow s n e = rw (e, step, set_error)

  -- The three ways in which a step ends.
  pub step-cases :
      (follow : Bool) (s : ResolveState)
      → ((s' : ResolveState) × (step l follow s ≡ returns true s') × Goes follow s s')
        ⊎ ((step l follow s ≡ returns false s) × (pick l follow s s.required_modules ≡ nothing))
        ⊎ ((n : Bytes) × (step l follow s
              ≡ returns false (record s { failed = true; error_message = no_info n })))
  step-cases follow s = elim (Pick-cases (pick l follow s s.required_modules)) [
    | inl (n, e) ↦ inr (inr (n, step_unknown follow s n e))
    | inr (inl (i, e)) ↦
        let p = pick-IsPick l follow s s.required_modules i e in
        inl (
          promoted p.name s,
          step_suitable follow s i p e,
          record { info = i; picked = p; after = refl },
        )
    | inr (inr e) ↦ inr (inl (step-nothing follow s e, e))
  ]

  promoted-IsReady :
      (follow : Bool) (s : ResolveState) (i : ModuleInfo)
      (p : IsPick l follow s s.required_modules i)
      → IsOrdered l s
      → IsReady l s.reverse_dependencies s.module_load_order p.name
  promoted-IsReady follow s i p o = record {
    fresh = sym (o.same p.name) ∙ p.fresh;
    needs = λ j e.
        deps_promised-Met follow s.promised_modules s.module_load_order j.meta.dependencies o.same
          (ground (arith, p.known, p.deps));
    reverse_needs =
        deps_promised-Met follow s.promised_modules s.module_load_order
          (reverse_of p.name s.reverse_dependencies) o.same p.reverse_deps;
  }

  promoted-IsOrdered :
      (follow : Bool) (s : ResolveState) (i : ModuleInfo)
      (p : IsPick l follow s s.required_modules i)
      → IsOrdered l s
      → IsOrdered l (promoted p.name s)
  promoted-IsOrdered follow s i p o = record {
    same = λ n.
        rw
          (
            contains-insert p.name n s.promised_modules,
            contains-append n s.module_load_order (p.name ∷ []),
            o.same n,
          )
          (unfold contains in ground arith);
    ordered =
        Ordered-append l s.reverse_dependencies [] s.module_load_order p.name o.ordered
          (promoted-IsReady follow s i p o);
    required = λ n h.
        unfold contains in
        ground (
          arith,
          contains-append n s.module_load_order (p.name ∷ []),
          o.required n,
          bytes_eq_iff p.name n,
          p.here,
        );
  }

  -- How `while(step(follow));` ends: with an error, or with nothing left to pick.
  pub record Ends (follow : Bool) (s s' : ResolveState) : Type 0 where
    pub ordered : IsOrdered l s → IsOrdered l s'
    pub required : s'.required_modules ≡ s.required_modules
    pub reversed : s'.reverse_dependencies ≡ s.reverse_dependencies
    pub over : (s'.failed ≡ true) ⊎ (pick l follow s' s'.required_modules ≡ nothing)

  steps_goes :
      (fuel : ℕ) (follow : Bool) (s s' : ResolveState)
      → step l follow s ≡ returns true s'
      → steps l (suc fuel) follow s ≡ steps l fuel follow s'
  unfolding steps
  steps_goes fuel follow s s' e = rw (e, steps)

  pub steps_stops :
      (fuel : ℕ) (follow : Bool) (s s' : ResolveState)
      → step l follow s ≡ returns false s'
      → steps l (suc fuel) follow s ≡ some s'
  unfolding steps
  steps_stops fuel follow s s' e = rw (e, steps)

  pub steps-Ends :
      (fuel : ℕ) (follow : Bool) (s s' : ResolveState)
      → steps l fuel follow s ≡ some s'
      → Ends follow s s'
  steps-Ends zero follow s s' h = unfold steps in absurd (cc)
  steps-Ends (suc fuel) follow s s' h = elim (step-cases follow s) [
    | inl (t, e, g) ↦
        let ends = steps-Ends fuel follow t s' (sym (steps_goes fuel follow s t e) ∙ h) in
        record {
          ordered =
              λ o. ends.ordered (rw (g.after) (promoted-IsOrdered follow s g.info g.picked o));
          required = ends.required ∙ ap (λ x. x.required_modules) g.after;
          reversed = ends.reversed ∙ ap (λ x. x.reverse_dependencies) g.after;
          over = ends.over;
        }
    | inr (inl (e, none_left)) ↦
        let same = some_injective (sym (steps_stops fuel follow s s e) ∙ h) in
        subst (Ends follow s) same
          (record { ordered = λ o. o; required = refl; reversed = refl; over = inr none_left })
    | inr (inr (n, e)) ↦
        let same = some_injective (sym (steps_stops fuel follow s _ e) ∙ h) in
        subst (Ends follow s) same (record {
          ordered = λ o. record { same = o.same; ordered = o.ordered; required = o.required };
          required = refl;
          reversed = refl;
          over = inl refl;
        })
  ]

  -- One round for each required module that is not promised, and one to see that none is left,
  -- are enough; no round throws.
  pub steps-total :
      (fuel : ℕ) (follow : Bool) (s : ResolveState)
      → waiting s.promised_modules s.required_modules < fuel
      → steps l fuel follow s ≢ none
  steps-total zero follow s h = absurd (omega arith)
  steps-total (suc fuel) follow s h = elim (step-cases follow s) [
    | inl (t, e, g) ↦
        let name = g.picked.name in
        let fewer =
          waiting-insert_lt name s.promised_modules s.required_modules g.picked.here
            g.picked.fresh in
        let enough : waiting t.promised_modules t.required_modules < fuel =
          rw (g.after) (omega arith) in
        rw (steps_goes fuel follow s t e) (steps-total fuel follow t enough)
    | inr (inl (e, _)) ↦ rw (steps_stops fuel follow s s e) (λ x. cc)
    | inr (inr (n, e)) ↦ rw (steps_stops fuel follow s _ e) (λ x. cc)
  ]
