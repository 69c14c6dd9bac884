-- ===== src/Loader/Optional.antt =====
-- Optional dependencies in step(): the loop that would wait for them comes second.
use buildat.Base.{
  ℕ, suc, ◌≡◌, refl, inl, inr, some, List, [], ◌∷◌, true, false, arith, Option-cases,
}
use buildat.Base.Keys.{Bytes}
use buildat.Loader.Info.{ModuleDependency, Infos}
use buildat.Loader.State.{ResolveState, reverse_of}
use buildat.Loader.Step.{deps_promised, nothing, pick, steps}
use buildat.Loader.Progress.{steps-Ends, step-nothing, steps_stops}

-- With `follow` fewer dependencies are waited for, not more.
deps_promised-weaken :
    (promised : List Bytes) (ds : List ModuleDependency)
    → deps_promised false promised ds ≡ true
    → deps_promised true promised ds ≡ true
unfolding deps_promised
deps_promised-weaken promised [] h = refl
deps_promised-weaken promised (d ∷ ds) h = ground (arith, deps_promised-weaken promised ds)

module _ (l : Infos) where
  pick-weaken :
      (s : ResolveState) (names : List Bytes)
      → pick l true s names ≡ nothing
      → pick l false s names ≡ nothing
  unfolding pick
  pick-weaken s [] h = refl
  pick-weaken s (n ∷ names) h = elim (Option-cases (l.get_module_info n)) [
    | inl e ↦ ground (arith, pick-weaken s names)
    | inr (i, e) ↦ ground (
      arith,
      pick-weaken s names,
      deps_promised-weaken s.promised_modules i.meta.dependencies,
      deps_promised-weaken s.promised_modules (reverse_of n s.reverse_dependencies),
    )
  ]

  -- After the loop `while(step(true));` has ended without an error, the loop `while(step(false));`
  -- changes nothing: it ends at once in the state that it began in, so that it never adds a module
  -- that waits for an optional dependency.
  pub second_loop_idle :
      (f g : ℕ) (s s1 : ResolveState)
      → steps l f true s ≡ some s1
      → s1.failed ≡ false
      → steps l (suc g) false s1 ≡ some s1
  second_loop_idle f g s s1 e ok =
      let nothing_left : pick l true s1 s1.required_modules ≡ nothing =
        ground (arith, (steps-Ends l f true s s1 e).over, ok) in
      steps_stops l g false s1 s1
        (step-nothing l false s1 (pick-weaken s1 s1.required_modules nothing_left))
