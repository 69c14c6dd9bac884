-- ===== src/Loader/Complete.antt =====
-- step_through() as a whole.
use buildat.Base.{
  suc, ◌≡◌, ◌≢◌, refl, sym, ap, ◌∙◌, ◌⊎◌, inl, inr, none, some, List, [], ◌∷◌, true, false, length,
  arith, Bool-cases, Option-cases, Bool-iff,
}
use mathlib.Core.Path.{subst}
use buildat.Base.Keys.{Bytes, bytes_eq, bytes_eq_iff}
use buildat.Base.Sets.{contains}
use buildat.Loader.Info.{ModuleInfo, Infos}
use buildat.Loader.State.{ResolveState, set_error, reverse_of, missing_dependencies}
use buildat.Loader.Step.{deps_promised, nothing, pick, steps, report, step_through}
use buildat.Loader.Order.{IsOrdered, Ordered}
use buildat.Loader.Progress.{Ends, steps-Ends, steps-total, waiting-le}

module _ (l : Infos) where
  report_failed :
      (names : List Bytes) (s : ResolveState) → s.failed ≡ true → (report l names s).0 ≡ false
  unfolding report set_error
  report_failed [] s h = ground arith
  report_failed (n ∷ names) s h = ground (
    arith,
    report_failed names s h,
    report_failed names (record s { failed = true; error_message = missing_dependencies }) refl,
  )

  -- What is known of a name over which report() passed without an error.
  abbrev Passed : ResolveState → Bytes → Type 0
  Passed s n =
      (contains s.promised_modules n ≡ true)
      ⊎ ((i : ModuleInfo) × (l.get_module_info n ≡ some i)
          × (deps_promised false s.promised_modules i.meta.dependencies ≡ true)
          × (deps_promised false s.promised_modules (reverse_of n s.reverse_dependencies) ≡ true))

  report-state :
      (names : List Bytes) (s : ResolveState)
      → (report l names s).0 ≡ true
      → ((report l names s).1 ≡ s) × (s.failed ≡ false)
  unfolding report set_error
  report-state [] s h = ground arith
  report-state (n ∷ names) s h = ground (
    arith,
    report-state names s,
    report_failed names (record s { failed = true; error_message = missing_dependencies }) refl,
  )

  report-Passed :
      (names : List Bytes) (s : ResolveState) (n : Bytes)
      → (report l names s).0 ≡ true
      → contains names n ≡ true
      → Passed s n
  unfolding report set_error contains
  report-Passed [] s n h e = absurd (cc)
  report-Passed (m ∷ names) s n h e = elim (Bool-cases (contains s.promised_modules n)) [
    | inl old ↦ inl old
    | inr new ↦ elim (Bool-cases (bytes_eq m n)) [
      | inr other ↦
          report-Passed names s n
            (ground (
              arith,
              report_failed names (record s { failed = true; error_message = missing_dependencies })
                  refl,
            ))
            (ground arith)
      | inl this ↦
          let same = (bytes_eq_iff m n).0 this in
          elim (Option-cases (l.get_module_info n)) [
            | inl unknown_name ↦ absurd (ground arith)
            | inr (i, known) ↦ inr (
              i,
              known,
              ground (
                arith,
                report_failed names
                    (record s { failed = true; error_message = missing_dependencies }) refl,
              ),
              ground (
                arith,
                report_failed names
                    (record s { failed = true; error_message = missing_dependencies }) refl,
              ),
            )
          ]
    ]
  ]

  -- If there is nothing to pick and the report passes, the name is promised.
  pick-nothing :
      (s : ResolveState) (names : List Bytes) (n : Bytes)
      → pick l false s names ≡ nothing
      → contains names n ≡ true
      → Passed s n
      → contains s.promised_modules n ≡ true
  unfolding pick contains
  pick-nothing s [] n h e p = absurd (cc)
  pick-nothing s (m ∷ names) n h e (inl old) = old
  pick-nothing s (m ∷ names) n h e (inr (i, known, deps, reverse_deps)) =
      elim (Bool-cases (bytes_eq m n)) [
        | inr other ↦
            pick-nothing s names n (ground arith) (ground arith)
              (inr (i, known, deps, reverse_deps))
        | inl this ↦ let same = (bytes_eq_iff m n).0 this in ground arith
      ]

  -- A successful step_through() gives a load order of the required modules: each of them is in
  -- it, none twice, no other is, and what a module needs comes before it.
  pub record IsLoadOrder (s s' : ResolveState) : Type 0 where
    pub complete : (n : Bytes) → contains s'.module_load_order n ≡ contains s.required_modules n
    pub ordered : Ordered l s.reverse_dependencies [] s'.module_load_order

  -- The two loops and the report of a call that succeeds.
  record Passes (s : ResolveState) (s' : ResolveState) : Type 0 where
    first : ResolveState
    second : ResolveState
    first_ends : Ends l true s first
    second_ends : Ends l false first second
    second_ok : second.failed ≡ false
    reported : (report l second.required_modules second).0 ≡ true
    result : s' ≡ second

  step_through-Passes : (s s' : ResolveState) → step_through l s ≡ some (true, s') → Passes s s'
  unfolding step_through
  step_through-Passes s s' h =
      let fuel = suc (length s.required_modules) in
      elim (Option-cases (steps l fuel true s)) [
        | inl e ↦ absurd (ground arith)
        | inr (s1, e1) ↦ elim (Bool-cases s1.failed) [
          | inl bad ↦ absurd (ground arith)
          | inr ok1 ↦ elim (Option-cases (steps l fuel false s1)) [
            | inl e ↦ absurd (ground arith)
            | inr (s2, e2) ↦ record {
              first = s1;
              second = s2;
              first_ends = steps-Ends l fuel true s s1 e1;
              second_ends = steps-Ends l fuel false s1 s2 e2;
              second_ok = ground arith;
              reported = ground (arith, report-state s2.required_modules s2);
              result = ground (arith, report-state s2.required_modules s2);
            }
          ]
        ]
      ]

  Passes-complete :
      (s s' : ResolveState)
      → IsOrdered l s
      → (p : Passes s s') → (n : Bytes)
      → contains p.second.module_load_order n ≡ contains p.second.required_modules n
  Passes-complete s s' o p n =
      let s2 = p.second in
      let o2 = p.second_ends.ordered (p.first_ends.ordered o) in
      let nothing_left : pick l false s2 s2.required_modules ≡ nothing =
        ground (arith, p.second_ends.over, p.second_ok) in
      let all : contains s2.required_modules n ≡ true → contains s2.promised_modules n ≡ true = λ h.
        pick-nothing s2 s2.required_modules n nothing_left h
          (report-Passed s2.required_modules s2 n p.reported h) in
      Bool-iff _ _ (o2.required n) (λ h. sym (o2.same n) ∙ all h)

  -- If step_through() returns true from a state that has promised exactly what is in its load order,
  -- and that order is a good one of required modules, then the load order is one of all the required modules: each of them is in it, none twice, no other
  -- is, and the dependencies that are not optional of each, own and reverse, come before it.
  pub step_through-IsLoadOrder :
      (s s' : ResolveState) → IsOrdered l s → step_through l s ≡ some (true, s') → IsLoadOrder s s'
  step_through-IsLoadOrder s s' o h =
      let p = step_through-Passes s s' h in
      let o2 = p.second_ends.ordered (p.first_ends.ordered o) in
      let same_required = p.second_ends.required ∙ p.first_ends.required in
      let same_reverse = p.second_ends.reversed ∙ p.first_ends.reversed in
      subst (IsLoadOrder s) (sym p.result) (record {
        complete =
            λ n. Passes-complete s s' o p n ∙ ap (λ (x : List Bytes). contains x n) same_required;
        ordered = rw same_reverse at o2.ordered;
      })

  -- step_through() always ends: neither loop runs out of its fuel, and none throws.
  pub step_through-total : (s : ResolveState) → step_through l s ≢ none
  unfolding step_through
  step_through-total s =
      let fuel = suc (length s.required_modules) in
      elim (Option-cases (steps l fuel true s)) [
        | inl e ↦ absurd (
            steps-total l fuel true s
              (omega (arith, waiting-le s.promised_modules s.required_modules)) e)
        | inr (s1, e1) ↦
            let same = (steps-Ends l fuel true s s1 e1).required in
            let second =
              steps-total l fuel false s1 (
                omega
                  (arith, waiting-le s1.promised_modules s1.required_modules, ap length same)) in
            ground arith
      ]
