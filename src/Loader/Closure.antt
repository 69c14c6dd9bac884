-- ===== src/Loader/Closure.antt =====
-- What require_modules() collects: the modules asked for, and all that they need.
use buildat.Base.{
  ℕ, zero, suc, ◌≡◌, refl, inl, inr, none, some, List, [], ◌∷◌, Bool, true, false, if◌then◌else◌,
  arith, Bool-cases, Option-cases,
}
use mathlib.Core.Path.{subst}
use buildat.Base.Keys.{Bytes, bytes_eq, bytes_eq_iff, bytes_eq_refl}
use buildat.Base.Sets.{contains, insert, contains-insert}
use buildat.Loader.Info.{ModuleDependency, ModuleInfo, Infos}
use buildat.Loader.State.{ResolveState, set_error, push_reverse, adding_required}
use buildat.Loader.Require.{
  Outcome, and_if, require_dependencies, require_reverse, require_module, require_modules,
}
use buildat.Loader.Order.{Met}

abbrev pub Requires : ResolveState → Bytes → Type 0
Requires s n = contains s.required_modules n ≡ true

abbrev pub Grows : ResolveState → ResolveState → Type 0
Grows s s' = (n : Bytes) → Requires s n → Requires s' n

Met-mono :
    (xs ys : List Bytes) (ds : List ModuleDependency)
    → ((n : Bytes) → contains xs n ≡ true → contains ys n ≡ true)
    → Met xs ds
    → Met ys ds
Met-mono xs ys [] g m = tt
Met-mono xs ys (d ∷ ds) g m = (λ e. g d.module_name (m.0 e), Met-mono xs ys ds g m.1)

module _ (l : Infos) where
  -- The module is there, and its dependencies that are not optional are required.
  pub record IsClosed (s : ResolveState) (n : Bytes) : Type 0 where
    pub info : ModuleInfo
    pub known : l.get_module_info n ≡ some info
    pub met : Met s.required_modules info.meta.dependencies

  IsClosed-Grows : (s s' : ResolveState) (n : Bytes) → Grows s s' → IsClosed s n → IsClosed s' n
  IsClosed-Grows s s' n g c = record {
    info = c.info;
    known = c.known;
    met = Met-mono s.required_modules s'.required_modules c.info.meta.dependencies g c.met;
  }

  -- From `s` to `s'` the required modules grew, and every new one is closed.
  pub record Extends (s s' : ResolveState) : Type 0 where
    pub grows : Grows s s'
    pub closed : (n : Bytes) → contains s.required_modules n ≡ false → Requires s' n → IsClosed s' n

  Extends-refl : (s : ResolveState) → Extends s s
  Extends-refl s = record { grows = λ n h. h; closed = λ n f t. absurd (ground arith) }

  Extends-trans : (s t u : ResolveState) → Extends s t → Extends t u → Extends s u
  Extends-trans s t u a b = record {
    grows = λ n h. b.grows n (a.grows n h);
    closed = λ n f h. elim (Bool-cases (contains t.required_modules n)) [
      | inl old ↦ IsClosed-Grows t u n b.grows (a.closed n f old)
      | inr new ↦ b.closed n new h
    ];
  }

  -- What a call of require_module that returns true has done.
  pub record Required (name : Bytes) (optional : Bool) (s s' : ResolveState) : Type 0 where
    pub extends : Extends s s'
    pub required : optional ≡ false → Requires s' name

  abbrev IsRequire : (Bytes → Bool → ResolveState → Outcome) → Type 0
  IsRequire call =
      (name : Bytes) (optional : Bool) (s s' : ResolveState)
      → call name optional s ≡ some (true, s')
      → Required name optional s s'

  and_if-true :
      (r : Outcome) (k : ResolveState → Outcome) (s' : ResolveState)
      → and_if r k ≡ some (true, s')
      → (t : ResolveState) × (r ≡ some (true, t)) × (k t ≡ some (true, s'))
  and_if-true none k s' h = absurd (cc)
  and_if-true (some (true, t)) k s' h = (t, refl, h)
  and_if-true (some (false, t)) k s' h = absurd (cc)

  require_dependencies-Extends :
      (call : Bytes → Bool → ResolveState → Outcome) (ds : List ModuleDependency)
      (s s' : ResolveState)
      → IsRequire call
      → require_dependencies call ds s ≡ some (true, s')
      → Extends s s' × Met s'.required_modules ds
  unfolding require_dependencies
  require_dependencies-Extends call [] s s' c h =
      (subst (Extends s) (ground arith) (Extends-refl s), tt)
  require_dependencies-Extends call (d ∷ ds) s s' c h =
      let (t, e, k) =
        and_if-true (call d.module_name d.optional s) (λ x. require_dependencies call ds x) s' h in
      let first = c d.module_name d.optional s t e in
      let rest = require_dependencies-Extends call ds t s' c k in
      (
        Extends-trans s t s' first.extends rest.0,
        (λ o. rest.0.grows d.module_name (first.required o), rest.1),
      )

  push_reverse-Extends :
      (n : Bytes) (d : ModuleDependency) (s s' : ResolveState)
      → Extends (push_reverse n d s) s'
      → Extends s s'
  unfolding push_reverse
  push_reverse-Extends n d s s' e = record { grows = e.grows; closed = e.closed }

  require_reverse-Extends :
      (call : Bytes → Bool → ResolveState → Outcome) (name : Bytes) (ds : List ModuleDependency)
      (s s' : ResolveState)
      → IsRequire call
      → require_reverse call name ds s ≡ some (true, s')
      → Extends s s'
  unfolding require_reverse
  require_reverse-Extends call name [] s s' c h = subst (Extends s) (ground arith) (Extends-refl s)
  require_reverse-Extends call name (d ∷ ds) s s' c h =
      let stored = push_reverse d.module_name (record d { module_name = name }) s in
      elim (Bool-cases (contains s.promised_modules d.module_name)) [
        | inl skip ↦ require_reverse-Extends call name ds s s' c (ground arith)
        | inr new ↦
            let (t, e, k) =
              and_if-true (call d.module_name d.optional stored)
                (λ x. require_reverse call name ds x) s' (ground arith) in
            let first = c d.module_name d.optional stored t e in
            push_reverse-Extends d.module_name (record d { module_name = name }) s s'
              (Extends-trans stored t s' first.extends
                (require_reverse-Extends call name ds t s' c k))
      ]

  -- The module that is entered, before its dependencies are.
  entered-Extends :
      (name : Bytes) (info : ModuleInfo) (s s2 s3 : ResolveState)
      → l.get_module_info name ≡ some info
      → Extends (record s { required_modules = insert name s.required_modules }) s2
      → Met s2.required_modules info.meta.dependencies
      → Extends s2 s3
      → Required name false s s3
  entered-Extends name info s s2 s3 known a met b =
      let s1 : ResolveState = record s { required_modules = insert name s.required_modules } in
      let all = Extends-trans s1 s2 s3 a b in
      record {
        extends = record {
          grows = λ n h. all.grows n (ground (arith, contains-insert name n s.required_modules));
          closed = λ n f h. elim (Bool-cases (bytes_eq name n)) [
            | inl this ↦ record {
              info = info;
              known = rw (← (bytes_eq_iff name n).0 this) known;
              met =
                  Met-mono s2.required_modules s3.required_modules info.meta.dependencies b.grows
                    met;
            }
            | inr other ↦ all.closed n (ground (arith, contains-insert name n s.required_modules)) h
          ];
        };
        required = λ _.
            all.grows name
              (ground (arith, contains-insert name name s.required_modules, bytes_eq_refl name));
      }

  require_module-Required : (fuel : ℕ) → IsRequire (require_module l fuel)
  unfolding require_module set_error
  require_module-Required zero name optional s s' h = absurd (cc)
  require_module-Required (suc fuel) name optional s s' h =
      elim (Bool-cases (contains s.required_modules name)) [
        | inl old ↦
            let same : s ≡ s' = ground arith in
            subst (Required name optional s) same
              (record { extends = Extends-refl s; required = λ _. old })
        | inr new ↦ elim (Option-cases (l.get_module_info name)) [
          | inl e ↦
              let opt : optional ≡ true = ground arith in
              let same : s ≡ s' = ground arith in
              subst (Required name optional s) same
                (record { extends = Extends-refl s; required = λ x. absurd (ground arith) })
          | inr (info, e) ↦
              let s1 : ResolveState = record s {
                required_modules = insert name s.required_modules;
              } in
              let call = require_module l fuel in
              let (s2, e2, k) =
                and_if-true (require_dependencies call info.meta.dependencies s1)
                  (require_reverse call name info.meta.reverse_dependencies) s' (ground arith) in
              let ih = require_module-Required fuel in
              let deps = require_dependencies-Extends call info.meta.dependencies s1 s2 ih e2 in
              let rev =
                require_reverse-Extends call name info.meta.reverse_dependencies s2 s' ih k in
              let r = entered-Extends name info s s2 s' e deps.0 deps.1 rev in
              record { extends = r.extends; required = λ _. r.required refl }
        ]
      ]

  first_true :
      (r : Outcome) (s' : ResolveState) (k : ResolveState → Outcome)
      → elim r [
        | none ↦ none
        | some (ok, t) ↦
            if ok
            then k t
            else some (false, record t { error_message = adding_required t.error_message })
      ]
        ≡ some (true, s')
      → (t : ResolveState) × (r ≡ some (true, t)) × (k t ≡ some (true, s'))
  first_true none s' k h = absurd (cc)
  first_true (some (true, t)) s' k h = (t, refl, h)
  first_true (some (false, t)) s' k h = absurd (cc)

  -- If require_modules() returns true, then the modules that were asked for are required; what was
  -- required before still is; and each module that is newly required exists, and has all its
  -- dependencies that are not optional among the required ones.
  pub require_modules-Extends :
      (fuel : ℕ) (names : List Bytes) (s s' : ResolveState)
      → require_modules l fuel names s ≡ some (true, s')
      → Extends s s' × ((n : Bytes) → contains names n ≡ true → Requires s' n)
  unfolding require_modules contains
  require_modules-Extends fuel [] s s' h =
      (subst (Extends s) (ground arith) (Extends-refl s), λ n e. absurd (cc))
  require_modules-Extends fuel (name ∷ names) s s' h =
      let (t, e, k) =
        first_true (require_module l fuel name false s) s' (λ x. require_modules l fuel names x)
          h in
      let first = require_module-Required fuel name false s t e in
      let rest = require_modules-Extends fuel names t s' k in
      (
        Extends-trans s t s' first.extends rest.0,
        λ n e. elim (Bool-cases (bytes_eq name n)) [
          | inl this ↦ rw (← (bytes_eq_iff name n).0 this) (rest.0.grows name (first.required refl))
          | inr other ↦ rest.1 n (ground arith)
        ],
      )
