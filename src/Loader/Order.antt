-- ===== src/Loader/Order.antt =====
-- The order in which ResolveState lets the modules be loaded.
use mathlib.Core.List.{append-nil, append_assoc}
use buildat.Base.{
  ◌≡◌, inl, inr, some, List, [], ◌∷◌, ◌++◌, Bool, true, false, ◌&&◌, arith, Bool-cases,
  Option-cases,
}
use buildat.Base.Keys.{Bytes, bytes_eq_iff}
use buildat.Base.Map.{Map}
use buildat.Base.Sets.{contains}
use buildat.Loader.Info.{ModuleDependency, ModuleInfo, Infos}
use buildat.Loader.State.{ResolveState, reverse_of}
use buildat.Loader.Step.{deps_promised, suitable, pick}

-- Every dependency that is not optional is among the names.
abbrev pub Met : List Bytes → List ModuleDependency → Type 0
Met names [] = Unit {0}
Met names (d ∷ ds) = (d.optional ≡ false → contains names d.module_name ≡ true) × Met names ds

pub deps_promised-Met :
    (follow : Bool) (promised names : List Bytes) (ds : List ModuleDependency)
    → ((n : Bytes) → contains promised n ≡ contains names n)
    → deps_promised follow promised ds ≡ true
    → Met names ds
unfolding deps_promised
deps_promised-Met follow promised names [] same h = tt
deps_promised-Met follow promised names (d ∷ ds) same h =
    ground (arith, same d.module_name, deps_promised-Met follow promised names ds same)

module _ (l : Infos) where
  -- The module is new, and what it needs comes before it: its own dependencies and those that
  -- others gave it in reverse.
  pub record IsReady (rev : Map Bytes (List ModuleDependency)) (before : List Bytes) (name : Bytes)
      : Type 0 where
    pub fresh : contains before name ≡ false
    pub needs : (i : ModuleInfo) → l.get_module_info name ≡ some i → Met before i.meta.dependencies
    pub reverse_needs : Met before (reverse_of name rev)

  abbrev pub Ordered : Map Bytes (List ModuleDependency) → List Bytes → List Bytes → Type 0
  Ordered rev before [] = Unit {0}
  Ordered rev before (n ∷ ns) = IsReady rev before n × Ordered rev (before ++ n ∷ []) ns

  pub Ordered-append :
      (rev : Map Bytes (List ModuleDependency)) (before ns : List Bytes) (n : Bytes)
      → Ordered rev before ns
      → IsReady rev (before ++ ns) n
      → Ordered rev before (ns ++ n ∷ [])
  Ordered-append rev before [] n o r = (rw append-nil at r, tt)
  Ordered-append rev before (m ∷ ns) n o r =
      (o.0, Ordered-append rev (before ++ m ∷ []) ns n o.1 (rw (append_assoc before (m ∷ []) ns) r))

  -- What step() keeps.
  pub record IsOrdered (s : ResolveState) : Type 0 where
    pub same : (n : Bytes) → contains s.promised_modules n ≡ contains s.module_load_order n
    pub ordered : Ordered s.reverse_dependencies [] s.module_load_order
    pub required :
        (n : Bytes) → contains s.module_load_order n ≡ true → contains s.required_modules n ≡ true

  -- What step() found.
  pub record IsPick (follow : Bool) (s : ResolveState) (names : List Bytes) (info : ModuleInfo)
      : Type 0 where
    pub name : Bytes
    pub here : contains names name ≡ true
    pub fresh : contains s.promised_modules name ≡ false
    pub known : l.get_module_info name ≡ some info
    pub deps : deps_promised follow s.promised_modules info.meta.dependencies ≡ true
    pub reverse_deps :
        deps_promised follow s.promised_modules (reverse_of name s.reverse_dependencies) ≡ true

  IsPick-cons :
      (follow : Bool) (s : ResolveState) (n : Bytes) (names : List Bytes) (info : ModuleInfo)
      → IsPick follow s names info
      → IsPick follow s (n ∷ names) info
  unfolding contains
  IsPick-cons follow s n names info p = record {
    name = p.name;
    here = ground (arith, p.here);
    fresh = p.fresh;
    known = p.known;
    deps = p.deps;
    reverse_deps = p.reverse_deps;
  }

  pub pick-IsPick :
      (follow : Bool) (s : ResolveState) (names : List Bytes) (info : ModuleInfo)
      → pick l follow s names ≡ suitable info
      → IsPick follow s names info
  unfolding pick
  pick-IsPick follow s [] info h = absurd (cc)
  pick-IsPick follow s (n ∷ names) info h = elim (Bool-cases (contains s.promised_modules n)) [
    | inl old ↦ IsPick-cons follow s n names info (pick-IsPick follow s names info (ground arith))
    | inr new ↦ elim (Option-cases (l.get_module_info n)) [
      | inl e ↦ absurd (ground arith)
      | inr (i, e) ↦
          elim (Bool-cases (
            deps_promised follow s.promised_modules i.meta.dependencies
            && deps_promised follow s.promised_modules (reverse_of n s.reverse_dependencies))) [
              | inl all ↦ record {
                name = n;
                here = unfold contains in ground (arith, bytes_eq_iff n n);
                fresh = new;
                known = ground arith;
                deps = ground arith;
                reverse_deps = ground arith;
              }
              | inr wait ↦
                  IsPick-cons follow s n names info (pick-IsPick follow s names info (ground arith))
            ]
    ]
  ]
