-- ===== src/Server/Subscriptions.antt =====
-- What unloading a module leaves of it (unload_module_u() in src/server/state.cpp).

use buildat.Base.{
  Bool-cases, true, leb, length, sym, Option, replicate, ℕ, zero, suc, ◌≡◌, refl, ap, ◌∙◌, none,
  some, List, [], ◌∷◌, ◌++◌, map, Bool, false, if◌then◌else◌, ◌==◌, get_or, arith, Option-cases,
  inl, inr,
}
use mathlib.Core.Path.{subst}
use mathlib.Core.List.{append-nil, append_assoc}
use buildat.Base.Keys.{Bytes, bytes_eq, bytes_eq_instance, nat_eq}
use buildat.Base.Map.{Map, lookup, erase, lookup-insert, lookup-erase, insert}
use buildat.Packet.Registry.{bytes}
use buildat.Loader.Info.{ModuleInfo}
use buildat.Server.State.{
  Event, ModuleContainer, State, push_events, emit_event, is_in, without, unload_module_u,
}

-- The subscriptions to a type.
abbrev pub subs_of : ℕ → State → List ℕ
subs_of type s = get_or s.event_subs type []

-- How often a number stands in a list.
unfoldable pub times_in : ℕ → List ℕ → ℕ
times_in j [] = 0
times_in j (i ∷ is) = let rest = times_in j is in if i == j then suc rest else rest

-- A container after so many events more.
unfoldable pub notified : Event → ℕ → Option ModuleContainer → Option ModuleContainer
notified event n none = none
notified event n (some mc) = some (record mc { event_queue = mc.event_queue ++ replicate n event })

notified-zero : (event : Event) (mc : Option ModuleContainer) → notified event 0 mc ≡ mc
unfolding notified
notified-zero event none = refl
notified-zero event (some mc) =
    ap (λ q. some (record mc { event_queue = q })) (append-nil mc.event_queue)

notified-none : (event : Event) (n : ℕ) → notified event n none ≡ none
unfolding notified
notified-none event n = refl

notified-suc :
    (event : Event) (n : ℕ) (mc : ModuleContainer)
    → notified event n (some (record mc { event_queue = mc.event_queue ++ event ∷ [] }))
      ≡ notified event (suc n) (some mc)
unfolding notified
notified-suc event n mc =
    ap (λ q. some (record mc { event_queue = q }))
      (append_assoc mc.event_queue (event ∷ []) (replicate n event))

lookup-push_events :
    (event : Event) (ids : List ℕ) (containers : Map ℕ ModuleContainer) (j : ℕ)
    → lookup j (push_events event ids containers)
      ≡ notified event (times_in j ids) (lookup j containers)
unfolding push_events times_in
lookup-push_events event [] containers j = sym (notified-zero event (lookup j containers))
lookup-push_events event (i ∷ is) containers j = elim (Option-cases (lookup i containers)) [
  | inl e ↦
      rw (e, push_events)
        (ground (
          arith,
          lookup-push_events event is containers j,
          notified-none event (times_in j is),
          notified-none event (suc (times_in j is)),
        ))
  | inr (mc, e) ↦
      let next : ModuleContainer = record mc { event_queue = mc.event_queue ++ event ∷ [] } in
      rw (e, push_events)
        (ground (
          arith,
          lookup-push_events event is (insert i next containers) j,
          lookup-insert i j next containers,
          notified-suc event (times_in j is) mc,
        ))
]

get_or-out :
    (subs : List (List ℕ)) (type : ℕ) → leb (length subs) type ≡ true → get_or subs type [] ≡ []
get_or-out [] type h = refl
get_or-out (l ∷ subs) zero h = absurd (ground arith)
get_or-out (l ∷ subs) (suc type) h = get_or-out subs type (ground arith)

-- emit_event() notifies each subscribed container once for each of its subscriptions.
lookup-emit_event :
    (event : Event) (s : State) (j : ℕ)
    → lookup j (emit_event event s).containers
      ≡ notified event (times_in j (subs_of event.type s)) (lookup j s.containers)
unfolding emit_event times_in
lookup-emit_event event s j = elim (Bool-cases (leb (length s.event_subs) event.type)) [
  | inl out ↦
      rw (out, emit_event, get_or-out s.event_subs event.type out)
        (sym (notified-zero event (lookup j s.containers)))
  | inr inside ↦
      rw (inside, emit_event) (lookup-push_events event (subs_of event.type s) s.containers j)
]

emit_event-keeps :
    (event : Event) (s : State)
    → emit_event event s ≡ record s { containers = (emit_event event s).containers }
unfolding emit_event
emit_event-keeps event s = elim (Bool-cases (leb (length s.event_subs) event.type)) [
  | inl out ↦ rw (out, emit_event) refl
  | inr inside ↦ rw (inside, emit_event) refl
]

module _ (event_type : Bytes → ℕ) (builds : ModuleInfo → Bool) where
  is_in-without :
      (id j : ℕ) (ids : List ℕ)
      → is_in j (without event_type builds id ids) ≡ (if id == j then false else is_in j ids)
  unfolding is_in without
  is_in-without id j [] = ground arith
  is_in-without id j (i ∷ is) = ground (arith, is_in-without id j is)

  get_or-without :
      (id type : ℕ) (subs : List (List ℕ))
      → get_or (map (without event_type builds id) subs) type []
        ≡ without event_type builds id (get_or subs type [])
  unfolding without
  get_or-without id type [] = refl
  get_or-without id zero (l ∷ subs) = refl
  get_or-without id (suc type) (l ∷ subs) = get_or-without id type subs

  times_in-without :
      (id j : ℕ) (ids : List ℕ)
      → times_in j (without event_type builds id ids) ≡ (if id == j then 0 else times_in j ids)
  unfolding times_in without
  times_in-without id j [] = ground arith
  times_in-without id j (i ∷ is) = ground (arith, times_in-without id j is)

  abbrev event_of : Bytes → Event
  event_of name = record { type = event_type (bytes "core:module_unloaded"); parameter = name }

  abbrev dropped : Bytes → ℕ → State → State
  dropped name id s = record s {
    event_subs = map (without event_type builds id) s.event_subs;
    modules = erase name s.modules;
    containers = erase id s.containers;
  }

  unload_module_u-dropped :
      (name : Bytes) (id : ℕ) (s : State)
      → lookup name s.modules ≡ some id
      → unload_module_u event_type builds name s ≡ emit_event (event_of name) (dropped name id s)
  unfolding unload_module_u
  unload_module_u-dropped name id s e = rw (e, unload_module_u) refl

  -- What a container's queue is to be: the others get the event once for each subscription.
  left :
      (name : Bytes) (id j : ℕ) (s : State)
      → lookup j (emit_event (event_of name) (dropped name id s)).containers ≡ (
          if id == j
          then none
          else notified
              (event_of name)
              (times_in j (subs_of (event_type (bytes "core:module_unloaded")) s))
              (lookup j s.containers))
  left name id j s =
      let type = event_type (bytes "core:module_unloaded") in
      ground (
        arith,
        lookup-emit_event (event_of name) (dropped name id s) j,
        get_or-without id type s.event_subs,
        times_in-without id j (subs_of type s),
        lookup-erase id j s.containers,
        notified-none (event_of name) 0,
      )

  -- Unloading a loaded module leaves no subscription of it to any type, keeps the subscriptions of
  -- all the others, and leaves neither its name nor its container; the other names stay loaded as
  -- they were. Every other container stays as it was, with "core:module_unloaded" for the name at
  -- the end of its queue once for each of its subscriptions to that type. Nothing else in the
  -- state changes.
  pub unload_module_u-is_in :
      (name : Bytes) (id : ℕ) (s : State)
      → lookup name s.modules ≡ some id
      → let s' = unload_module_u event_type builds name s in
        let type = event_type (bytes "core:module_unloaded") in
        ((type j : ℕ)
          → is_in j (subs_of type s') ≡ (if id == j then false else is_in j (subs_of type s)))
        × ((n : Bytes)
            → lookup n s'.modules ≡ (if bytes_eq name n then none else lookup n s.modules))
        × (lookup id s'.containers ≡ none)
        × ((j : ℕ)
            → lookup j s'.containers ≡ (
                if id == j
                then none
                else notified
                    (record { type = type; parameter = name })
                    (times_in j (subs_of type s))
                    (lookup j s.containers)))
        × (s' ≡ record s {
          event_subs = s'.event_subs;
          modules = s'.modules;
          containers = s'.containers;
        })
  unload_module_u-is_in name id s e =
      let out = unload_module_u-dropped name id s e in
      let kept = emit_event-keeps (event_of name) (dropped name id s) in
      (
        λ type j.
            ap (λ u. is_in j (get_or u.event_subs type [])) (out ∙ kept)
            ∙ ap (is_in j) (get_or-without id type s.event_subs)
            ∙ is_in-without id j (get_or s.event_subs type []),
        λ n. ap (λ u. lookup n u.modules) (out ∙ kept) ∙ lookup-erase name n s.modules,
        ap (λ u. lookup id u.containers) out ∙ left name id id s ∙ ground arith,
        λ j. ap (λ u. lookup j u.containers) out ∙ left name id j s,
        subst
            (λ u. u ≡ record s {
              event_subs = u.event_subs;
              modules = u.modules;
              containers = u.containers;
            })
            (sym (out ∙ kept)) refl,
      )
