-- ===== src/Server/EventTypes.antt =====
-- CEventRegistry (src/impl/event.cpp).
use buildat.Base.{
  ℕ, ◌+◌, ◌-◌, ◌%◌, ◌<◌, ◌≡◌, refl, sym, none, some, [], ◌∷◌, if◌then◌else◌, ◌==◌, arith,
  Option-cases, inl, inr,
}
use mathlib.Core.Path.{subst}
use buildat.Base.Keys.{Bytes, bytes_eq_iff, bytes_eq_instance}
use buildat.Base.Map.{Map, lookup, insert, lookup-insert}
use buildat.Packet.Registry.{size_mod}

pub record EventRegistry : Type 0 where
  pub types : Map Bytes ℕ
  pub next_type : ℕ

-- The default values.
unfoldable pub event_registry : EventRegistry
event_registry = record { types = []; next_type = 1 }

unfoldable pub type_of : Bytes → EventRegistry → ℕ × EventRegistry
type_of name r = elim (lookup name r.types) [
  | some type ↦ (type, r)
  | none ↦ (
    (r.next_type + 1 + (size_mod - 1)) % size_mod,
    record { types = insert name r.next_type r.types; next_type = (r.next_type + 1) % size_mod },
  )
]

-- The first entry with the type.
unfoldable pub find_type : ℕ → Map Bytes ℕ → Bytes
find_type type [] = []
find_type type ((n, t) ∷ types) = let rest = find_type type types in if t == type then n else rest

unfoldable pub name_of : ℕ → EventRegistry → Bytes
name_of type r = find_type type r.types

-- The types in use are below the next one, and no two names have the same.
pub record IsRegistry (r : EventRegistry) : Type 0 where
  pub below : (n : Bytes) (t : ℕ) → lookup n r.types ≡ some t → t < r.next_type
  pub apart : (n m : Bytes) (t : ℕ) → lookup n r.types ≡ some t → lookup m r.types ≡ some t → n ≡ m

-- type() gives the next type to a new name.
type_of-new :
    (name : Bytes) (r : EventRegistry)
    → lookup name r.types ≡ none
    → r.next_type + 1 < size_mod
    → type_of name r ≡ (
      r.next_type,
      record { types = insert name r.next_type r.types; next_type = r.next_type + 1 },
    )
unfolding type_of
type_of-new name r e room =
    let first : (r.next_type + 1 + (size_mod - 1)) % size_mod ≡ r.next_type = omega arith in
    let second : (r.next_type + 1) % size_mod ≡ r.next_type + 1 = omega arith in
    rw (e, type_of, first, second) refl

type_of-known :
    (name : Bytes) (r : EventRegistry) (t : ℕ)
    → lookup name r.types ≡ some t
    → type_of name r ≡ (t, r)
unfolding type_of
type_of-known name r t e = rw (e, type_of) refl

-- What a call of type() that gave `t` leaves.
pub record Typed (name : Bytes) (r : EventRegistry) (r' : EventRegistry) (t : ℕ) : Type 0 where
  pub registry : IsRegistry r'
  pub given : lookup name r'.types ≡ some t
  pub keeps : (n : Bytes) (u : ℕ) → lookup n r.types ≡ some u → lookup n r'.types ≡ some u

new-Typed :
    (name : Bytes) (r : EventRegistry)
    → IsRegistry r
    → lookup name r.types ≡ none
    → Typed name r
        (record { types = insert name r.next_type r.types; next_type = r.next_type + 1 })
        r.next_type
new-Typed name r v fresh = record {
  registry = record {
    below = λ n t e.
        ground (arith, lookup-insert name n r.next_type r.types, v.below n t, bytes_eq_iff name n);
    apart = λ n m t e e'. ground (
      arith,
      lookup-insert name n r.next_type r.types,
      lookup-insert name m r.next_type r.types,
      v.below n t,
      v.below m t,
      v.apart n m t,
      bytes_eq_iff name n,
      bytes_eq_iff name m,
    );
  };
  given = ground (arith, lookup-insert name name r.next_type r.types, bytes_eq_iff name name);
  keeps = λ n u e. ground (arith, lookup-insert name n r.next_type r.types, bytes_eq_iff name n);
}

-- While there are types left, type() gives the name a type that it keeps, no two names have the
-- same type afterwards, every name that had a type before has the same one, and asking again
-- gives the same type and changes nothing.
pub type_of-Typed :
    (name : Bytes) (r : EventRegistry)
    → IsRegistry r
    → r.next_type + 1 < size_mod
    → let (t, r') = type_of name r in Typed name r r' t × (type_of name r' ≡ (t, r'))
type_of-Typed name r v room = elim (Option-cases (lookup name r.types)) [
  | inr (t, e) ↦
      subst (λ o. Typed name r o.1 o.0 × (type_of name o.1 ≡ (o.0, o.1)))
        (sym (type_of-known name r t e))
        (record { registry = v; given = e; keeps = λ n u h. h }, type_of-known name r t e)
  | inl e ↦
      let typed = new-Typed name r v e in
      subst (λ o. Typed name r o.1 o.0 × (type_of name o.1 ≡ (o.0, o.1)))
        (sym (type_of-new name r e room)) (typed, type_of-known name _ r.next_type typed.given)
]
