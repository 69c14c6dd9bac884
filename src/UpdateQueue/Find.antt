-- ===== src/UpdateQueue/Find.antt =====
-- Finding, inserting and removing in a ValueSet (src/lua_bindings/spatial_update_queue.cpp).
use buildat.Base.{
  ℕ, ◌≡◌, ◌↔◌, refl, sym, none, some, List, [], ◌∷◌, true, false, if◌then◌else◌, arith, Bool-cases,
  inl, inr,
}
use mathlib.Core.Path.{subst}
use buildat.Base.Keys.{Bytes, bytes_eq_iff, bytes_ltb}
use buildat.UpdateQueue.ValueSet.{Value, Entry, value_gtb, value_eq, insert, remove, find}

bytes_ltb_irrefl : (a : Bytes) → bytes_ltb a a ≡ false
bytes_ltb_irrefl [] = refl
bytes_ltb_irrefl (x ∷ a) = ground (arith, bytes_ltb_irrefl a)

bytes_ltb_trans :
    (a b c : Bytes) → bytes_ltb a b ≡ true → bytes_ltb b c ≡ true → bytes_ltb a c ≡ true
bytes_ltb_trans a b [] h k = absurd cc
bytes_ltb_trans [] b (z ∷ c) h k = refl
bytes_ltb_trans (x ∷ a) [] (z ∷ c) h k = absurd cc
bytes_ltb_trans (x ∷ a) (y ∷ b) (z ∷ c) h k = ground (arith, bytes_ltb_trans a b c)

bytes_ltb_total : (a b : Bytes) → bytes_ltb a b ≡ false → bytes_ltb b a ≡ false → a ≡ b
bytes_ltb_total [] [] h k = refl
bytes_ltb_total [] (y ∷ b) h k = absurd cc
bytes_ltb_total (x ∷ a) [] h k = absurd cc
bytes_ltb_total (x ∷ a) (y ∷ b) h k = ground (arith, bytes_ltb_total a b)

pub value_eq_iff : (a b : Value) → (value_eq a b ≡ true) ↔ (a ≡ b)
unfolding value_eq
value_eq_iff a b = ground (arith, bytes_eq_iff a.type b.type)

gtb_irrefl : (a : Value) → value_gtb a a ≡ false
unfolding value_gtb
gtb_irrefl a = ground (arith, bytes_ltb_irrefl a.type)

gtb_trans : (a b c : Value) → value_gtb a b ≡ true → value_gtb b c ≡ true → value_gtb a c ≡ true
unfolding value_gtb
gtb_trans a b c h k = ground (arith, bytes_ltb_trans c.type b.type a.type)

gtb_total : (a b : Value) → value_gtb a b ≡ false → value_gtb b a ≡ false → a ≡ b
unfolding value_gtb
gtb_total a b h k = ground (arith, bytes_ltb_total a.type b.type)

greater : (a b : Value) → value_gtb a b ≡ false → value_eq a b ≡ false → value_gtb b a ≡ true
greater a b le ne = ground (arith, gtb_total a b, value_eq_iff a b)

-- Every value of the list is below.
abbrev pub Below : Value → List Entry → Type 0
Below v [] = Unit {0}
Below v (e ∷ es) = (value_gtb v e.value ≡ true) × Below v es

-- In strictly descending order.
abbrev pub IsSorted : List Entry → Type 0
IsSorted [] = Unit {0}
IsSorted (e ∷ es) = Below e.value es × IsSorted es

Below-trans : (a b : Value) (es : List Entry) → value_gtb a b ≡ true → Below b es → Below a es
Below-trans a b [] h k = tt
Below-trans a b (e ∷ es) h (k, ks) = (gtb_trans a b e.value h k, Below-trans a b es h ks)

find-Below : (v : Value) (es : List Entry) → Below v es → find v es ≡ none
unfolding find
find-Below v [] h = refl
find-Below v (e ∷ es) (h, hs) =
    ground (arith, gtb_trans v e.value v, gtb_irrefl v, value_eq_iff e.value v)

insert-Below :
    (a v : Value) (it : ℕ) (es : List Entry)
    → value_gtb a v ≡ true
    → Below a es
    → Below a (insert v it es)
unfolding insert
insert-Below a v it [] h k = (h, tt)
insert-Below a v it (e ∷ es) h (k, ks) = elim (Bool-cases (value_gtb e.value v)) [
  | inl gt ↦ rw gt (k, insert-Below a v it es h ks)
  | inr le ↦ elim (Bool-cases (value_eq e.value v)) [
    | inl eq ↦ rw (le, eq) (h, ks)
    | inr ne ↦ rw (le, ne) (h, (k, ks))
  ]
]

pub insert-IsSorted :
    (v : Value) (it : ℕ) (es : List Entry) → IsSorted es → IsSorted (insert v it es)
unfolding insert
insert-IsSorted v it [] h = (tt, tt)
insert-IsSorted v it (e ∷ es) (h, hs) = elim (Bool-cases (value_gtb e.value v)) [
  | inl gt ↦ rw gt (insert-Below e.value v it es gt h, insert-IsSorted v it es hs)
  | inr le ↦ elim (Bool-cases (value_eq e.value v)) [
    | inl eq ↦ rw (le, eq) (subst (λ a. Below a es) ((value_eq_iff e.value v).0 eq) h, hs)
    | inr ne ↦
        let gt = greater e.value v le ne in
        rw (le, ne) ((gt, Below-trans v e.value es gt h), (h, hs))
  ]
]

pub find-insert :
    (u v : Value) (it : ℕ) (es : List Entry)
    → IsSorted es
    → find u (insert v it es) ≡ (if value_eq v u then some it else find u es)
unfolding find insert
find-insert u v it [] h = ground (arith, value_eq_iff v u, gtb_irrefl u)
find-insert u v it (e ∷ es) (h, hs) = elim (Bool-cases (value_gtb e.value v)) [
  | inl gt ↦ ground (arith, gt, find-insert u v it es hs, value_eq_iff v u)
  | inr le ↦ elim (Bool-cases (value_eq e.value v)) [
    | inl eq ↦ ground (
      arith,
      le,
      eq,
      value_eq_iff e.value v,
      value_eq_iff v u,
      value_eq_iff e.value u,
      gtb_irrefl u,
    )
    | inr ne ↦ elim (Bool-cases (value_gtb v u)) [
      | inl first ↦ ground (arith, le, ne, first, value_eq_iff v u, gtb_irrefl u)
      | inr not_first ↦ elim (Bool-cases (value_eq v u)) [
        | inl same ↦ ground (arith, le, ne, not_first, same)
        | inr other ↦
            let gt = greater e.value v le ne in
            let up = greater v u not_first other in
            let far = gtb_trans u v e.value up gt in
            rw (le, ne, not_first, other)
              (sym (find-Below u (e ∷ es) (far, Below-trans u e.value es far h)))
      ]
    ]
  ]
]

pub Below-remove : (a v : Value) (es : List Entry) → Below a es → Below a (remove v es)
unfolding remove
Below-remove a v [] h = h
Below-remove a v (e ∷ es) (h, hs) = elim (Bool-cases (value_gtb e.value v)) [
  | inl gt ↦ rw gt (h, Below-remove a v es hs)
  | inr le ↦ rw le hs
]

pub remove-IsSorted : (v : Value) (es : List Entry) → IsSorted es → IsSorted (remove v es)
unfolding remove
remove-IsSorted v [] h = h
remove-IsSorted v (e ∷ es) (h, hs) = elim (Bool-cases (value_gtb e.value v)) [
  | inl gt ↦ rw gt (Below-remove e.value v es h, remove-IsSorted v es hs)
  | inr le ↦ rw le hs
]

-- remove() of a value that is there erases its entry only.
pub find-remove :
    (u v : Value) (it : ℕ) (es : List Entry)
    → IsSorted es
    → find v es ≡ some it
    → find u (remove v es) ≡ (if value_eq v u then none else find u es)
unfolding find remove
find-remove u v it [] h there = absurd cc
find-remove u v it (e ∷ es) (h, hs) there = elim (Bool-cases (value_gtb e.value v)) [
  | inl gt ↦ ground (arith, gt, there, find-remove u v it es hs, value_eq_iff v u)
  | inr le ↦ elim (Bool-cases (value_eq e.value v)) [
    | inr ne ↦ absurd (ground (arith, le, ne, there))
    | inl eq ↦ elim (Bool-cases (value_gtb e.value u)) [
      | inl gt ↦ ground (arith, le, eq, gt, value_eq_iff e.value v, value_eq_iff v u, gtb_irrefl u)
      | inr up ↦ elim (Bool-cases (value_eq e.value u)) [
        | inl same ↦ ground (
          arith,
          le,
          up,
          same,
          value_eq_iff e.value u,
          value_eq_iff e.value v,
          value_eq_iff v u,
          find-Below u es (subst (λ a. Below a es) ((value_eq_iff e.value u).0 same) h),
        )
        | inr other ↦
            let far = greater e.value u up other in
            ground (
              arith,
              le,
              up,
              other,
              eq,
              value_eq_iff e.value v,
              value_eq_iff v u,
              value_eq_iff e.value u,
              find-Below u es (Below-trans u e.value es far h),
            )
      ]
    ]
  ]
]
