-- ===== src/UpdateQueue/Items.antt =====
-- The list of items of an update queue (src/lua_bindings/spatial_update_queue.cpp).
use buildat.Base.{
  ℕ, suc, ◌≡◌, refl, none, some, List, [], ◌∷◌, true, false, if◌then◌else◌, ◌==◌, arith, length,
  Bool-cases, ==_iff, inl, inr,
}
use buildat.UpdateQueue.Queue.{Numbers, Item, item_at, erase, last, pop_back, item_gtb, insert_item}

module _ {F P : Type 0} where
  -- No two items have the same key.
  abbrev pub IsUnique : List (Item F P) → Type 0
  IsUnique [] = Unit {0}
  IsUnique (i ∷ is) = (item_at i.key is ≡ none) × IsUnique is

  pub item_at-key : (k : ℕ) (l : List (Item F P)) (x : Item F P) → item_at k l ≡ some x → x.key ≡ k
  item_at-key k [] x h = absurd cc
  item_at-key k (i ∷ is) x h = ground (arith, ==_iff i.key k, item_at-key k is x)

  pub item_at-erase :
      (it k : ℕ) (l : List (Item F P))
      → IsUnique l
      → item_at k (erase it l) ≡ (if it == k then none else item_at k l)
  item_at-erase it k [] h = ground arith
  item_at-erase it k (i ∷ is) (h, hs) =
      ground (arith, item_at-erase it k is hs, ==_iff i.key it, ==_iff i.key k, ==_iff it k)

  pub erase-IsUnique : (it : ℕ) (l : List (Item F P)) → IsUnique l → IsUnique (erase it l)
  erase-IsUnique it [] h = tt
  erase-IsUnique it (i ∷ is) (h, hs) = elim (Bool-cases (i.key == it)) [
    | inl e ↦ rw e hs
    | inr e ↦ rw e (ground (arith, h, item_at-erase it i.key is hs), erase-IsUnique it is hs)
  ]

  pub length-erase :
      (it : ℕ) (l : List (Item F P)) (x : Item F P)
      → item_at it l ≡ some x
      → length l ≡ suc (length (erase it l))
  length-erase it [] x h = absurd cc
  length-erase it (i ∷ is) x h = ground (arith, length-erase it is x)

  pub item_at-last :
      (l : List (Item F P)) (x : Item F P) → IsUnique l → last l ≡ some x → item_at x.key l ≡ some x
  item_at-last [] x h e = absurd cc
  item_at-last (i ∷ []) x h e = ground (arith, e)
  item_at-last (i ∷ j ∷ is) x (h, hs) e =
      ground (arith, h, item_at-last (j ∷ is) x hs e, ==_iff i.key x.key)

  pub pop_back-erase :
      (l : List (Item F P)) (x : Item F P)
      → IsUnique l
      → last l ≡ some x
      → pop_back l ≡ erase x.key l
  pop_back-erase [] x h e = absurd cc
  pop_back-erase (i ∷ []) x h e = ground (arith, e)
  pop_back-erase (i ∷ j ∷ is) x (h, hs) e =
      ground
        (arith, h, item_at-last (j ∷ is) x hs e, pop_back-erase (j ∷ is) x hs e, ==_iff i.key x.key)

module _ {F P : Type 0} (num : Numbers F P) where
  -- Floats without NaN: the comparison is a strict weak order.
  pub record IsNumbers : Type 0 where
    pub asym : (a b : F) → num.ltb a b ≡ true → num.ltb b a ≡ false
    pub negtrans : (a b c : F) → num.ltb a b ≡ false → num.ltb b c ≡ false → num.ltb a c ≡ false

  gtb_asym : (a b : Item F P) → IsNumbers → item_gtb num a b ≡ true → item_gtb num b a ≡ false
  unfolding item_gtb
  gtb_asym a b n h = ground (arith, n.asym b.fw a.fw)

  gtb_negtrans :
      (a b c : Item F P)
      → IsNumbers
      → item_gtb num a b ≡ false
      → item_gtb num b c ≡ false
      → item_gtb num a c ≡ false
  unfolding item_gtb
  gtb_negtrans a b c n h k = ground (arith, n.negtrans c.fw b.fw a.fw)

  -- No item of the list is greater.
  abbrev pub NoneAbove : Item F P → List (Item F P) → Type 0
  NoneAbove x [] = Unit {0}
  NoneAbove x (i ∷ is) = (item_gtb num i x ≡ false) × NoneAbove x is

  -- In descending order.
  abbrev pub IsDescending : List (Item F P) → Type 0
  IsDescending [] = Unit {0}
  IsDescending (i ∷ is) = NoneAbove i is × IsDescending is

  NoneAbove-trans :
      (x y : Item F P) (l : List (Item F P))
      → IsNumbers
      → item_gtb num y x ≡ false
      → NoneAbove y l
      → NoneAbove x l
  NoneAbove-trans x y [] n h k = tt
  NoneAbove-trans x y (i ∷ is) n h (k, ks) =
      (gtb_negtrans i y x n k h, NoneAbove-trans x y is n h ks)

  NoneAbove-erase :
      (x : Item F P) (it : ℕ) (l : List (Item F P)) → NoneAbove x l → NoneAbove x (erase it l)
  NoneAbove-erase x it [] h = tt
  NoneAbove-erase x it (i ∷ is) (h, hs) = elim (Bool-cases (i.key == it)) [
    | inl e ↦ rw e hs
    | inr e ↦ rw e (h, NoneAbove-erase x it is hs)
  ]

  pub erase-IsDescending :
      (it : ℕ) (l : List (Item F P)) → IsDescending l → IsDescending (erase it l)
  erase-IsDescending it [] h = tt
  erase-IsDescending it (i ∷ is) (h, hs) = elim (Bool-cases (i.key == it)) [
    | inl e ↦ rw e hs
    | inr e ↦ rw e (NoneAbove-erase i it is h, erase-IsDescending it is hs)
  ]

  NoneAbove-insert_item :
      (y x : Item F P) (l : List (Item F P))
      → item_gtb num x y ≡ false
      → NoneAbove y l
      → NoneAbove y (insert_item num x l)
  unfolding insert_item
  NoneAbove-insert_item y x [] h k = (h, tt)
  NoneAbove-insert_item y x (i ∷ is) h (k, ks) = elim (Bool-cases (item_gtb num i x)) [
    | inl e ↦ rw e (k, NoneAbove-insert_item y x is h ks)
    | inr e ↦ rw e (h, (k, ks))
  ]

  pub insert_item-IsDescending :
      (x : Item F P) (l : List (Item F P))
      → IsNumbers
      → IsDescending l
      → IsDescending (insert_item num x l)
  unfolding insert_item
  insert_item-IsDescending x [] n h = (tt, tt)
  insert_item-IsDescending x (i ∷ is) n (h, hs) = elim (Bool-cases (item_gtb num i x)) [
    | inl e ↦
        rw e (NoneAbove-insert_item i x is (gtb_asym i x n e) h, insert_item-IsDescending x is n hs)
    | inr e ↦ rw e ((e, NoneAbove-trans x i is n e h), (h, hs))
  ]

  pub length-insert_item :
      (x : Item F P) (l : List (Item F P)) → length (insert_item num x l) ≡ suc (length l)
  unfolding insert_item
  length-insert_item x [] = refl
  length-insert_item x (i ∷ is) = ground (arith, length-insert_item x is)

  pub item_at-insert_item :
      (x : Item F P) (k : ℕ) (l : List (Item F P))
      → item_at x.key l ≡ none
      → item_at k (insert_item num x l) ≡ (if x.key == k then some x else item_at k l)
  unfolding insert_item
  item_at-insert_item x k [] h = refl
  item_at-insert_item x k (i ∷ is) h =
      ground
        (arith, h, item_at-insert_item x k is, ==_iff x.key k, ==_iff i.key k, ==_iff i.key x.key)

  pub insert_item-IsUnique :
      (x : Item F P) (l : List (Item F P))
      → item_at x.key l ≡ none
      → IsUnique l
      → IsUnique (insert_item num x l)
  unfolding insert_item
  insert_item-IsUnique x [] h u = (refl, tt)
  insert_item-IsUnique x (i ∷ is) h (u, us) = elim (Bool-cases (item_gtb num i x)) [
    | inr e ↦ rw e (h, (u, us))
    | inl e ↦ rw e (
      ground (
        arith,
        h,
        u,
        item_at-insert_item x i.key is (later h),
        ==_iff i.key x.key,
        ==_iff x.key i.key,
      ),
      insert_item-IsUnique x is (later h) us,
    )
  ]
    where
      later : item_at x.key (i ∷ is) ≡ none → item_at x.key is ≡ none
      later h = ground arith

  gtb_irrefl : (x : Item F P) → IsNumbers → item_gtb num x x ≡ false
  gtb_irrefl x n = elim (Bool-cases (item_gtb num x x)) [ inl e ↦ gtb_asym x x n e | inr e ↦ e ]

  NoneAbove-last :
      (y x : Item F P) (l : List (Item F P))
      → NoneAbove y l
      → last l ≡ some x
      → item_gtb num x y ≡ false
  NoneAbove-last y x [] h e = absurd cc
  NoneAbove-last y x (i ∷ []) (h, hs) e = ground (arith, h, e)
  NoneAbove-last y x (i ∷ j ∷ is) (h, hs) e = NoneAbove-last y x (j ∷ is) hs e

  -- The last item is no greater than any.
  pub last-least :
      (l : List (Item F P)) (x y : Item F P) (k : ℕ)
      → IsNumbers
      → IsDescending l
      → last l ≡ some x
      → item_at k l ≡ some y
      → item_gtb num x y ≡ false
  last-least [] x y k n h e at = absurd cc
  last-least (i ∷ []) x y k n h e at = ground (arith, e, at, gtb_irrefl x n)
  last-least (i ∷ j ∷ is) x y k n (h, hs) e at = elim (Bool-cases (i.key == k)) [
    | inl same ↦ ground (arith, same, at, NoneAbove-last i x (j ∷ is) h e)
    | inr other ↦ last-least (j ∷ is) x y k n hs e (ground (arith, other, at))
  ]
