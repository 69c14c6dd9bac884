-- ===== src/UpdateQueue/Invariant.antt =====
-- The invariant of SpatialUpdateQueue (src/lua_bindings/spatial_update_queue.cpp).
use buildat.Base.{
  ℕ, ◌<◌, ◌≡◌, none, some, [], if◌then◌else◌, ◌==◌, arith, length, Bool-cases, Option-cases, ==_iff,
  inl, inr,
}
use mathlib.Core.Path.{subst}
use buildat.UpdateQueue.ValueSet.{Value, value_eq, insert, remove, find}
use buildat.UpdateQueue.Find.{
  IsSorted, insert-IsSorted, remove-IsSorted, find-insert, find-remove, value_eq_iff,
}
use buildat.UpdateQueue.Queue.{
  Numbers, Item, UpdateQueue, item_at, erase, insert_item, enqueue, take_out, place_item,
}
use buildat.UpdateQueue.Items.{
  IsUnique, IsNumbers, IsDescending, item_at-erase, erase-IsUnique, length-erase,
  erase-IsDescending, insert_item-IsDescending, length-insert_item, item_at-insert_item,
  insert_item-IsUnique,
}

module _ {F P : Type 0} (num : Numbers F P) where
  -- The items are in descending order, the length is theirs, and the entries of the value set are
  -- the values of the items, with the places of the items.
  pub record IsQueue (q : UpdateQueue F P) : Type 0 where
    pub descending : IsDescending num q.queue
    pub counted : q.queue_length ≡ length q.queue
    pub unique : IsUnique q.queue
    pub fresh : (k : ℕ) (x : Item F P) → item_at k q.queue ≡ some x → k < q.next_key
    pub sorted : IsSorted q.value_set
    pub entered :
        (k : ℕ) (x : Item F P) → item_at k q.queue ≡ some x → find x.value q.value_set ≡ some k
    pub placed :
        (v : Value) (k : ℕ)
        → find v q.value_set ≡ some k
        → (x : Item F P) × (item_at k q.queue ≡ some x) × (x.value ≡ v)

  pub none_found : (u : Value) (k : ℕ) → find u [] ≡ some k → ⊥
  unfolding find
  none_found u k e = cc

  next_key_free : (q : UpdateQueue F P) → IsQueue q → item_at q.next_key q.queue ≡ none
  next_key_free q v = elim (Option-cases (item_at q.next_key q.queue)) [
    | inl e ↦ e
    | inr (x, e) ↦ absurd (omega (arith, v.fresh q.next_key x e))
  ]

  enqueue-IsQueue :
      (item : Item F P) (q : UpdateQueue F P)
      → IsNumbers num
      → IsQueue q
      → find item.value q.value_set ≡ none
      → IsQueue (enqueue num item q)
  enqueue-IsQueue item q n v absent = record {
    descending = insert_item-IsDescending num x q.queue n v.descending;
    counted = omega (arith, length-insert_item num x q.queue, v.counted);
    unique = insert_item-IsUnique num x q.queue free v.unique;
    fresh = λ k y e. ground (arith, e, at k, ==_iff q.next_key k, v.fresh k y);
    sorted = insert-IsSorted item.value q.next_key q.value_set v.sorted;
    entered = λ k y e. ground (
      arith,
      e,
      at k,
      ==_iff q.next_key k,
      v.entered k y,
      found y.value,
      value_eq_iff item.value y.value,
    );
    placed = λ u k e. elim (Bool-cases (value_eq item.value u)) [
      | inl same ↦ (
        x,
        ground (arith, e, same, found u, at k, ==_iff q.next_key k),
        (value_eq_iff item.value u).0 same,
      )
      | inr other ↦
          let (y, there, value) = v.placed u k (ground (arith, e, other, found u)) in
          (y, ground (arith, there, at k, ==_iff q.next_key k, v.fresh k y), value)
    ];
  }
    where
      x : Item F P
      x = record item { key = q.next_key }

      free : item_at q.next_key q.queue ≡ none
      free = next_key_free q v

      at :
          (k : ℕ)
          → item_at k (insert_item num x q.queue)
            ≡ (if q.next_key == k then some x else item_at k q.queue)
      at k = item_at-insert_item num x k q.queue free

      found :
          (u : Value)
          → find u (insert item.value q.next_key q.value_set)
            ≡ (if value_eq item.value u then some q.next_key else find u q.value_set)
      found u = find-insert u item.value q.next_key q.value_set v.sorted

  -- Taking out the item of a value, which remove() finds again.
  pub take_out-IsQueue :
      (it : ℕ) (old : Item F P) (q : UpdateQueue F P)
      → IsQueue q
      → item_at it q.queue ≡ some old
      → IsQueue (take_out it old.value q) × (find old.value (remove old.value q.value_set) ≡ none)
  take_out-IsQueue it old q v there = (
    record {
      descending = erase-IsDescending num it q.queue v.descending;
      counted = ground (arith, length-erase it q.queue old there, v.counted);
      unique = erase-IsUnique it q.queue v.unique;
      fresh = λ k y e. v.fresh k y (ground (arith, e, at k));
      sorted = remove-IsSorted old.value q.value_set v.sorted;
      entered = λ k y e. ground (
        arith,
        e,
        at k,
        there,
        ==_iff it k,
        v.entered k y,
        v.entered it old there,
        found y.value,
        value_eq_iff old.value y.value,
      );
      placed = λ u k e.
          let (y, at_k, value) = v.placed u k (ground (arith, e, found u)) in
          (
            y,
            ground (
              arith,
              at_k,
              value,
              there,
              at k,
              ==_iff it k,
              e,
              found u,
              value_eq_iff old.value u,
            ),
            value,
          );
    },
    ground (arith, found old.value, value_eq_iff old.value old.value),
  )
    where
      at : (k : ℕ) → item_at k (erase it q.queue) ≡ (if it == k then none else item_at k q.queue)
      at k = item_at-erase it k q.queue v.unique

      found :
          (u : Value)
          → find u (remove old.value q.value_set)
            ≡ (if value_eq old.value u then none else find u q.value_set)
      found u = find-remove u old.value it q.value_set v.sorted (v.entered it old there)

  pub place_item-IsQueue :
      (item : Item F P) (q : UpdateQueue F P)
      → IsNumbers num
      → IsQueue q
      → IsQueue (place_item num item q)
  unfolding place_item
  place_item-IsQueue item q n v = elim (Option-cases (find item.value q.value_set)) [
    | inl e ↦ rw (e, place_item) (enqueue-IsQueue item q n v e)
    | inr (it, e) ↦
        let (old, there, same) = v.placed item.value it e in
        rw (e, there, place_item) (replaced it old there same)
  ]
    where
      replaced :
          (it : ℕ) (old : Item F P)
          → item_at it q.queue ≡ some old
          → old.value ≡ item.value
          → IsQueue
              (if num.ltb old.fw item.fw then q else enqueue num item (take_out it item.value q))
      replaced it old there same = elim (Bool-cases (num.ltb old.fw item.fw)) [
        | inl e ↦ rw e v
        | inr e ↦
            let (taken, absent) = take_out-IsQueue it old q v there in
            rw e (
              enqueue-IsQueue item (take_out it item.value q) n
                (subst (λ u. IsQueue (take_out it u q)) same taken)
                (subst (λ u. find u (remove u q.value_set) ≡ none) same absent))
      ]
