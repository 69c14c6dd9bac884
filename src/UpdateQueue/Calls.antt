-- ===== src/UpdateQueue/Calls.antt =====
-- That the calls of SpatialUpdateQueue keep its invariant
-- (src/lua_bindings/spatial_update_queue.cpp).
use buildat.Base.{
  ℕ, zero, suc, ◌≡◌, refl, some, List, [], ◌∷◌, false, if◌then◌else◌, arith, Bool-cases,
  Option-cases, inl, inr,
}
use mathlib.Core.Path.{subst}
use buildat.UpdateQueue.Queue.{
  Numbers, Item, UpdateQueue, item_at, last, pop_back, weigh, item_gtb, put_item, update, set_p,
  pop, update_queue, Call, putting, popping, setting_p, updating, call, run,
}
use buildat.UpdateQueue.Items.{IsNumbers, item_at-last, pop_back-erase, last-least}
use buildat.UpdateQueue.Invariant.{IsQueue, none_found, take_out-IsQueue, place_item-IsQueue}

module _ {F P : Type 0} (num : Numbers F P) where
  put_item-IsQueue :
      (item : Item F P) (q q' : UpdateQueue F P)
      → IsNumbers num
      → IsQueue num q
      → put_item num item q ≡ some q'
      → IsQueue num q'
  unfolding put_item
  put_item-IsQueue item q q' n v h = elim (Option-cases (weigh num q.p item)) [
    | inl e ↦ absurd (ground (arith, e, h))
    | inr (i, e) ↦ subst (IsQueue num) (ground (arith, e, h)) (place_item-IsQueue num i q n v)
  ]

  -- The old queue may change as it likes.
  old_queue-IsQueue :
      (l : List (Item F P)) (q : UpdateQueue F P)
      → IsQueue num q
      → IsQueue num (record q { old_queue = l })
  old_queue-IsQueue l q v = record {
    descending = v.descending;
    counted = v.counted;
    unique = v.unique;
    fresh = v.fresh;
    sorted = v.sorted;
    entered = v.entered;
    placed = v.placed;
  }

  update-IsQueue :
      (n : ℕ) (q : UpdateQueue F P) → IsNumbers num → IsQueue num q → IsQueue num (update num n q)
  unfolding update
  update-IsQueue zero q nums v = v
  update-IsQueue (suc n) q nums v = elim (Option-cases (last q.old_queue)) [
    | inl e ↦ rw (e, update) v
    | inr (item, e) ↦ elim (Option-cases (put_item num item q)) [
      | inl f ↦ rw (e, f, update) v
      | inr (q', f) ↦
          rw (e, f, update)
            (update-IsQueue n (record q' { old_queue = pop_back q'.old_queue }) nums
              (old_queue-IsQueue (pop_back q'.old_queue) q' (put_item-IsQueue item q q' nums v f)))
    ]
  ]

  set_p-IsQueue : (p : P) (q : UpdateQueue F P) → IsQueue num q → IsQueue num (set_p num p q)
  unfolding set_p
  set_p-IsQueue p q v =
      elim q.old_queue
        as (λ l. IsQueue num (elim l [
          | i ∷ is ↦ record q { p = p }
          | [] ↦
              if num.ltb num.twenty (num.distance p q.queue_oldest_p)
              then record q {
                p = p;
                queue_length = 0;
                value_set = [];
                old_queue = q.queue;
                queue = [];
                queue_oldest_p = p;
              }
              else record q { p = p }
        ])) [
          | i ∷ is ↦ moved
          | [] ↦ elim (Bool-cases (num.ltb num.twenty (num.distance p q.queue_oldest_p))) [
            | inl e ↦ rw e cleared
            | inr e ↦ rw e moved
          ]
        ]
    where
      moved : IsQueue num (record q { p = p })
      moved = record {
        descending = v.descending;
        counted = v.counted;
        unique = v.unique;
        fresh = v.fresh;
        sorted = v.sorted;
        entered = v.entered;
        placed = v.placed;
      }

      cleared : IsQueue num (record q {
        p = p;
        queue_length = 0;
        value_set = [];
        old_queue = q.queue;
        queue = [];
        queue_oldest_p = p;
      })
      cleared = record {
        descending = tt;
        counted = refl;
        unique = tt;
        fresh = λ k x e. absurd cc;
        sorted = tt;
        entered = λ k x e. absurd cc;
        placed = λ u k e. absurd (none_found num u k e);
      }

  pop-IsQueue : (q q' : UpdateQueue F P) → IsQueue num q → pop num q ≡ some q' → IsQueue num q'
  unfolding pop
  pop-IsQueue q q' v h = elim (Option-cases (last q.queue)) [
    | inl e ↦ absurd (ground (arith, e, h))
    | inr (item, e) ↦
        let there = item_at-last q.queue item v.unique e in
        let (taken, _) = take_out-IsQueue num item.key item q v there in
        subst (IsQueue num) (ground (arith, e, h, pop_back-erase q.queue item v.unique e)) taken
  ]

  update_queue-IsQueue : (p : P) → IsQueue num (update_queue p)
  update_queue-IsQueue p = record {
    descending = tt;
    counted = refl;
    unique = tt;
    fresh = λ k x e. absurd cc;
    sorted = tt;
    entered = λ k x e. absurd cc;
    placed = λ u k e. absurd (none_found num u k e);
  }

  call-IsQueue :
      (c : Call F P) (q : UpdateQueue F P)
      → IsNumbers num
      → IsQueue num q
      → IsQueue num (call num c q)
  unfolding call
  call-IsQueue (putting item) q n v = elim (Option-cases (put_item num item q)) [
    | inl e ↦ rw (e, call) v
    | inr (q', e) ↦ rw (e, call) (put_item-IsQueue item q q' n v e)
  ]
  call-IsQueue popping q n v = elim (Option-cases (pop num q)) [
    | inl e ↦ rw (e, call) v
    | inr (q', e) ↦ rw (e, call) (pop-IsQueue q q' v e)
  ]
  call-IsQueue (setting_p p) q n v = set_p-IsQueue p q v
  call-IsQueue (updating max_operations) q n v = update-IsQueue max_operations q n v

  calls-IsQueue :
      (cs : List (Call F P)) (q : UpdateQueue F P)
      → IsNumbers num
      → IsQueue num q
      → IsQueue num (run num cs q)
  unfolding run
  calls-IsQueue [] q n v = v
  calls-IsQueue (c ∷ cs) q n v = calls-IsQueue cs (call num c q) n (call-IsQueue c q n v)

  -- After any calls of put(), pop(), set_p() and update(), where floats are never NaN: the queue is
  -- in descending order, get_length() is its length, and the value set has one entry for each item,
  -- under the item's value and with its place, so that no value is twice in the queue and remove()
  -- never erases another value's entry. And the item that pop() takes next is greater than none.
  pub run-IsQueue :
      (cs : List (Call F P)) (p : P)
      → IsNumbers num
      → IsQueue num (run num cs (update_queue p))
        × ((x y : Item F P) (k : ℕ)
            → last (run num cs (update_queue p)).queue ≡ some x
            → item_at k (run num cs (update_queue p)).queue ≡ some y
            → item_gtb num x y ≡ false)
  run-IsQueue cs p n =
      let v = calls-IsQueue cs (update_queue p) n (update_queue-IsQueue p) in
      (
        v,
        λ x y k e at. last-least num (run num cs (update_queue p)).queue x y k n v.descending e at,
      )
