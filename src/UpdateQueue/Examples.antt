-- ===== src/UpdateQueue/Examples.antt =====
-- The update queue over numbers (src/lua_bindings/spatial_update_queue.cpp).
use buildat.Base.{ℕ, ◌+◌, ◌-◌, ◌/◌, ◌≡◌, refl, some, List, [], ◌∷◌, false, ltb, ◌==◌, arith}
use buildat.UpdateQueue.ValueSet.{insert, remove, find, value_gtb, value_eq}
use buildat.UpdateQueue.Queue.{
  Numbers, Item, item_at, last, item_gtb, insert_item, update_queue, Call, putting, setting_p,
  updating, weigh, place_item, put_item, update, set_p, call, run, get_length,
}
use buildat.UpdateQueue.Items.{IsNumbers}
use buildat.UpdateQueue.Invariant.{IsQueue}
use buildat.UpdateQueue.Calls.{run-IsQueue}

-- 1000 is the mark for a number that is not there.
abbrev num : Numbers ℕ ℕ
num = record {
  minus_one = 1000;
  one = 1;
  twenty = 20;
  ltb = ltb;
  eqb = λ a b. a == b;
  divide = λ a b. a / b;
  distance = λ a b. (a - b) + (b - a);
}

num-IsNumbers : IsNumbers num
num-IsNumbers = record { asym = λ a b h. ground arith; negtrans = λ a b c h k. ground arith }

abbrev item : ℕ → ℕ → Item ℕ ℕ
item p node_id = record {
  key = 0;
  p = p;
  value = record { type = b'g' ∷ []; node_id = node_id };
  near_weight = 1;
  near_trigger_d = 2;
  far_weight = 1;
  far_trigger_d = 1000;
  f = 1000;
  fw = 1000;
}

-- Two items for one node: the nearer one stays. Then the queue moves away and is filled again.
abbrev calls : List (Call ℕ ℕ)
calls =
    putting (item 40 7)
    ∷ putting (item 60 8)
    ∷ putting (item 10 7)
    ∷ setting_p 50
    ∷ updating 1
    ∷ putting (item 44 9)
    ∷ []

calls_length : get_length (run num calls (update_queue 0)) ≡ 2
unfolding run call put_item weigh place_item insert remove find value_gtb value_eq insert_item
    item_gtb set_p update
calls_length = refl

run-IsQueue_example :
    IsQueue num (run num calls (update_queue 0))
    × ((x y : Item ℕ ℕ) (k : ℕ)
        → last (run num calls (update_queue 0)).queue ≡ some x
        → item_at k (run num calls (update_queue 0)).queue ≡ some y
        → item_gtb num x y ≡ false)
run-IsQueue_example = run-IsQueue num calls 0 num-IsNumbers
