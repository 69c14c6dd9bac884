-- ===== src/UpdateQueue/Queue.antt =====
-- SpatialUpdateQueue (src/lua_bindings/spatial_update_queue.cpp). The `float`s and the positions
-- are a parameter.
use buildat.Base.{
  ℕ, zero, suc, Option, none, some, List, [], ◌∷◌, Bool, true, false, not, ◌&&◌, ◌||◌,
  if◌then◌else◌, ◌==◌, decrement,
}
use buildat.UpdateQueue.ValueSet.{Value, Entry, insert, remove, find}

-- `ltb` and `eqb` are the comparisons of floats, `distance` the length of a difference.
pub record Numbers (F : Type 0) (P : Type 0) : Type 0 where
  pub minus_one : F
  pub one : F
  pub twenty : F
  pub ltb : F → F → Bool
  pub eqb : F → F → Bool
  pub divide : F → F → F
  pub distance : P → P → F

-- `key` is where a queue has the item.
pub record Item (F : Type 0) (P : Type 0) : Type 0 where
  pub key : ℕ
  pub p : P
  pub value : Value
  pub near_weight : F
  pub near_trigger_d : F
  pub far_weight : F
  pub far_trigger_d : F
  pub f : F
  pub fw : F

-- `next_key` is a place where no item is.
pub record UpdateQueue (F : Type 0) (P : Type 0) : Type 0 where
  pub p : P
  pub queue_oldest_p : P
  pub queue_length : ℕ
  pub queue : List (Item F P)
  pub old_queue : List (Item F P)
  pub value_set : List Entry
  pub next_key : ℕ

module _ {F P : Type 0} where
  abbrev pub item_at : ℕ → List (Item F P) → Option (Item F P)
  item_at key [] = none
  item_at key (i ∷ is) = if i.key == key then some i else item_at key is

  -- `m_queue.erase(it)`
  abbrev pub erase : ℕ → List (Item F P) → List (Item F P)
  erase key [] = []
  erase key (i ∷ is) = let later = i ∷ erase key is in if i.key == key then is else later

  -- `m_old_queue.back()` and what pop_back() leaves.
  abbrev pub last : List (Item F P) → Option (Item F P)
  last [] = none
  last (i ∷ []) = some i
  last (i ∷ j ∷ is) = last (j ∷ is)

  abbrev pub pop_back : List (Item F P) → List (Item F P)
  pop_back [] = []
  pop_back (i ∷ []) = []
  pop_back (i ∷ j ∷ is) = i ∷ pop_back (j ∷ is)

  -- The old item of the value at `it` is taken out.
  abbrev pub take_out : ℕ → Value → UpdateQueue F P → UpdateQueue F P
  take_out it value q = record q {
    queue = erase it q.queue;
    queue_length = decrement q.queue_length;
    value_set = remove value q.value_set;
  }

module _ {F P : Type 0} (num : Numbers F P) where
  -- Item::operator>
  unfoldable pub item_gtb : Item F P → Item F P → Bool
  item_gtb a b =
      if num.ltb num.one a.f && not (num.ltb num.one b.f)
      then true
      else if not (num.ltb num.one a.f) && num.ltb num.one b.f
      then false
      else num.ltb b.fw a.fw

  -- One of the two triggers: the smaller weight is kept, as the test says.
  abbrev pub consider : F → F → Item F P → Item F P
  consider f fw item =
      if num.eqb item.fw num.minus_one
        || (num.ltb fw item.fw && (num.eqb item.f num.minus_one || num.ltb f item.f))
      then record item { f = f; fw = fw }
      else item

  abbrev pub consider_near : F → Item F P → Item F P
  consider_near d item =
      if num.eqb item.near_trigger_d num.minus_one
      then item
      else let f_near = num.divide d item.near_trigger_d in
        consider f_near (num.divide f_near item.near_weight) item

  abbrev pub consider_far : F → Item F P → Item F P
  consider_far d item =
      if num.eqb item.far_trigger_d num.minus_one
      then item
      else let f_far = num.divide item.far_trigger_d d in
        consider f_far (num.divide f_far item.far_weight) item

  -- The item with its weights; `none` for an exception.
  unfoldable pub weigh : P → Item F P → Option (Item F P)
  weigh p item =
      let d = num.distance item.p p in
      let i =
        consider_far d (consider_near d (record item { f = num.minus_one; fw = num.minus_one })) in
      if num.eqb item.near_trigger_d num.minus_one && num.eqb item.far_trigger_d num.minus_one
      then none
      else if num.eqb i.f num.minus_one || num.eqb i.fw num.minus_one
      then none
      else some i

  -- Before the first item that is not greater.
  unfoldable pub insert_item : Item F P → List (Item F P) → List (Item F P)
  insert_item item [] = item ∷ []
  insert_item item (i ∷ is) =
      let later = i ∷ insert_item item is in if item_gtb i item then later else item ∷ i ∷ is

  abbrev pub enqueue : Item F P → UpdateQueue F P → UpdateQueue F P
  enqueue item q = record q {
    queue = insert_item (record item { key = q.next_key }) q.queue;
    queue_length = suc q.queue_length;
    value_set = insert item.value q.next_key q.value_set;
    next_key = suc q.next_key;
  }

  -- put_item() for an item with its weights.
  unfoldable pub place_item : Item F P → UpdateQueue F P → UpdateQueue F P
  place_item item q = elim (find item.value q.value_set) [
    | none ↦ enqueue item q
    | some it ↦ elim (item_at it q.queue) [
      | none ↦ q
      | some old_item ↦
          if num.ltb old_item.fw item.fw then q else enqueue item (take_out it item.value q)
    ]
  ]

  unfoldable pub put_item : Item F P → UpdateQueue F P → Option (UpdateQueue F P)
  put_item item q = elim (weigh q.p item) [ none ↦ none | some i ↦ some (place_item i q) ]

  -- update(): an exception ends it, and leaves the item in the old queue.
  unfoldable pub update : ℕ → UpdateQueue F P → UpdateQueue F P
  update zero q = q
  update (suc n) q = elim (last q.old_queue) [
    | none ↦ q
    | some item ↦ elim (put_item item q) [
      | none ↦ q
      | some q' ↦ update n (record q' { old_queue = pop_back q'.old_queue })
    ]
  ]

  unfoldable pub set_p : P → UpdateQueue F P → UpdateQueue F P
  set_p p q = elim q.old_queue [
    | i ∷ is ↦ record q { p = p }
    | [] ↦
        if num.ltb num.twenty (num.distance p q.queue_oldest_p)
        then record q {
          p = p;
          queue_length = 0;
          value_set = [];
          old_queue = q.queue;
          queue = [];
          queue_oldest_p = p;
        }
        else record q { p = p }
  ]

  -- `none`: the exception.
  unfoldable pub pop : UpdateQueue F P → Option (UpdateQueue F P)
  pop q = elim (last q.queue) [
    | none ↦ none
    | some item ↦ some (record q {
      value_set = remove item.value q.value_set;
      queue = pop_back q.queue;
      queue_length = decrement q.queue_length;
    })
  ]

module _ {F P : Type 0} where
  abbrev pub get_value : UpdateQueue F P → Option Value
  get_value q = elim (last q.queue) [ none ↦ none | some item ↦ some item.value ]

  abbrev pub get_length : UpdateQueue F P → ℕ
  get_length q = q.queue_length

  -- As constructed; the positions are the default ones.
  abbrev pub update_queue : P → UpdateQueue F P
  update_queue p = record {
    p = p;
    queue_oldest_p = p;
    queue_length = 0;
    queue = [];
    old_queue = [];
    value_set = [];
    next_key = 0;
  }

-- The calls that change a queue.
pub data Call (F : Type 0) (P : Type 0) : Type 0 where
  putting : Item F P → Call F P
  popping : Call F P
  setting_p : P → Call F P
  updating : ℕ → Call F P

module _ {F P : Type 0} (num : Numbers F P) where
  -- A call that throws leaves the queue as it is.
  unfoldable pub call : Call F P → UpdateQueue F P → UpdateQueue F P
  call (putting item) q = elim (put_item num item q) [ none ↦ q | some q' ↦ q' ]
  call popping q = elim (pop num q) [ none ↦ q | some q' ↦ q' ]
  call (setting_p p) q = set_p num p q
  call (updating max_operations) q = update num max_operations q

  unfoldable pub run : List (Call F P) → UpdateQueue F P → UpdateQueue F P
  run [] q = q
  run (c ∷ cs) q = run cs (call c q)
