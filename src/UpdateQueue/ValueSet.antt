-- ===== src/UpdateQueue/ValueSet.antt =====
-- SpatialUpdateQueue::ValueSet (src/lua_bindings/spatial_update_queue.cpp). An iterator into the
-- queue is the key of an item.
use buildat.Base.{
  ℕ, Option, none, some, List, [], ◌∷◌, Bool, true, false, ◌&&◌, if◌then◌else◌, ltb, ◌==◌,
}
use buildat.Base.Keys.{Bytes, bytes_eq, bytes_ltb}

pub record Value : Type 0 where
  pub type : Bytes
  pub node_id : ℕ

pub record Entry : Type 0 where
  pub value : Value
  pub it : ℕ

-- Entry::operator>, which reads the values.
unfoldable pub value_gtb : Value → Value → Bool
value_gtb a b =
    if ltb b.node_id a.node_id
    then true
    else if ltb a.node_id b.node_id
    then false
    else bytes_ltb b.type a.type

unfoldable pub value_eq : Value → Value → Bool
value_eq a b = (a.node_id == b.node_id) && bytes_eq a.type b.type

-- From `std::lower_bound` on: the first entry that is not greater than the value.
unfoldable pub insert : Value → ℕ → List Entry → List Entry
insert value it [] = record { value = value; it = it } ∷ []
insert value it (e ∷ es) =
    let later = e ∷ insert value it es in
    if value_gtb e.value value
    then later
    else if value_eq e.value value
    then record { value = value; it = it } ∷ es
    else record { value = value; it = it } ∷ e ∷ es

-- remove() erases that entry, whatever its value.
unfoldable pub remove : Value → List Entry → List Entry
remove value [] = []
remove value (e ∷ es) =
    let later = e ∷ remove value es in if value_gtb e.value value then later else es

unfoldable pub find : Value → List Entry → Option ℕ
find value [] = none
find value (e ∷ es) =
    let later = find value es in
    if value_gtb e.value value then later else if value_eq e.value value then some e.it else none
