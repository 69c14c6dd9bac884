-- ===== src/Base/Sets.antt =====
-- `std::set<ss_>` as its elements in the order of iteration.
use mathlib.Core.List.{List, [], ◌∷◌, ◌++◌}
use mathlib.Core.Path.{◌≡◌, refl}
use mathlib.Core.Bool.{Bool, false, ◌||◌}
use native.Mathlib.Omega.{arith}
use buildat.Base.Tests.{if◌then◌else◌}
use buildat.Base.Keys.{Bytes, bytes_eq, bytes_eq_iff, bytes_ltb}

-- `s.count(k)`, as a Boolean.
unfoldable pub contains : List Bytes → Bytes → Bool
contains [] k = false
contains (x ∷ xs) k = bytes_eq x k || contains xs k

-- `s.insert(k)`: nothing if `k` is there, else before the first greater element.
unfoldable pub insert : Bytes → List Bytes → List Bytes
insert k [] = k ∷ []
insert k (x ∷ xs) =
    let rest = x ∷ insert k xs in
    if bytes_eq x k then x ∷ xs else if bytes_ltb k x then k ∷ x ∷ xs else rest

pub contains-insert :
    (k j : Bytes) (xs : List Bytes) → contains (insert k xs) j ≡ (bytes_eq k j || contains xs j)
unfolding contains insert
contains-insert k j [] = refl
contains-insert k j (x ∷ xs) =
    ground (arith, contains-insert k j xs, bytes_eq_iff k j, bytes_eq_iff x k, bytes_eq_iff x j)

pub contains-append :
    (k : Bytes) (xs ys : List Bytes) → contains (xs ++ ys) k ≡ (contains xs k || contains ys k)
unfolding contains
contains-append k [] ys = refl
contains-append k (x ∷ xs) ys = ground (arith, contains-append k xs ys)
