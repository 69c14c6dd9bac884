-- ===== src/Server/Data.antt =====
-- The data that modules leave with the server and its load order (src/server/state.cpp).
use buildat.Base.{◌≡◌, ◌≢◌, [], arith}
use buildat.Base.Keys.{Bytes, bytes_eq_iff, bytes_eq_instance}
use buildat.Base.Map.{insert, lookup-insert, lookup-erase}
use buildat.Server.State.{State, tmp_store_data, tmp_restore_data}

-- What is stored under a name is restored once: a second call gives the empty string, and the data
-- of every other name is restored as it was before.
pub tmp_store_data-tmp_restore_data :
    (name content : Bytes) (s : State)
    → let restored = tmp_restore_data name (tmp_store_data name content s) in
      (restored.0 ≡ content)
      × ((tmp_restore_data name restored.1).0 ≡ [])
      × ((other : Bytes)
          → other ≢ name
          → (tmp_restore_data other restored.1).0 ≡ (tmp_restore_data other s).0)
unfolding tmp_restore_data tmp_store_data
tmp_store_data-tmp_restore_data name content s =
    let stored = insert name content s.tmp_data in
    (
      ground (arith, lookup-insert name name content s.tmp_data, bytes_eq_iff name name),
      ground (arith, lookup-erase name name stored, bytes_eq_iff name name),
      λ other apart. ground (
        arith,
        lookup-erase name other stored,
        lookup-insert name other content s.tmp_data,
        bytes_eq_iff name other,
      ),
    )
