-- ===== src/TwomapT/Inverse.antt =====
-- twomapT.h: how far the two maps are inverse to each other.
use teachserver.Base.{ℕ, ◌≡◌, ◌≢◌, some, arith, ◌==◌, if◌then◌else◌}
use teachserver.StdMap
use teachserver.StdMap.{StdMap}
use teachserver.StdMap.Laws.{IsOrdered, find-insert, find-erase, erase-IsOrdered, insert-IsOrdered}
use teachserver.TwomapT.{TwomapT, insert, value, key, del_key, subscript}

abbrev pub IsOrderedBoth : TwomapT → Type 0
IsOrderedBoth t = IsOrdered t.kv × IsOrdered t.vk

find-replace :
    (k v j : ℕ) (m : StdMap ℕ)
    → IsOrdered m
    → StdMap.find j (StdMap.insert k v (StdMap.erase k m))
      ≡ (if k == j then some v else StdMap.find j m)
find-replace k v j m o = ground (
  arith,
  find-insert k j v (StdMap.erase k m) (erase-IsOrdered k m o),
  find-erase k k m o,
  find-erase k j m o,
)

-- After a pair is inserted, its value is found under its key and its key under its value, and the
-- keys and values of all other pairs are found as before, also those of a pair that had the same key
-- or the same value.
pub insert-finds :
    (k v : ℕ) (t : TwomapT)
    → IsOrderedBoth t
    → ((value k (insert k v t)).0 ≡ v)
      × ((key v (insert k v t)).0 ≡ k)
      × ((j : ℕ) → j ≢ k → (value j (insert k v t)).0 ≡ (value j t).0)
      × ((u : ℕ) → u ≢ v → (key u (insert k v t)).0 ≡ (key u t).0)
      × IsOrderedBoth (insert k v t)
unfolding value key insert subscript
insert-finds k v t o = (
  ground (arith, find-replace k v k t.kv o.0),
  ground (arith, find-replace v k v t.vk o.1),
  λ j ne. ground (arith, find-replace k v j t.kv o.0),
  λ u ne. ground (arith, find-replace v k u t.vk o.1),
  (
    insert-IsOrdered k v _ (erase-IsOrdered k t.kv o.0),
    insert-IsOrdered v k _ (erase-IsOrdered v t.vk o.1),
  ),
)

-- Where a key gets a second value, its first value still leads to the key, also after the key was
-- deleted, so that the maps are not inverse to each other any more.
pub insert-stale :
    (k v v' : ℕ) (t : TwomapT)
    → IsOrderedBoth t
    → v ≢ v'
    → let t' = insert k v' (insert k v t) in
      ((value k t').0 ≡ v') × ((key v t').0 ≡ k) × ((key v (del_key k t')).0 ≡ k)
unfolding value key insert del_key subscript
insert-stale k v v' t o ne =
    let (a, b, c, d, o1) = insert-finds k v t o in
    let t1 = insert k v t in
    (
      ground (arith, find-replace k v' k t1.kv o1.0),
      ground (arith, find-replace v' k v t1.vk o1.1, find-replace v k v t.vk o.1),
      ground (
        arith,
        find-replace k v' k t1.kv o1.0,
        find-replace v' k v t1.vk o1.1,
        find-replace v k v t.vk o.1,
        find-erase v' v (insert k v' t1).vk
            (insert-IsOrdered v' k _ (erase-IsOrdered v' t1.vk o1.1)),
      ),
    )
