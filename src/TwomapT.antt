-- ===== src/TwomapT.antt =====
-- twomapT.h: two maps that are meant to be inverse to each other, for keys and values of type int.
pub mod Inverse
use teachserver.Base.{ℕ, Option, none, some, List, []}
use teachserver.StdMap
use teachserver.StdMap.{StdMap}

pub record TwomapT : Type 0 where
  pub kv : StdMap ℕ
  pub vk : StdMap ℕ

abbrev pub empty_map : TwomapT
empty_map = record { kv = []; vk = [] }

-- `m[k]`: the value, and the map in which a missing key has got a 0.
unfoldable pub subscript : ℕ → StdMap ℕ → ℕ × StdMap ℕ
subscript k m = elim (StdMap.find k m) [ none ↦ (0, StdMap.insert k 0 m) | some v ↦ (v, m) ]

unfoldable pub insert : ℕ → ℕ → TwomapT → TwomapT
insert k v t = record {
  kv = StdMap.insert k v (StdMap.erase k t.kv);
  vk = StdMap.insert v k (StdMap.erase v t.vk);
}

unfoldable pub value : ℕ → TwomapT → ℕ × TwomapT
unfolding subscript
value k t = let (v, m) = subscript k t.kv in (v, record t { kv = m })

unfoldable pub key : ℕ → TwomapT → ℕ × TwomapT
unfolding subscript
key v t = let (k, m) = subscript v t.vk in (k, record t { vk = m })

unfoldable pub del_key : ℕ → TwomapT → TwomapT
unfolding subscript
del_key k t =
    let (v, m) = subscript k t.kv in record { kv = StdMap.erase k m; vk = StdMap.erase v t.vk }

unfoldable pub del_value : ℕ → TwomapT → TwomapT
unfolding subscript
del_value v t =
    let (k, m) = subscript v t.vk in record { kv = StdMap.erase k t.kv; vk = StdMap.erase v m }
