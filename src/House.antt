-- ===== src/House.antt =====
-- content/makehouse.cpp: the pictures that a group of students arranges, and the group itself.
-- Coordinates, angle and zoom are the floats' bit patterns: the server only stores them.
pub mod Layers
pub mod Nodes
pub mod Send
pub mod Order
pub mod Group
use teachserver.Base.{ℕ, Option, none, some, List, [], ◌∷◌, ◌==◌, if◌then◌else◌}
use teachserver.StdMap
use teachserver.StdMap.{StdMap}

pub record Node : Type 0 where
  pub client_fd : ℕ
  pub node_id : ℕ
  pub x : ℕ
  pub y : ℕ
  pub angle : ℕ
  pub zoom : ℕ
  pub name : List ℕ

-- `CNode (client_fd)`, then `set_node_id` and `set_name`.
unfoldable pub new_node : ℕ → ℕ → List ℕ → Node
new_node client_fd node_id name = record {
  client_fd = client_fd;
  node_id = node_id;
  x = 0;
  y = 0;
  angle = 0;
  zoom = 0;
  name = name;
}

-- CNode::update. The result 0 is success, 1 is refusal.
unfoldable pub update_node : Node → ℕ → ℕ → ℕ → ℕ → ℕ → Node × ℕ
update_node n client_fd x y angle zoom =
    if n.client_fd == client_fd
    then (record n { x = x; y = y; angle = angle; zoom = zoom }, 0)
    else (n, 1)

unfoldable pub lock_node : Node → ℕ → Node × ℕ
lock_node n client_fd = if n.client_fd == 0 then (record n { client_fd = client_fd }, 1) else (n, 0)

unfoldable pub unlock_node : Node → ℕ → Node × ℕ
unlock_node n client_fd = if n.client_fd == 0 then (n, 0) else (record n { client_fd = 0 }, 1)

-- CMakeHouse. The layer list holds the nodes' ids, bottom first: all that is read of its pointers.
pub record MakeHouse : Type 0 where
  pub node_map : StdMap Node
  pub layer_list : List ℕ

unfoldable pub empty_house : MakeHouse
empty_house = record { node_map = []; layer_list = [] }

unfoldable pub update : MakeHouse → ℕ → ℕ → ℕ → ℕ → ℕ → ℕ → MakeHouse × ℕ
unfolding update_node
update h client_fd node_id x y angle zoom = elim (StdMap.find node_id h.node_map) [
  | none ↦ (h, 1)
  | some n ↦
      let (n', result) = update_node n client_fd x y angle zoom in
      (record h { node_map = StdMap.assign node_id n' h.node_map }, result)
]

-- The pointer none is NULL.
unfoldable pub add : MakeHouse → ℕ → Option Node → MakeHouse × ℕ
add h node_id none = (h, 1)
add h node_id (some n) = (record h { node_map = StdMap.insert node_id n h.node_map }, 0)

unfoldable pub del : MakeHouse → ℕ → MakeHouse × ℕ
del h node_id = elim (StdMap.find node_id h.node_map) [
  | none ↦ (h, 1)
  | some n ↦ (record h { node_map = StdMap.erase node_id h.node_map }, 0)
]
