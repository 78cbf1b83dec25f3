-- ===== src/House/Nodes.antt =====
-- content/makehouse.cpp: which changes of the pictures CMakeHouse lets through.
use teachserver.Base.{ℕ, ◌≡◌, ◌⊎◌, inl, inr, none, some, arith, Option-cases, ◌==◌, if◌then◌else◌}
use native.Mathlib.Decide.{ℕ_discrete}
use teachserver.StdMap
use teachserver.StdMap.{StdMap}
use teachserver.StdMap.Laws.{find-assign}
use teachserver.StdMap.Entries.{assign-find, erase-insert, find-insert_new}
use teachserver.House.{Node, MakeHouse, update_node, update, add, del}

-- The client owns a picture with the id.
abbrev pub IsOwner : MakeHouse → ℕ → ℕ → Type 0
IsOwner h fd id = (n : Node) × (StdMap.find id h.node_map ≡ some n) × (n.client_fd ≡ fd)

-- What an accepted update leaves.
pub record Moved (h h' : MakeHouse) (fd id x y angle zoom : ℕ) : Type 0 where
  pub node : Node
  pub before : StdMap.find id h.node_map ≡ some node
  pub owner : node.client_fd ≡ fd
  pub after :
      (j : ℕ)
      → StdMap.find j h'.node_map ≡ (
          if j == id
          then some (record node { x = x; y = y; angle = angle; zoom = zoom })
          else StdMap.find j h.node_map)
  pub layers : h'.layer_list ≡ h.layer_list

-- Nobody but the owner moves a picture: the client is the owner of a picture with the id, which then
-- has the new place, angle and zoom while every other picture stays, and the result is 0; or the
-- house stays and the result is 1, there being no such picture or another owner.
pub update-IsOwner :
    (h : MakeHouse) (fd id x y angle zoom : ℕ)
    → (((update h fd id x y angle zoom).1 ≡ 0)
        × Moved h (update h fd id x y angle zoom).0 fd id x y angle zoom)
      ⊎ ((update h fd id x y angle zoom ≡ (h, 1)) × ¬ IsOwner h fd id)
unfolding update update_node
update-IsOwner h fd id x y angle zoom = elim (Option-cases (StdMap.find id h.node_map)) [
  | inl e ↦ inr (ground arith, λ own. ground (arith, own.1))
  | inr (n, e) ↦ elim (ℕ_discrete n.client_fd fd) [
    | yes o ↦
        let n' = record n { x = x; y = y; angle = angle; zoom = zoom } in
        inl (
          ground arith,
          record {
            node = n;
            before = e;
            owner = o;
            after = λ j. ground (arith, e, o, find-assign id j n' h.node_map);
            layers = ground arith;
          },
        )
    | no o ↦
        inr (ground (arith, assign-find id n h.node_map e), λ own. ground (arith, own.1, own.2))
  ]
]

-- Adding a picture under a new id succeeds, and deleting it again gives back the house as it was.
pub del-add :
    (h : MakeHouse) (id : ℕ) (n : Node)
    → StdMap.find id h.node_map ≡ none
    → ((add h id (some n)).1 ≡ 0) × (del (add h id (some n)).0 id ≡ (h, 0))
unfolding add del
del-add h id n e = ground (arith, erase-insert id n h.node_map e, find-insert_new id n h.node_map e)
