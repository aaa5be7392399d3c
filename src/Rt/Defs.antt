-- ===== src/Rt/Defs.antt =====
-- The data of the routing table, and the kernel's red-black tree as an interface: its two
-- primitives that the table calls, with what linux/rbtree.h promises of them.
use alpaca_vrr.Base.{ℕ, ◌≡◌, List, [], ◌∷◌, ◌++◌}

-- rt_entry
pub record RtEntry : Type 0 where
  pub ea : ℕ
  pub eb : ℕ
  pub na : ℕ
  pub nb : ℕ
  pub path_id : ℕ

-- rt_node_t, without its rb_node
pub record RtNode : Type 0 where
  pub endpoint : ℕ
  pub routes : List RtEntry

-- The number is the colour word of the rb_node, which only the kernel reads.
pub data Tree : Type 0 where
  leaf : Tree
  node : ℕ → Tree → RtNode → Tree → Tree

pub data Side : Type 0 where
  left right : Side

abbrev pub inorder : Tree → List RtNode
inorder leaf = []
inorder (node c l n r) = inorder l ++ n ∷ inorder r

-- `link_node n link t` puts a node at an empty link of the tree, and leaves the rest; the link is
-- the way down from the root. `insert_color e t` rebalances after the node of `e` was linked: it
-- rotates and recolours, so the nodes keep their order.
pub record Rbtree : Type 0 where
  pub link_node : RtNode → List Side → Tree → Tree
  pub insert_color : ℕ → Tree → Tree
  pub red : ℕ
  pub link_node_here : (n : RtNode) → link_node n [] leaf ≡ node red leaf n leaf
  pub link_node_left :
      (n : RtNode) (p : List Side) (c : ℕ) (l : Tree) (x : RtNode) (r : Tree)
      → link_node n (left ∷ p) (node c l x r) ≡ node c (link_node n p l) x r
  pub link_node_right :
      (n : RtNode) (p : List Side) (c : ℕ) (l : Tree) (x : RtNode) (r : Tree)
      → link_node n (right ∷ p) (node c l x r) ≡ node c l x (link_node n p r)
  pub inorder-insert_color : (e : ℕ) (t : Tree) → inorder (insert_color e t) ≡ inorder t
