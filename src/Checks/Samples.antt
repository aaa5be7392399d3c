-- ===== src/Checks/Samples.antt =====
-- A table, a physical set and a virtual set for the examples, and a tree that does not rebalance.
use alpaca_vrr.Base.{ℕ, refl, List, [], ◌∷◌, Bool, true}
use alpaca_vrr.Rt.Defs.{RtEntry, RtNode, Tree, leaf, node, Side, left, right, Rbtree}
use alpaca_vrr.Pset.{PsetEntry}
use alpaca_vrr.Vset.{Vset, Cell, Sign}

abbrev link : RtNode → List Side → Tree → Tree
link n [] leaf = node 0 leaf n leaf
link n [] (node c l x r) = node c l x r
link n (s ∷ p) leaf = leaf
link n (left ∷ p) (node c l x r) = node c (link n p l) x r
link n (right ∷ p) (node c l x r) = node c l x (link n p r)

abbrev pub plain_tree : Rbtree
plain_tree = record {
  link_node = link;
  insert_color = λ e t. t;
  red = 0;
  link_node_here = λ n. refl;
  link_node_left = λ n p c l x r. refl;
  link_node_right = λ n p c l x r. refl;
  inorder-insert_color = λ e t. refl;
}

-- The path 3 from the node 5 to the node 9, by the node 7.
abbrev pub path_3 : RtEntry
path_3 = record { ea = 5; eb = 9; na = 5; nb = 7; path_id = 3 }

abbrev pub path_4 : RtEntry
path_4 = record { ea = 5; eb = 12; na = 5; nb = 8; path_id = 4 }

abbrev pub table : Tree
table = node 0 leaf (record { endpoint = 9; routes = path_3 ∷ [] }) leaf

abbrev pub always : ℕ → Bool
always n = true

abbrev pub entry : ℕ → ℕ → ℕ → ℕ → PsetEntry
entry id status active count = record {
  node = id;
  status = status;
  active = active;
  mac = id ∷ [];
  fail_count = count;
}

-- A neighbour in order, one that fails next, one that goes next.
abbrev pub neighbours : List PsetEntry
neighbours = entry 5 0 1 0 ∷ entry 6 0 1 3 ∷ entry 7 2 0 7 ∷ []

abbrev pub ring : ℕ → Vset
ring n = record {
  entries =
      record { node = 3; left_diff = 30; right_diff = 40 }
      ∷ record { node = 4; left_diff = 50; right_diff = 60 }
      ∷ [];
  vset_size = n;
}

abbrev pub unsorted : (Cell → Cell → Sign) → List ℕ → List ℕ
unsorted cmp xs = xs

abbrev pub zeros : ℕ → ℕ
zeros n = 0
