-- ===== src/Rt/Insert.antt =====
-- `rt_find_insert_node`: where a new node goes, and what the table holds afterwards.
use alpaca_vrr.Base.{
  ℕ, ◌<◌, ◌≡◌, refl, ap, inl, inr, Bool, true, Option, none, some, List, [], ◌∷◌, ◌++◌, arith, All,
  Order-cases, Bool-cases, ◌||◌, lt→ltb, ge→ltb,
}
use mathlib.Core.Option
use alpaca_vrr.Rt.Defs.{RtNode, Tree, leaf, node, Side, left, right, Rbtree, inorder}
use alpaca_vrr.Rt.Sorted.{
  routes_at, Rising, All-append, All-append_left, All-append_right, Rising-split, Rising-join,
  routes_at-append, has_endpoint,
}
use alpaca_vrr.Rt.{find_link, new_node, rt_find_insert_node}

-- The way down to the empty link at which a node of endpoint `e` belongs.
data IsLink (e : ℕ) : Tree → List Side → Type 0 where
  here : IsLink e leaf []
  down_left :
      {c : ℕ} {l : Tree} {x : RtNode} {r : Tree} {p : List Side}
      → e < x.endpoint
      → IsLink e l p
      → IsLink e (node c l x r) (left ∷ p)
  down_right :
      {c : ℕ} {l : Tree} {x : RtNode} {r : Tree} {p : List Side}
      → x.endpoint < e
      → IsLink e r p
      → IsLink e (node c l x r) (right ∷ p)

-- What the loop finds: the link where the node belongs, or a node that has the endpoint.
abbrev Finds : ℕ → Tree → Option (List Side) → Type 0
Finds e t none = has_endpoint e (inorder t) ≡ true
Finds e t (some p) = IsLink e t p

pub has_endpoint-append :
    (e : ℕ) (xs ys : List RtNode)
    → has_endpoint e (xs ++ ys) ≡ (has_endpoint e xs || has_endpoint e ys)
has_endpoint-append e [] ys = refl
has_endpoint-append e (x ∷ xs) ys = ground (arith, has_endpoint-append e xs ys)

module _ (e c : ℕ) (l : Tree) (x : RtNode) (r : Tree) where
  Finds-left :
      (o : Option (List Side))
      → e < x.endpoint
      → Finds e l o
      → Finds e (node c l x r) (Option.map (◌∷◌ left) o)
  Finds-left none h f = rw has_endpoint-append (ground arith)
  Finds-left (some p) h f = down_left h f

  Finds-right :
      (o : Option (List Side))
      → x.endpoint < e
      → Finds e r o
      → Finds e (node c l x r) (Option.map (◌∷◌ right) o)
  Finds-right none h f = rw has_endpoint-append (ground arith)
  Finds-right (some p) h f = down_right h f

find_link-Finds : (e : ℕ) (t : Tree) → Finds e t (find_link e t)
unfolding find_link
find_link-Finds e leaf = here
find_link-Finds e (node c l x r) = elim (Order-cases e x.endpoint) [
  | inl lt ↦ rw (lt→ltb _ _ lt) (Finds-left e c l x r _ lt (find_link-Finds e l))
  | inr (inl eq) ↦
      rw (ge→ltb e x.endpoint (omega arith), ge→ltb x.endpoint e (omega arith), has_endpoint-append)
        (ground arith)
  | inr (inr gt) ↦
      rw (ge→ltb e x.endpoint (omega arith), lt→ltb _ _ gt)
        (Finds-right e c l x r _ gt (find_link-Finds e r))
]

module _ (rb : Rbtree) (n : RtNode) {e : ℕ} where
  -- What holds of the new node and of the old ones holds of all.
  All-link_node :
      (P : RtNode → Type 0) {t : Tree} {p : List Side}
      → IsLink e t p
      → P n
      → All P (inorder t)
      → All P (inorder (rb.link_node n p t))
  All-link_node P here k a = rw (rb.link_node_here n) (k, tt)
  All-link_node P (down_left {c} {l} {x} {r} {p} h w) k a = rw (rb.link_node_left n p c l x r) (
      All-append P _ _ (All-link_node P w k (All-append_left P _ _ a))
        (All-append_right P (inorder l) _ a))
  All-link_node P (down_right {c} {l} {x} {r} {p} h w) k a = rw (rb.link_node_right n p c l x r) (
      All-append P (inorder l) (x ∷ inorder (rb.link_node n p r))
        (All-append_left P (inorder l) _ a)
        (let q = All-append_right P (inorder l) _ a in (q.0, All-link_node P w k q.1)))

  Rising-link_node :
      {t : Tree} {p : List Side}
      → n.endpoint ≡ e
      → IsLink e t p
      → Rising (inorder t)
      → Rising (inorder (rb.link_node n p t))
  Rising-link_node k here s = rw (rb.link_node_here n) (tt, tt)
  Rising-link_node k (down_left {c} {l} {x} {r} {p} h w) s =
      let (b, a, sl, sr) = Rising-split (inorder l) x (inorder r) s in
      rw (rb.link_node_left n p c l x r) (
        Rising-join _ x _ (All-link_node (λ m. m.endpoint < x.endpoint) w (omega arith) b) a
          (Rising-link_node k w sl) sr)
  Rising-link_node k (down_right {c} {l} {x} {r} {p} h w) s =
      let (b, a, sl, sr) = Rising-split (inorder l) x (inorder r) s in
      rw (rb.link_node_right n p c l x r) (
        Rising-join _ x _ b (All-link_node (λ m. x.endpoint < m.endpoint) w (omega arith) a) sl
          (Rising-link_node k w sr))

  -- A node with no routes changes no lookup.
  routes_at-link_node :
      (k : ℕ) {t : Tree} {p : List Side}
      → n.routes ≡ []
      → IsLink e t p
      → routes_at k (inorder (rb.link_node n p t)) ≡ routes_at k (inorder t)
  routes_at-link_node k f here = rw (rb.link_node_here n) (ground arith)
  routes_at-link_node k f (down_left {c} {l} {x} {r} {p} h w) =
      rw (rb.link_node_left n p c l x r, routes_at-append, routes_at-append)
        (ap (λ z. z ++ routes_at k (x ∷ inorder r)) (routes_at-link_node k f w))
  routes_at-link_node k f (down_right {c} {l} {x} {r} {p} h w) =
      rw (rb.link_node_right n p c l x r, routes_at-append, routes_at-append)
        (ground (arith, routes_at-link_node k f w))

  has_endpoint-link_node :
      {t : Tree} {p : List Side}
      → n.endpoint ≡ e
      → IsLink e t p
      → has_endpoint e (inorder (rb.link_node n p t)) ≡ true
  has_endpoint-link_node k here = rw (rb.link_node_here n) (ground arith)
  has_endpoint-link_node k (down_left {c} {l} {x} {r} {p} h w) =
      rw (rb.link_node_left n p c l x r, has_endpoint-append)
        (ground (arith, has_endpoint-link_node k w))
  has_endpoint-link_node k (down_right {c} {l} {x} {r} {p} h w) =
      rw (rb.link_node_right n p c l x r, has_endpoint-append)
        (ground (arith, has_endpoint-link_node k w))

module _ (rb : Rbtree) (mem : ℕ → Bool) (e : ℕ) (t : Tree) (n : ℕ) where
  -- The table after the search for the node of `e`, and whether there is one now.
  pub record FindsNode (found : Bool) (t' : Tree) : Type 0 where
    pub rising : Rising (inorder t')
    pub same_routes : (k : ℕ) → routes_at k (inorder t') ≡ routes_at k (inorder t)
    pub has_node : found ≡ true → has_endpoint e (inorder t') ≡ true

  pub rt_find_insert_node-FindsNode :
      Rising (inorder t) → let r = rt_find_insert_node rb mem e t n in FindsNode r.0 r.1
  unfolding rt_find_insert_node
  rt_find_insert_node-FindsNode s = go (find_link e t) refl (find_link-Finds e t)
    where
      go :
          (o : Option (List Side))
          → find_link e t ≡ o
          → Finds e t o
          → let r = rt_find_insert_node rb mem e t n in FindsNode r.0 r.1
      go none h f =
          rw (h, rt_find_insert_node)
            (record { rising = s; same_routes = λ k. refl; has_node = λ _. f })
      go (some p) h f = elim (Bool-cases (mem n)) [
        | inl m ↦
            rw (h, rt_find_insert_node, m)
              (record {
                rising = rw rb.inorder-insert_color (Rising-link_node rb (new_node e) refl f s);
                same_routes =
                    λ k. rw rb.inorder-insert_color (routes_at-link_node rb (new_node e) k refl f);
                has_node =
                    λ _. rw rb.inorder-insert_color (has_endpoint-link_node rb (new_node e) refl f);
              })
        | inr m ↦
            rw (h, rt_find_insert_node, m)
              (record { rising = s; same_routes = λ k. refl; has_node = λ q. cc })
      ]
