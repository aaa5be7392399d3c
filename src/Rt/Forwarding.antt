-- ===== src/Rt/Forwarding.antt =====
-- A route that was added is used: `rt_add_route` and `rt_get_next` together.
use alpaca_vrr.Base.{
  ℕ, refl, ◌<◌, ◌≡◌, ◌≢◌, sym, inl, inr, Bool, true, List, ◌∷◌, All, arith, subst,
}
use alpaca_vrr.Rt.{rt_add_route, rt_get_next}
use alpaca_vrr.Rt.Defs.{RtEntry, Tree, Rbtree, inorder}
use alpaca_vrr.Rt.Sorted.{routes_at, Rising}
use alpaca_vrr.Rt.Add.{rt_add_route-Rising, rt_add_route-filed}
use alpaca_vrr.Rt.Choice.{Among, Leads, Picks, NoLoop, Among-All, rt_get_next-Picks}

-- Of a list in which the first entry has the greatest path id, a search picks the first.
pub Picks-first :
    (me dest : ℕ) (r : RtEntry) (rs : List RtEntry) (hop : ℕ)
    → 0 < r.path_id
    → All (λ x. x.path_id < r.path_id) rs
    → Picks me dest (r ∷ rs) hop
    → Leads me dest r hop
Picks-first me dest r rs hop pos less (inl (z, a)) = absurd (omega (arith, a.0, pos))
Picks-first me dest r rs hop pos less (inr (e, newest, up, leads)) = go newest.among
  where
    go : Among e (r ∷ rs) → Leads me dest r hop
    go (inl same) = subst (λ x. Leads me dest x hop) (sym same) leads
    go (inr i) =
        absurd
          (omega (arith, Among-All (λ x. x.path_id < r.path_id) e rs i less, newest.greatest.0))

-- On a search tree, once the path from this node to another is added with a path id above those
-- filed under the other, the next hop to the other is the path's second hop.
pub rt_get_next-added :
    (rb : Rbtree) (mem : ℕ → Bool) (me dest na nb pid : ℕ) (t : Tree) (n : ℕ)
    → Rising (inorder t)
    → dest ≢ 0
    → dest ≢ me
    → 0 < pid
    → All (λ x. x.path_id < pid) (routes_at dest (inorder t))
    → NoLoop me (routes_at dest (inorder t))
    → (rt_add_route rb mem me dest na nb pid t n).0 ≡ true
    → rt_get_next me (rt_add_route rb mem me dest na nb pid t n).1 dest ≡ nb
rt_get_next-added rb mem me dest na nb pid t n s hz hm pos less nl ok =
    let r : RtEntry = record { ea = me; eb = dest; na = na; nb = nb; path_id = pid } in
    let old = routes_at dest (inorder t) in
    let added = (rt_add_route rb mem me dest na nb pid t n).1 in
    let filed_there : routes_at dest (inorder added) ≡ r ∷ old =
      ground (arith, rt_add_route-filed rb mem me dest na nb pid t n s dest ok) in
    let no_loop : NoLoop me (r ∷ old) = (inr hm, nl) in
    let pick =
      rt_get_next-Picks me added dest (rt_add_route-Rising rb mem me dest na nb pid t n s) hm
        (subst (NoLoop me) (sym filed_there) no_loop) in
    second_hop me dest r (rt_get_next me added dest)
      (Picks-first me dest r old (rt_get_next me added dest) pos less
        (subst (λ rs. Picks me dest rs (rt_get_next me added dest)) filed_there pick))
      refl
  where
    second_hop :
        (self other : ℕ) (r : RtEntry) (hop : ℕ) → Leads self other r hop → r.ea ≡ self → hop ≡ r.nb
    second_hop self other r hop (inl l) e = absurd (l.1 e)
    second_hop self other r hop (inr l) e = l.0
