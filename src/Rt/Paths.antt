-- ===== src/Rt/Paths.antt =====
-- Paths of several nodes: what the routes that a setup leaves at each node do together.
use alpaca_vrr.Base.{
  ℕ, zero, suc, ◌+◌, ◌≤◌, ◌<◌, ◌≡◌, ◌≢◌, refl, sym, ap, ◌∙◌, inl, inr, ◌⊎◌, Bool, true, List, [],
  ◌∷◌, ◌==◌, All, arith, subst, length, if◌then◌else◌, ==_self, ==_ne, Absent, Distinct,
}
use alpaca_vrr.Ids.{word, get_diff}
use alpaca_vrr.Ids.Ring.{get_diff_metric}
use alpaca_vrr.Rt.{rt_add_route, rt_get_next}
use alpaca_vrr.Rt.Defs.{RtEntry, Tree, Rbtree, inorder}
use alpaca_vrr.Rt.Sorted.{routes_at, Rising}
use alpaca_vrr.Rt.Add.{rt_add_route-Rising, rt_add_route-filed}
use alpaca_vrr.Rt.Choice.{Leads, Picks, NoLoop, rt_get_next-Picks}
use alpaca_vrr.Rt.Forwarding.{Picks-first}

module _ (rb : Rbtree) (mem : ℕ → Bool) (src dst pid : ℕ) where
  -- At the node `me`, whose table was `t`, the route between the two ends by the two hops was added,
  -- its path id is above those filed under the ends, and no route there goes from `me` to itself.
  pub record Laid (t : Tree) (me prev next : ℕ) (after : Tree) : Type 0 where
    pub sorted : Rising (inorder t)
    pub newest_src : All (λ x. x.path_id < pid) (routes_at src (inorder t))
    pub newest_dst : All (λ x. x.path_id < pid) (routes_at dst (inorder t))
    pub no_loop_src : NoLoop me (routes_at src (inorder t))
    pub no_loop_dst : NoLoop me (routes_at dst (inorder t))
    pub count : ℕ
    pub added : (rt_add_route rb mem src dst prev next pid t count).0 ≡ true
    pub table : (rt_add_route rb mem src dst prev next pid t count).1 ≡ after

  module _ (hs : src ≢ 0) (hd : dst ≢ 0) (two : src ≢ dst) (ws : src < word) (wd : dst < word)
      (pos : 0 < pid) (t : Tree) (me prev next : ℕ) (after : Tree)
      (l : Laid t me prev next after) where
    abbrev laid_route : RtEntry
    laid_route = record { ea = src; eb = dst; na = prev; nb = next; path_id = pid }

    filed_dst : routes_at dst (inorder after) ≡ laid_route ∷ routes_at dst (inorder t)
    filed_dst = rw (← l.table) (
        ground
          (arith, rt_add_route-filed rb mem src dst prev next pid t l.count l.sorted dst l.added))

    filed_src : routes_at src (inorder after) ≡ laid_route ∷ routes_at src (inorder t)
    filed_src = rw (← l.table) (
        ground
          (arith, rt_add_route-filed rb mem src dst prev next pid t l.count l.sorted src l.added))

    sorted_after : Rising (inorder after)
    sorted_after =
        subst (λ z. Rising (inorder z)) l.table
          (rt_add_route-Rising rb mem src dst prev next pid t l.count l.sorted)

    laid_route-Leads :
        (e : ℕ)
        → e ≢ me
        → routes_at e (inorder after) ≡ laid_route ∷ routes_at e (inorder t)
        → All (λ x. x.path_id < pid) (routes_at e (inorder t))
        → NoLoop me (routes_at e (inorder t))
        → (src ≢ me) ⊎ (dst ≢ me)
        → Leads me e laid_route (rt_get_next me after e)
    laid_route-Leads e h there less no_loop ends =
        Picks-first me e laid_route (routes_at e (inorder t)) (rt_get_next me after e) pos less (
          subst (λ rs. Picks me e rs (rt_get_next me after e)) there
            (rt_get_next-Picks me after e sorted_after h
              (subst (NoLoop me) (sym there) (ends, no_loop))))

    pub hop_on : me ≢ dst → rt_get_next me after dst ≡ next
    hop_on h = second (laid_route-Leads dst away filed_dst l.newest_dst l.no_loop_dst (inr away))
      where
        away : dst ≢ me
        away e = h (sym e)

        at_end : get_diff dst dst ≡ 0
        at_end = (get_diff_metric dst dst wd wd).2.1 refl

        second :
            Leads me dst laid_route (rt_get_next me after dst) → rt_get_next me after dst ≡ next
        second (inl (q, n, inl nearer)) = absurd (omega (arith, nearer, at_end))
        second (inl (q, n, inr same)) = absurd (away same)
        second (inr l') = l'.0

    pub hop_back : me ≢ src → rt_get_next me after src ≡ prev
    hop_back h = first (laid_route-Leads src away filed_src l.newest_src l.no_loop_src (inl away))
      where
        away : src ≢ me
        away e = h (sym e)

        at_end : get_diff src src ≡ 0
        at_end = (get_diff_metric src src ws ws).2.1 refl

        first : Leads me src laid_route (rt_get_next me after src) → rt_get_next me after src ≡ prev
        first (inl l') = l'.0
        first (inr (q, n, inl nearer)) =
            absurd (two ((get_diff_metric src dst ws wd).2.0 (omega (arith, nearer, at_end))))
        first (inr (q, n, inr same)) = absurd (away same)

-- A packet for `dest` that stands at a node, forwarded by the tables: the nodes that it visits, with
-- at most so many of them.
unfoldable pub walk : (ℕ → Tree) → ℕ → ℕ → ℕ → List ℕ
walk tables zero dest me = []
walk tables (suc k) dest me =
    let rest = walk tables k dest (rt_get_next me (tables me) dest) in
    if me == dest then me ∷ [] else me ∷ rest

abbrev pub last_of : ℕ → List ℕ → ℕ
last_of n [] = n
last_of n (m ∷ hops) = last_of m hops

-- The nodes the other way round, before those of the last list.
abbrev pub turned : ℕ → List ℕ → List ℕ → List ℕ
turned n [] acc = n ∷ acc
turned n (m ∷ hops) acc = turned m hops (n ∷ acc)

Absent-last_of : (a n : ℕ) (hops : List ℕ) → Absent a (n ∷ hops) → last_of n hops ≢ a
Absent-last_of a n [] h = h.0
Absent-last_of a n (m ∷ hops) h = Absent-last_of a m hops h.1

module _ (rb : ℕ → Rbtree) (mem : ℕ → ℕ → Bool) (src dst pid : ℕ) (before after : ℕ → Tree) where
  -- The route was added at each node of a path, with the nodes before and after it as its hops.
  abbrev pub Along : ℕ → ℕ → List ℕ → Type 0
  Along prev n [] = Laid (rb n) (mem n) src dst pid (before n) n prev 0 (after n)
  Along prev n (m ∷ hops) =
      Laid (rb n) (mem n) src dst pid (before n) n prev m (after n) × Along n m hops

  module _ (hs : src ≢ 0) (hd : dst ≢ 0) (two : src ≢ dst) (ws : src < word) (wd : dst < word)
      (pos : 0 < pid) where
    walk-on :
        (prev n : ℕ) (hops : List ℕ) (k : ℕ)
        → Along prev n hops
        → Distinct (n ∷ hops)
        → last_of n hops ≡ dst
        → length hops ≤ k
        → walk after (suc k) dst n ≡ n ∷ hops
    unfolding walk
    walk-on prev n [] k a d e b = rw e (rw (==_self dst) refl)
    walk-on prev n (m ∷ hops) zero a d e b = absurd (omega arith)
    walk-on prev n (m ∷ hops) (suc k) a d e b =
        rw
          (
            ==_ne n dst away,
            hop_on (rb n) (mem n) src dst pid hs hd two ws wd pos (before n) n prev m (after n) a.0
                away,
          )
          (ap (◌∷◌ n) (walk-on n m hops k a.1 d.1 e (omega arith)))
      where
        away : n ≢ dst
        away q = Absent-last_of n m hops d.0 (e ∙ sym q)

    Along-back :
        (prev n : ℕ) (hops : List ℕ)
        → Along prev n hops
        → n ≢ src
        → rt_get_next n (after n) src ≡ prev
    Along-back prev n [] a h =
        hop_back (rb n) (mem n) src dst pid hs hd two ws wd pos (before n) n prev 0 (after n) a h
    Along-back prev n (m ∷ hops) a h =
        hop_back (rb n) (mem n) src dst pid hs hd two ws wd pos (before n) n prev m (after n) a.0 h

    walk-back :
        (prev n : ℕ) (hops acc : List ℕ)
        → Along prev n hops
        → Absent src hops
        → ((j : ℕ) → length acc ≤ j → walk after (suc j) src n ≡ n ∷ acc)
        → (j : ℕ) → length hops + length acc ≤ j
        → walk after (suc j) src (last_of n hops) ≡ turned n hops acc
    unfolding walk
    walk-back prev n [] acc a d w j b = w j (omega arith)
    walk-back prev n (m ∷ hops) acc a d w j b =
        walk-back n m hops (n ∷ acc) a.1 d.1 further j (omega arith)
      where
        further : (i : ℕ) → suc (length acc) ≤ i → walk after (suc i) src m ≡ m ∷ n ∷ acc
        further zero h = absurd (omega arith)
        further (suc i) h =
            rw (==_ne m src d.0, Along-back n m hops a.1 d.0, w i (omega arith)) refl

    -- Between two different 32-bit identifiers that are not 0: where each node of a path of distinct
    -- nodes, with a search tree as its table, has added the route of a setup between the ends, with a
    -- positive path id above those filed under either end, where no route has the node at both ends, a
    -- packet from one end to the other that each node forwards by its table visits the nodes of the
    -- path in order, and one the other way in the opposite order.
    pub path-followed :
        (hops : List ℕ)
        → Along src src hops
        → Distinct (src ∷ hops)
        → last_of src hops ≡ dst
        → (walk after (length (src ∷ hops)) dst src ≡ src ∷ hops)
          × (walk after (length (src ∷ hops)) src dst ≡ turned src hops [])
    unfolding walk
    path-followed hops a d e = (
      walk-on src src hops (length hops) a d e (omega arith),
      rw⁻¹ e (walk-back src src hops [] a d.0 here (length hops) (omega arith)),
    )
      where
        here : (j : ℕ) → 0 ≤ j → walk after (suc j) src src ≡ src ∷ []
        here j h = rw (==_self src) refl
