-- ===== src/Travel/Laying.antt =====
-- A setup on its way lays a path that packets follow.
use alpaca_vrr.Base.{
  ℕ, ◌≤◌, ◌<◌, ◌≡◌, ◌≢◌, sym, ap, ◌∙◌, inl, inr, Bool, true, some, List, [], ◌∷◌, ◌==◌, All, arith,
  subst, length, Run, done, oops, Returns, ==_iff, Bool-cases, Distinct,
}
use alpaca_vrr.Ids.{word}
use alpaca_vrr.Rt.{rt_add_route}
use alpaca_vrr.Rt.Defs.{Tree, Rbtree}
use alpaca_vrr.Rt.Paths.{Laid, Along, last_of, turned, walk, path-followed}
use alpaca_vrr.Pset.{pset_get_status, pset_get_mac, pset_unknown}
use alpaca_vrr.Vset.{VsetCopy, vrr_vset_size}
use alpaca_vrr.Wire.{Skb, put_words}
use alpaca_vrr.World.{World, Env}
use alpaca_vrr.Receive.Setup.{setup_ends}
use alpaca_vrr.Receive.Forwarded.{setup_header, setup_words, grown, vrr_rcv_setup-forwards}
use alpaca_vrr.Health.{Scope, Healthy}
use alpaca_vrr.Joining.Arrival.{Joins, laid, vrr_rcv_setup-Joins}
use alpaca_vrr.Travel.{Journey, Starts, Fresh}
use alpaca_vrr.Travel.Tables.{Fresh-Laid}
use alpaca_vrr.Travel.Packet.{Says, words-Says, Comes-frames}
use alpaca_vrr.Travel.Start.{first_header, first_words, vrr_local_rcv_setup-sends}

abbrev pub world_or : World → Run (Bool × World) → World
world_or w (done (a, v)) = v
world_or w (oops e) = w

-- A run has one outcome.
same_world :
    {o : Run (Bool × World)} {v u : World} → o ≡ done (true, v) → o ≡ done (true, u) → v ≡ u
same_world {o} {v} {u} e d = ap (world_or v) (sym e ∙ d)

setup_ends-id : (dst : ℕ) (w : World) → setup_ends dst w ≡ true → dst ≡ w.node.id
unfolding setup_ends
setup_ends-id dst w h = elim (Bool-cases (pset_get_status dst w.pset == pset_unknown)) [
  | inl far ↦ (==_iff dst w.node.id).0 (rw far at h)
  | inr near ↦ ground (arith, near, h)
]

-- However `vrr_add` decides, the table is that with the route laid.
Joins-table :
    (env : Env) (skb : Skb) (w : World) (sender : ℕ) (v : World)
    → Joins env skb w sender (true, v)
    → v.rt_root ≡ (laid env skb w sender).rt_root
Joins-table env skb w sender v (inl (d, q, e)) =
    ap (λ (x : World). x.rt_root) e ∙ ap (λ (x : World). x.rt_root) q.3
Joins-table env skb w sender v (inr q) = ap (λ (x : World). x.rt_root) q.1

module _ (envs : ℕ → Env) (worlds later : ℕ → World) (ample : (n k : ℕ) → (envs n).kmalloc k ≡ true)
    (ids : (n : ℕ) → (worlds n).node.id ≡ n) (src dst pid : ℕ) (ws : src < word) (wd : dst < word)
    (wp : pid < word) where
  abbrev rbs : ℕ → Rbtree
  rbs n = (envs n).rb

  abbrev mems : ℕ → ℕ → Bool
  mems n = (envs n).kmalloc

  abbrev before : ℕ → Tree
  before n = (worlds n).rt_root

  abbrev after : ℕ → Tree
  after n = (later n).rt_root

  abbrev table_of : ℕ → ℕ → ℕ → ℕ → ℕ → ℕ → Tree
  table_of n a b p prev next =
      (rt_add_route (rbs n) (mems n) a b prev next p (before n) (worlds n).allocs).1

  table_of-Laid :
      (n prev next : ℕ)
      → Fresh src dst pid n (worlds n)
      → table_of n src dst pid prev next ≡ after n
      → Laid (rbs n) (mems n) src dst pid (before n) n prev next (after n)
  table_of-Laid n prev next f e =
      Fresh-Laid (rbs n) (mems n) (ample n) src dst pid n prev next (worlds n).allocs (worlds n)
        (after n) f e

  grown-table_of :
      (n prev next : ℕ) (skb : Skb)
      → Says (envs n) src dst pid skb (worlds n)
      → (grown (envs n) skb (worlds n) prev next).rt_root ≡ table_of n src dst pid prev next
  grown-table_of n prev next skb s = λ i. table_of n (s.from i) (s.to i) (s.path i) prev next

  module _ {sc : Scope} (strict : sc.strict ≡ true) (healthy : Healthy sc (worlds dst)) where
    ended :
        (prev n : ℕ) (skb : Skb)
        → Says (envs n) src dst pid skb (worlds n)
        → Journey envs worlds later prev n [] skb
        → n ≡ dst
    ended prev n skb s j = sym (sym s.to ∙ setup_ends-id _ (worlds n) j.2 ∙ ids n)

    lay-end :
        (prev n : ℕ) (skb : Skb)
        → Says (envs n) src dst pid skb (worlds n)
        → Journey envs worlds later prev n [] skb
        → table_of n src dst pid prev 0 ≡ after n
    lay-end prev n skb s j =
        let h : Healthy sc (worlds n) =
          subst (λ k. Healthy sc (worlds k)) (sym (ended prev n skb s j)) healthy in
        let q =
          vrr_rcv_setup-Joins (envs n) skb (worlds n) prev (ample n) strict h j.1 j.2 s.size in
        sym (grown-table_of n prev 0 skb s)
        ∙ sym (
            Joins-table (envs n) skb (worlds n) prev (later n)
              (subst (λ o. Returns o (Joins (envs n) skb (worlds n) prev)) j.0 q))

    -- What is said is said at the next node too, and the route is laid.
    lay-on :
        (prev n m : ℕ) (hops : List ℕ) (skb : Skb)
        → Says (envs n) src dst pid skb (worlds n)
        → (j : Journey envs worlds later prev n (m ∷ hops) skb)
        → (table_of n src dst pid prev m ≡ after n) × Says (envs m) src dst pid j.3.0 (worlds m)
    lay-on prev n m hops skb s (run, sender, on, (next, p, rest)) =
        let e =
          vrr_rcv_setup-forwards (envs n) skb (worlds n) (ample n) prev m p.mac sender on p.onward
            p.known p.address s.size in
        let v = same_world e run in
        let c =
          Comes-frames (envs n) (setup_header (envs n) skb (worlds n) p.mac)
            (put_words (setup_words (envs n) skb (worlds n))) (worlds n) (later n) next
            (sym (ap (λ (w : World). w.sent) v)) p.comes in
        (
          sym (grown-table_of n prev m skb s) ∙ ap (λ (w : World). w.rt_root) v,
          rw (← s.from, ← s.to, ← s.path)
              (words-Says (envs m) (worlds n).node.version _ _ _ _ _ next (worlds m)
                (omega (arith, s.from, ws)) (omega (arith, s.to, wd)) (omega (arith, s.path, wp))
                s.size c.0 c.1),
        )

    lay :
        (prev n : ℕ) (hops : List ℕ) (skb : Skb)
        → Says (envs n) src dst pid skb (worlds n)
        → Journey envs worlds later prev n hops skb
        → All (λ k. Fresh src dst pid k (worlds k)) (n ∷ hops)
        → Along rbs mems src dst pid before after prev n hops × (last_of n hops ≡ dst)
    lay prev n [] skb s j f =
        (table_of-Laid n prev 0 f.0 (lay-end prev n skb s j), ended prev n skb s j)
    lay prev n (m ∷ hops) skb s j f =
        let (e, s') = lay-on prev n m hops skb s j in
        let (along, end) = lay n m hops j.3.0 s' j.3.2 f.1 in
        ((table_of-Laid n prev m f.0 e, along), end)

    -- The start.
    lay-start :
        (proxy m : ℕ) (vset : VsetCopy) (next : Skb)
        → vset.count ≤ vrr_vset_size
        → Starts envs worlds later src dst pid proxy vset m next
        → (table_of src src dst pid src m ≡ after src) × Says (envs m) src dst pid next (worlds m)
    lay-start proxy m vset next small st =
        let p = st.passes in
        let e =
          vrr_local_rcv_setup-sends (envs src) dst pid proxy vset st.cells (worlds src) (ample src)
            p.mac st.readable (λ z. p.known (sym p.onward ∙ z))
            (subst (λ k. pset_get_mac k (worlds src).pset ≡ some p.mac) (sym p.onward) p.address) in
        let v = same_world e st.run in
        let c =
          Comes-frames (envs src)
            (first_header (envs src) dst pid proxy vset st.cells (worlds src) p.mac)
            (put_words (first_words (envs src) dst pid proxy vset st.cells (worlds src)))
            (worlds src) (later src) next (sym (ap (λ (w : World). w.sent) v)) p.comes in
        (
          ap (λ k. table_of src k dst pid k m) (sym (ids src))
              ∙ ap (λ k. table_of src (worlds src).node.id dst pid (worlds src).node.id k)
                  (sym p.onward)
              ∙ ap (λ (w : World). w.rt_root) v,
          subst (λ k. Says (envs m) k dst pid next (worlds m)) (ids src)
              (words-Says (envs m) (worlds src).node.version _ _ _ _ _ next (worlds m)
                (omega (arith, ids src, ws)) wd wp small c.0 c.1),
        )

    -- Nodes with identifiers of their own and memory at hand; two different 32-bit identifiers that
    -- are not 0, a positive path id of 32 bits, and a virtual set of the size allowed. Where
    -- `vrr_local_rcv_setup` starts a setup at one end, `vrr_rcv_setup` takes it at one node after
    -- the other, each time from a frame that the node before sent, the nodes are different, the last
    -- is the other end, which is healthy, and no table has a route that is in the way, then a packet
    -- from one end to the other visits the nodes of the path in order, and one the other way in the
    -- opposite order.
    pub setup-followed :
        src ≢ 0
        → dst ≢ 0
        → src ≢ dst
        → 0 < pid
        → (proxy m : ℕ) (hops : List ℕ) (vset : VsetCopy) (next : Skb) → vset.count ≤ vrr_vset_size
        → Starts envs worlds later src dst pid proxy vset m next
        → Journey envs worlds later src m hops next
        → Distinct (src ∷ m ∷ hops)
        → All (λ k. Fresh src dst pid k (worlds k)) (src ∷ m ∷ hops)
        → (walk after (length (src ∷ m ∷ hops)) dst src ≡ src ∷ m ∷ hops)
          × (walk after (length (src ∷ m ∷ hops)) src dst ≡ turned src (m ∷ hops) [])
    setup-followed hs hd two pos proxy m hops vset next small st j d f =
        let (e, s) = lay-start proxy m vset next small st in
        let (along, end) = lay src m hops next s j f.1 in
        path-followed rbs mems src dst pid before after hs hd two ws wd pos (m ∷ hops)
          (table_of-Laid src src m f.0 e, along) d end
