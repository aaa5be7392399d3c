-- ===== src/Joining/Together.antt =====
-- A new node and its neighbour after the exchange of a setup request and a setup.
use alpaca_vrr.Base.{
  if◌then◌else◌, ℕ, ◌<◌, ◌≡◌, ◌≢◌, refl, sym, ap, ◌∙◌, true, false, some, List, [], ◌∷◌, done, ◌==◌,
  ==_self, ==_ne, ==_iff, bytes_eq,
}
use alpaca_vrr.Ids.{word}
use alpaca_vrr.Rt.{rt_add_route}
use alpaca_vrr.Pset.{pset_lookup_mac}
use alpaca_vrr.Vset.{vset_init}
use alpaca_vrr.World.{World, Env}
use alpaca_vrr.Send.{no_id}
use alpaca_vrr.Health.{Scope}
use alpaca_vrr.Joining.Granting.{with_node}
use alpaca_vrr.Joining.Exchange.{noted, exchange, exchange-runs}
use alpaca_vrr.Rt.Defs.{Tree}
use alpaca_vrr.Rt.Paths.{walk, path-followed}
use alpaca_vrr.Travel.{Fresh}
use alpaca_vrr.Travel.Relay.{Network, IsReliable, Linked, arrival}
use alpaca_vrr.Joining.Asking.{asks_first}
use alpaca_vrr.Joining.Answering.{Welcoming, path_id, grants}
use alpaca_vrr.Joining.Meeting.{Newcomer, joins}
use alpaca_vrr.Travel.Tables.{Fresh-Laid}

-- After the exchange.
-- The table of each of the two nodes.
abbrev pub left : ℕ → World → World → ℕ → Tree
left p vp va n = if n == p then vp.rt_root else va.rt_root

module _ (net : Network) (envs : ℕ → Env) (worlds : ℕ → World) (a p : ℕ) where
  -- Both nodes have done their part without a fault. Each has the other in its virtual set, the new
  -- one is active, and by their tables a packet goes from each one to the other.
  pub record Meets (vp va : World) : Type 0 where
    pub done_both :
        exchange net envs worlds a p
        ≡ some (record { granted = done (true, vp); joined = done (true, va) })
    pub granted_set : vp.vset ≡ with_node (worlds p).me a (worlds p).vset
    pub joined_set : va.vset ≡ with_node (worlds a).me p vset_init
    pub joined_active : va.node.active ≡ 1
    pub there : walk (left p vp va) 2 a p ≡ p ∷ a ∷ []
    pub back : walk (left p vp va) 2 p a ≡ a ∷ p ∷ []

module _ (net : Network) (reliable : IsReliable net) (envs : ℕ → Env) (worlds : ℕ → World)
    (ample : (n k : ℕ) → (envs n).kmalloc k ≡ true) (a p : ℕ) (wa : a < word) (wp : p < word) where
  ways :
      (pid n_p n_a : ℕ) (vp va : World)
      → a ≢ 0
      → p ≢ 0
      → p ≢ a
      → 0 < pid
      → Fresh p a pid p (worlds p)
      → Fresh p a pid a (worlds a)
      → vp.rt_root
        ≡ (rt_add_route (envs p).rb (envs p).kmalloc p a p a pid (worlds p).rt_root n_p).1
      → va.rt_root
        ≡ (rt_add_route (envs a).rb (envs a).kmalloc p a p 0 pid (worlds a).rt_root n_a).1
      → (walk (left p vp va) 2 a p ≡ p ∷ a ∷ []) × (walk (left p vp va) 2 p a ≡ a ∷ p ∷ [])
  ways pid n_p n_a vp va ha hp two pos fp fa ep ea =
      path-followed (λ n. (envs n).rb) (λ n. (envs n).kmalloc) p a pid (λ n. (worlds n).rt_root)
        (left p vp va) hp ha two wp wa pos (a ∷ [])
        (
          Fresh-Laid (envs p).rb (envs p).kmalloc (ample p) p a pid p p a n_p (worlds p) _ fp
              (sym ep ∙ rw (==_self p) refl),
          Fresh-Laid (envs a).rb (envs a).kmalloc (ample a) p a pid a p 0 n_a (worlds a) _ fa
              (sym ea ∙ rw (==_ne a p two') refl),
        )
        ((two', tt), (tt, tt)) refl
    where
      two' : a ≢ p
      two' e = two (sym e)

  -- Two nodes with identifiers of their own, neither 0 nor -1, and memory at hand, that are healthy
  -- and know each other's addresses as neighbours; a network in which, of the frames of a node, one
  -- arrives at the node that has its address. One is new: its virtual set is empty. The other has no
  -- way to it but as a neighbour, has it not in its virtual set, has room there, and draws a positive
  -- word as the path id; no route of either table is in the way. Where the new node sends its setup
  -- request, the neighbour takes it in and answers by a setup; then each has the other in its virtual
  -- set, the new node is active, and by the tables a packet goes from each to the other.
  pub exchange-Meets :
      {sc_a sc_p : Scope}
      → sc_a.strict ≡ true
      → (worlds a).node.id ≡ a
      → (worlds p).node.id ≡ p
      → Newcomer sc_a a (worlds a)
      → Welcoming sc_p a (worlds p)
      → Linked net envs worlds a p
      → (back : Linked net envs worlds p a)
      → ((name addr : List ℕ)
          → (envs p).dev_get_by_name name ≡ some addr
          → (bytes_eq back.mac addr ≡ false) × (pset_lookup_mac addr (worlds a).pset ≡ some p))
      → p ≢ a
      → a ≢ no_id
      → p ≢ no_id
      → let pid = (envs p).random (worlds p).draws in
        0 < pid
        → pid < word
        → Fresh p a pid p (worlds p)
        → Fresh p a pid a (worlds a)
        → (vp : World) × (va : World) × Meets net envs worlds a p vp va
  exchange-Meets {sc_a} {sc_p} strict ia ip newcomer wel there back hears two ka kp pos small fp
        fa =
      let (f, v, q) = asks_first net reliable envs worlds ample a p wa wp ia newcomer.empty there in
      let skb = arrival f in
      let (g, vp, gr) =
        grants net reliable envs worlds ample a p wa wp ip back wel ka small skb q.is_request
          (q.asks (noted (envs p) skb (worlds p))) in
      let pid = path_id net reliable envs worlds ample a p wa wp in
      let (va, run, set, active, root) =
        joins net reliable envs worlds ample a p wa wp strict ia newcomer kp back.mac hears g v
          q.still gr.address gr.from pid gr.is_setup gr.says in
      let w = ways pid gr.count v.allocs vp va back.named there.named two pos fp fa gr.laid root in
      (
        vp,
        va,
        record {
          done_both =
              exchange-runs net envs worlds a p (true, v) (true, vp) f g q.run q.carries q.owner
                gr.run gr.carries ((==_iff _ a).1 (ap net.owner gr.address ∙ back.owned))
              ∙ ap (λ o. some (record { granted = done (true, vp); joined = o })) run;
          granted_set = gr.member;
          joined_set = set;
          joined_active = active;
          there = w.0;
          back = w.1;
        },
      )
