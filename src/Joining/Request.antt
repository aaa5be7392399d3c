-- ===== src/Joining/Request.antt =====
-- A setup request at its end: `vrr_rcv_setup_req` of vrr_input.c where there is no next hop.
use alpaca_vrr.Base.{
  ℕ, ◌+◌, ◌≤◌, ◌≡◌, refl, ap, ◌∙◌, inl, inr, ◌⊎◌, Bool, true, false, List, done, Returns, ge→ltb,
  if◌then◌else◌, ◌==◌, arith,
}
use alpaca_vrr.Rt.{rt_add_route, rt_get_next_exclude}
use alpaca_vrr.Rt.Spec.{rt_add_route-succeeds}
use alpaca_vrr.Vset.{VsetCopy, vrr_vset_size}
use alpaca_vrr.Wire.{Skb, ntoh, read_word, read_words}
use alpaca_vrr.World.{World, Env, M, pure, ◌>>=◌, ◌>>◌, get, alloc, add_route, get_random}
use alpaca_vrr.Send.{send_setup}
use alpaca_vrr.Receive.Setup.{
  hop_towards, vrr_local_rcv_setup, vrr_local_rcv_setup_fail, vrr_rcv_setup_req,
}
use alpaca_vrr.Health.{Scope, Healthy, Ensures}
use alpaca_vrr.Health.Rules.{Ensures-then, Ensures-if, Ensures-pure}
use alpaca_vrr.Health.Parts.{CanRead, same, vset_copy-Ensures, add_route-Keeps}
use alpaca_vrr.Health.Sending.{send_setup-Keeps}
use alpaca_vrr.Health.Receiving.{vrr_local_rcv_setup_fail-Keeps}
use alpaca_vrr.Joining.{core, Quiet}
use alpaca_vrr.Joining.Rules.{Quiet-then, Quiet-if, Quiet-pure, vset_copy-Quiet}
use alpaca_vrr.Joining.Senders.{send_setup-Quiet, vrr_local_rcv_setup_fail-Quiet}
use alpaca_vrr.Joining.Add.{Decides, vrr_add-ran, moved, ran}

module _ (env : Env) where
  -- The end of `vrr_local_rcv_setup`.
  abbrev answer : ℕ → ℕ → ℕ → ℕ → VsetCopy → ℕ → M Bool
  answer me dst pid proxy vset nh =
      if nh == 0 then pure true else send_setup env me dst pid proxy vset nh >> pure true

  answer-Quiet :
      (me dst pid proxy : ℕ) (vset : VsetCopy) (nh : ℕ) → Quiet (answer me dst pid proxy vset nh)
  answer-Quiet me dst pid proxy vset nh =
      Quiet-if (nh == 0) (Quiet-pure true)
        (Quiet-then (send_setup-Quiet env me dst pid proxy vset nh) (Quiet-pure true))

  -- The world `w` with the route to `dst` that `vrr_local_rcv_setup` lays there.
  abbrev pub routed : ℕ → ℕ → ℕ → World → World
  routed dst pid proxy w =
      let (ret, root, n) =
        rt_add_route env.rb env.kmalloc w.node.id dst w.node.id (hop_towards dst proxy w) pid
          w.rt_root w.allocs in
      record w { rt_root = root; allocs = n }

  module _ (ample : (n : ℕ) → env.kmalloc n ≡ true) {sc : Scope} (strict : sc.strict ≡ true) where
    answer-Ensures :
        (me dst pid proxy : ℕ) (vset : VsetCopy) (nh : ℕ)
        → CanRead vset
        → Ensures sc (answer me dst pid proxy vset nh) (λ a. a ≡ true)
    answer-Ensures me dst pid proxy vset nh r =
        Ensures-if (nh == 0) (λ e. Ensures-pure true refl)
          (λ e.
            Ensures-then (send_setup-Keeps env ample sc me dst pid proxy vset nh r)
              (Ensures-pure true refl))

    -- With memory at hand, in a healthy world, `vrr_local_rcv_setup` lays the route from this node,
    -- by the hop towards its end, and changes nothing else but the frames and the counts.
    vrr_local_rcv_setup-routed :
        (dst pid proxy : ℕ) (vset : VsetCopy)
        → CanRead vset
        → (w : World) → Healthy sc w
        → (v : World) × (vrr_local_rcv_setup env dst pid proxy vset w ≡ done (true, v))
          × (core v ≡ core (routed dst pid proxy w))
    unfolding vrr_local_rcv_setup ◌>>=◌ get add_route
    vrr_local_rcv_setup-routed dst pid proxy vset r w h =
        let nh = hop_towards dst proxy w in
        let g = ((add_route-Keeps env ample sc w.node.id dst w.node.id nh pid).runs w h).0 in
        let (a, v, e, hv, q, c) =
          ran (answer-Ensures w.node.id dst pid proxy vset nh r)
            (answer-Quiet w.node.id dst pid proxy vset nh) strict (routed dst pid proxy w) g in
        (
          v,
          rw
              (rt_add_route-succeeds env.rb env.kmalloc w.me ample w.node.id dst w.node.id nh pid
                w.rt_root w.allocs)
              (e ∙ ap (λ b. done (b, v)) q),
          c,
        )

    vrr_local_rcv_setup_fail-core :
        (dst proxy : ℕ) (vset : VsetCopy)
        → CanRead vset
        → 1 ≤ vset.count
        → (w : World) → Healthy sc w
        → (a : Bool) × (v : World) × (vrr_local_rcv_setup_fail env dst proxy vset w ≡ done (a, v))
          × (core v ≡ core w)
    vrr_local_rcv_setup_fail-core dst proxy vset r c w h =
        let (a, v, e, hv, q, k) =
          ran (vrr_local_rcv_setup_fail-Keeps env ample sc dst proxy vset r (inl c))
            (vrr_local_rcv_setup_fail-Quiet env dst proxy vset) strict w h in
        (a, v, e, k)

module _ (env : Env) (skb : Skb) (w : World) where
  abbrev pub asking : ℕ
  asking = ntoh 0 skb.header.src_id

  abbrev pub proxy_asked : ℕ × List ℕ
  proxy_asked = read_word (env.junk 0) skb.payload

  abbrev pub size_asked : ℕ × List ℕ
  size_asked = read_word (env.junk 1) proxy_asked.1

  -- The source is added to the virtual set, and a route to it is laid, with a random word as its
  -- path id; or the source is not wanted, and nothing has changed but the frames and the counts.
  abbrev pub Grants : Bool × World → Type 0
  Grants (false, v) = ⊥
  Grants (true, v) =
      ((d : World) × Decides env asking w (true, d)
        × (core v ≡ core (routed env asking (env.random d.draws) proxy_asked.0 d)))
      ⊎ Decides env asking w (false, v)

  granted :
      ((n : ℕ) → env.kmalloc n ≡ true)
      → {sc : Scope} → sc.strict ≡ true
      → (ovset : VsetCopy) → CanRead ovset
      → 1 ≤ ovset.count
      → (a : Bool) (v : World) → Healthy sc v
      → Decides env asking w (a, v)
      → Returns
          (((if a
                then get_random env
                  >>= (λ pid. vrr_local_rcv_setup env asking pid proxy_asked.0 ovset)
                else vrr_local_rcv_setup_fail env asking proxy_asked.0 ovset)
              >> pure true)
            v)
          Grants
  unfolding ◌>>=◌ ◌>>◌ pure get_random hop_towards
  granted ample strict ovset r c true v h d =
      let after = record v { draws = v.draws + 1 } in
      let (u, e, q) =
        (vrr_local_rcv_setup-routed env ample strict asking (env.random v.draws) proxy_asked.0 ovset
          r after (same h refl refl refl refl refl)) in
      rw e (inl (v, d, q))
  granted ample strict ovset r c false v h d =
      let (x, u, e, k) =
        vrr_local_rcv_setup_fail-core env ample strict asking proxy_asked.0 ovset r c v h in
      rw e (inr (d.0, k ∙ d.1))

  -- With memory at hand, in a healthy world in which a node was counted into the virtual set: a
  -- setup request that has no next hop, with a virtual set of the size allowed, is granted or not as
  -- `vrr_add` decides on its source. If it is, the set is what `vset_add` leaves for the source, with
  -- the source in it unless `vset_add` bumped that same node out, and the table has the route to it;
  -- if not, nothing has changed but the frames and the counts.
  pub vrr_rcv_setup_req-Grants :
      ((n : ℕ) → env.kmalloc n ≡ true)
      → {sc : Scope} → sc.strict ≡ true
      → 1 ≤ sc.low
      → Healthy sc w
      → rt_get_next_exclude w.me w.rt_root (ntoh 0 skb.header.dest_id) asking ≡ 0
      → size_asked.0 ≤ vrr_vset_size
      → Returns (vrr_rcv_setup_req env skb w) Grants
  unfolding vrr_rcv_setup_req ◌>>=◌ ◌>>◌ get alloc pure get_random
  vrr_rcv_setup_req-Grants ample {sc} strict low h here small =
      let after = record w { allocs = w.allocs + 1 } in
      let (ovset, w1, e1, h1, q1, c1) =
        ran (vset_copy-Ensures env ample sc) (vset_copy-Quiet env) strict after
          (same h refl refl refl refl refl) in
      let (a, v, e2, h2, d2) =
        vrr_add-ran env ample strict asking (read_words env.junk size_asked.0 size_asked.1).0 w1
          h1 in
      rw (here, ge→ltb vrr_vset_size size_asked.0 small, ample w.allocs, e1, e2)
        (granted ample strict ovset q1.1 (omega (arith, low, q1.0)) a v h2
          (moved env asking w w1 c1 (a, v) d2))
