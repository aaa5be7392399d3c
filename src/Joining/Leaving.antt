-- ===== src/Joining/Leaving.antt =====
-- A teardown: `vrr_rcv_teardown` of vrr_input.c for a route that is in the table.
use alpaca_vrr.Base.{
  ℕ, ◌+◌, ◌≤◌, ◌≡◌, ◌≢◌, refl, inl, inr, ◌⊎◌, Bool, true, false, some, List, done, Returns, ge→ltb,
  ◌==◌, ==_iff, Bool-cases, arith,
}
use alpaca_vrr.Rt.{rt_remove_route}
use alpaca_vrr.Rt.Defs.{RtEntry}
use alpaca_vrr.Vset.{vset_remove, vrr_vset_size}
use alpaca_vrr.Wire.{Skb, ntoh, read_word, read_words}
use alpaca_vrr.World.{World, Env, pure, ◌>>=◌, ◌>>◌, modify, lift, alloc, remove_route, case_option}
use alpaca_vrr.Receive.Setup.{own_array}
use alpaca_vrr.Receive.Teardown.{teardown_end, end_teardown, vrr_rcv_teardown}
use alpaca_vrr.Health.{Scope, Healthy}
use alpaca_vrr.Health.Parts.{same, own_cells, remove_route-Keeps}
use alpaca_vrr.Health.Sending.{send_teardown-Keeps}
use alpaca_vrr.Health.Failures.{vset_remove-Healthy}
use alpaca_vrr.Joining.{core}
use alpaca_vrr.Joining.Senders.{send_teardown-Quiet}
use alpaca_vrr.Joining.Add.{Decides, vrr_add-ran, moved, ran}

-- The first two words of the payload, as the handler reads them.
abbrev pub word_0 : Env → Skb → ℕ × List ℕ
word_0 env skb = read_word (env.junk 0) skb.payload

abbrev pub word_1 : Env → Skb → ℕ × List ℕ
word_1 env skb = read_word (env.junk 1) (word_0 env skb).1

module _ (env : Env) (skb : Skb) (w : World) (endpt next : ℕ) where
  abbrev size_left : ℕ × List ℕ
  size_left = read_word (env.junk 2) (word_1 env skb).1

  -- The world without the route, and without the other end in the virtual set.
  abbrev pub cut : World
  cut = record w { rt_root = (rt_remove_route (word_0 env skb).0 (word_1 env skb).0 w.rt_root).1 }

  abbrev pub left_out : World
  left_out = record cut { vset = (vset_remove endpt w.vset).1 }

  -- Where the path ends, the other end is taken out of the virtual set, and `vrr_add` decides on the
  -- node 0, which stands for none there; else only the route is gone.
  abbrev pub Leaves : Bool × World → Type 0
  Leaves (false, v) = ⊥
  Leaves (true, v) =
      ((next ≡ 0) × ((b : Bool) × Decides env 0 left_out (b, v)))
      ⊎ ((next ≢ 0) × (core v ≡ core cut))

  -- With memory at hand, in a healthy world: a teardown for a route in the table, with a virtual set
  -- of the size allowed, takes the route out. If it has a next hop, nothing else changes but the
  -- frames and the counts; if not, the other end is taken out of the virtual set, and `vrr_add`
  -- decides on the node 0: if `vset_should_add` says so, the set is what `vset_add` leaves for it, with
  -- the node 0 in it unless `vset_add` bumped that same node out.
  pub vrr_rcv_teardown-Leaves :
      ((n : ℕ) → env.kmalloc n ≡ true)
      → {sc : Scope} → sc.strict ≡ true
      → Healthy sc w
      → (r : RtEntry) → (rt_remove_route (word_0 env skb).0 (word_1 env skb).0 w.rt_root).0 ≡ some r
      → teardown_end (some r) (ntoh 0 skb.header.src_id) ≡ done (endpt, next)
      → size_left.0 ≤ vrr_vset_size
      → Returns (vrr_rcv_teardown env skb w) Leaves
  unfolding vrr_rcv_teardown end_teardown ◌>>=◌ ◌>>◌ remove_route lift alloc pure modify case_option
  vrr_rcv_teardown-Leaves ample {sc} strict h r found far small =
      let hc : Healthy sc cut =
        ((remove_route-Keeps env ample sc (word_0 env skb).0 (word_1 env skb).0).runs w h).0 in
      let after = record cut { allocs = cut.allocs + 1 } in
      let ha : Healthy sc after = same hc refl refl refl refl refl in
      let words = (read_words env.junk size_left.0 size_left.1).0 in
      elim (Bool-cases (next == 0)) [
        | inl here ↦
            let (b, v, e, hv, d) =
              vrr_add-ran env ample strict 0 words
                (record after { vset = (vset_remove endpt w.vset).1 })
                (vset_remove-Healthy env ample sc endpt after ha) in
            rw (found, far, ge→ltb vrr_vset_size size_left.0 small, ample cut.allocs, here, e)
              (inl (
                (==_iff next 0).0 here,
                (
                  b,
                  moved env 0 left_out (record after { vset = (vset_remove endpt w.vset).1 }) refl
                      (b, v) d,
                ),
              ))
        | inr there ↦
            let (b, v, e, hv, q, c) =
              ran
                (send_teardown-Keeps env ample sc (word_1 env skb).0 (word_0 env skb).0
                  (own_array size_left.0 words) next (own_cells size_left.0 words))
                (send_teardown-Quiet env (word_1 env skb).0 (word_0 env skb).0
                  (own_array size_left.0 words) next)
                strict after ha in
            rw (found, far, ge→ltb vrr_vset_size size_left.0 small, ample cut.allocs, there, e)
              (inr ((λ z. ground (arith, there, z)), c))
      ]
