-- ===== src/Traffic/Senders.antt =====
-- The senders send well-formed packets.
use alpaca_vrr.Base.{
  ℕ, ◌%◌, ◌<◌, ◌≡◌, ◌≢◌, refl, Bool, true, false, List, [], ◌∷◌, ◌++◌, All, arith, length, Run,
  done, oops, if◌then◌else◌, null_deref, bind_run, Option, none, some, sym,
}
use alpaca_vrr.Pset
use alpaca_vrr.Vset
use alpaca_vrr.Vset.{Vset, VsetCopy, Bump}
use alpaca_vrr.Wire.{
  VrrHeader, VrrPacket, build_header, put_words, htonl, htons, ntoh, vrr_nptypes, vrr_data,
}
use alpaca_vrr.Wire.Words.{length-put_words}
use alpaca_vrr.World.{
  World, Env, read_array, alloc, vset_copy, should_add, add_to_vset, get_proxy, get_random,
  add_route, drawn, added,
}
use alpaca_vrr.World.Steps.{
  Moves, IsPreorder, Steps-bind, Steps-then, Steps-pure, Steps-lift, Steps-get, Steps-case,
  Steps-if, Steps-modify,
}
use alpaca_vrr.Send.{
  emit, output_loop, vrr_output, send_packet, send_setup_req, send_to, send_setup, send_setup_fail,
  send_teardown,
}
use alpaca_vrr.Traffic.{IsPacket, IsFrame, Good, Sends}

pub order : IsPreorder Good
order = record { stay = λ w h. h; follow = λ f g h. g (f h) }

All-append : {A : Type 0} (P : A → Type 0) (xs ys : List A) → All P xs → All P ys → All P (xs ++ ys)
All-append P [] ys hx hy = hy
All-append P (x ∷ xs) ys hx hy = (hx.0, All-append P xs ys hx.1 hy)

-- The header that is built for a payload of so many bytes.
pub built-IsPacket :
    (version : ℕ) (pkt : VrrPacket) (payload : List ℕ)
    → pkt.pkt_type < vrr_nptypes
    → pkt.data_len ≡ length payload
    → (pkt.pkt_type ≢ vrr_data → length payload % 4 ≡ 0)
    → IsPacket (build_header version pkt) payload
unfolding build_header htonl htons ntoh
built-IsPacket version pkt payload t l a = record {
  typed = t;
  protocol = refl;
  source = (refl, (omega arith, (omega arith, (omega arith, (omega arith, tt)))));
  destination = (refl, (omega arith, (omega arith, (omega arith, (omega arith, tt)))));
  sized = omega (arith, l);
  aligned = a;
}

module _ (env : Env) where
  pub alloc-Sends : Sends (alloc env)
  unfolding alloc
  alloc-Sends = record { moves = λ w h. h }

  pub vset_copy-Sends : Sends (vset_copy env)
  unfolding vset_copy
  vset_copy-Sends =
      Steps-bind order alloc-Sends
        λ memory. Steps-bind order (Steps-get order) λ w. Steps-lift order _

  pub get_random-Sends : Sends (get_random env)
  unfolding get_random
  get_random-Sends = record { moves = λ w h. h }

  pub add_route-Sends : (ea eb na nb pid : ℕ) → Sends (add_route env ea eb na nb pid)
  unfolding add_route
  add_route-Sends ea eb na nb pid = record { moves = λ w h. h }

  pub should_add-Sends : (node : ℕ) → Sends (should_add env node)
  unfolding should_add
  should_add-Sends node = record {
    moves =
        λ w. (Steps-lift order (Vset.vset_should_add env.sort env.junk w.me node w.vset)).moves w;
  }

  pub get_proxy-Sends : Sends (get_proxy env)
  unfolding get_proxy
  get_proxy-Sends = record { moves = λ w. go w (Pset.pset_get_proxy (env.random w.draws) w.pset) }
    where
      go : (w : World) (o : Run (Option ℕ)) → Moves Good w (bind_run o (drawn w))
      go w (done none) = λ h. h
      go w (done (some p)) = λ h. h
      go w (oops e) = tt

  pub add_to_vset-Sends : (node : ℕ) → Sends (add_to_vset env node)
  unfolding add_to_vset
  add_to_vset-Sends node = record { moves = λ w. tested w (Vset.vset_has node w.vset.entries) }
    where
      go : (w : World) (o : Run (Option Bump × Vset)) → Moves Good w (bind_run o (added w))
      go w (done (b, v)) = λ h. h
      go w (oops e) = tt

      tested :
          (w : World) (b : Bool)
          → Moves Good w (
              if b
              then done (none, w)
              else bind_run
                  (Vset.vset_add env.sort env.junk (env.kmalloc w.allocs) w.me node w.vset)
                  (added w))
      tested w true = λ h. h
      tested w false = go w _

  module _ (header : VrrHeader) (payload : List ℕ) (p : IsPacket header payload) where
    output_loop-Sends : (names : List (List ℕ)) → Sends (output_loop env header payload names)
    unfolding output_loop
    output_loop-Sends [] = Steps-pure order tt
    output_loop-Sends (name ∷ names) =
        let rest = output_loop-Sends names in
        Steps-case (env.dev_get_by_name name) rest λ addr e. Steps-bind order alloc-Sends λ clone.
          Steps-if clone
            (Steps-then order
              (Steps-modify (emit name addr header payload)
                (λ w h. All-append IsFrame w.sent _ h ((p, refl), tt)))
              rest)
            rest

    pub vrr_output-Sends : Sends (vrr_output env header payload)
    unfolding vrr_output
    vrr_output-Sends = Steps-bind order (Steps-get order) λ w. output_loop-Sends w.node.dev_list

  pub send_packet-Sends :
      (t src dst : ℕ) (mac words : List ℕ)
      → t < vrr_nptypes
      → Sends (send_packet env t src dst mac words)
  unfolding send_packet
  send_packet-Sends t src dst mac words small = Steps-bind order alloc-Sends λ skb.
      Steps-bind order (Steps-get order) λ w.
        Steps-if skb
          (Steps-then order
            (vrr_output-Sends _ _ (
              built-IsPacket w.node.version _ (put_words words) small (sym (length-put_words words))
                (λ _. omega (arith, length-put_words words))))
            (Steps-pure order true))
          (Steps-pure order false)

  pub send_setup_req-Sends : (src dest proxy : ℕ) → Sends (send_setup_req env src dest proxy)
  unfolding send_setup_req
  send_setup_req-Sends src dest proxy = Steps-bind order (Steps-get order) λ w.
      Steps-bind order vset_copy-Sends λ vset. Steps-bind order alloc-Sends λ memory.
        Steps-bind order (Steps-lift order (if memory then read_array vset else oops null_deref))
          λ cells. send_packet-Sends _ _ _ _ _ (omega arith)

  send_to-Sends :
      (t src dst : ℕ) (head : List ℕ) (vset : VsetCopy) (to : ℕ)
      → t < vrr_nptypes
      → Sends (send_to env t src dst head vset to)
  unfolding send_to
  send_to-Sends t src dst head vset to small = Steps-bind order (Steps-get order) λ w.
      Steps-case (Pset.pset_get_mac to w.pset) (Steps-pure order _) λ mac e.
        Steps-bind order (Steps-lift order (read_array vset))
          λ cells. send_packet-Sends _ _ _ _ _ small

  pub send_setup-Sends :
      (src dest pid proxy : ℕ) (vset : VsetCopy) (to : ℕ)
      → Sends (send_setup env src dest pid proxy vset to)
  unfolding send_setup
  send_setup-Sends src dest pid proxy vset to = send_to-Sends _ _ _ _ vset to (omega arith)

  pub send_setup_fail-Sends :
      (src dest proxy : ℕ) (vset : VsetCopy) (to : ℕ)
      → Sends (send_setup_fail env src dest proxy vset to)
  unfolding send_setup_fail
  send_setup_fail-Sends src dest proxy vset to = send_to-Sends _ _ _ _ vset to (omega arith)

  pub send_teardown-Sends :
      (pid endpoint : ℕ) (vset : VsetCopy) (to : ℕ) → Sends (send_teardown env pid endpoint vset to)
  unfolding send_teardown
  send_teardown-Sends pid endpoint vset to =
      Steps-bind order (Steps-get order) λ w. send_to-Sends _ _ _ _ vset to (omega arith)
