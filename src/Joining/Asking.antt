-- ===== src/Joining/Asking.antt =====
-- A new node asks a neighbour: `send_setup_req` of vrr_core.c without virtual neighbours.
use alpaca_vrr.Base.{ℕ, ◌+◌, ◌<◌, ◌≡◌, refl, ap, ◌∙◌, true, some, List, [], done, arith}
use alpaca_vrr.Ids.{word}
use alpaca_vrr.Vset.{VsetCopy, vset_init, vset_get_all, fill_array}
use alpaca_vrr.Wire.{Skb, VrrHeader, ntoh, put_words, read_word, build_header}
use alpaca_vrr.Wire.Words.{ntohl-htonl}
use alpaca_vrr.World.{World, Env, Frame, read_array}
use alpaca_vrr.Send.{send_setup_req}
use alpaca_vrr.Send.Frames.{sending, frames}
use alpaca_vrr.Joining.{core}
use alpaca_vrr.Joining.Request.{asking, size_asked}
use alpaca_vrr.Joining.Granting.{request_words, request_header, send_setup_req-sends}
use alpaca_vrr.Travel.Relay.{Network, IsReliable, Linked, arrival, carried}
use alpaca_vrr.Travel.Carried.{frames-carried, carried-sending}

-- The request of `a`, as it is read where it comes.
pub record Asks (env : Env) (a : ℕ) (skb : Skb) (w : World) : Type 0 where
  pub from : asking env skb w ≡ a
  pub to : ntoh 0 skb.header.dest_id ≡ a
  pub nothing : (size_asked env skb w).0 ≡ 0

abbrev no_set : VsetCopy
no_set = record { count = 0; cells = some [] }

request-Asks :
    (env : Env) (v w : World) (a p : ℕ) (mac : List ℕ) (skb : Skb)
    → a < word
    → skb.header ≡ request_header v a a p no_set [] mac
    → skb.payload ≡ put_words (request_words p no_set [])
    → Asks env a skb w
unfolding build_header put_words read_word
request-Asks env v w a p mac skb wa h q = record {
  from = ap (λ (z : VrrHeader). ntoh 0 z.src_id) h ∙ ntohl-htonl a wa;
  to = ap (λ (z : VrrHeader). ntoh 0 z.dest_id) h ∙ ntohl-htonl a wa;
  nothing =
      ap (λ z. (read_word (env.junk 1) (read_word (env.junk 0) z).1).0) q
      ∙ ntohl-htonl 0 (omega arith);
}

module _ (net : Network) (reliable : IsReliable net) (envs : ℕ → Env) (worlds : ℕ → World)
    (ample : (n k : ℕ) → (envs n).kmalloc k ≡ true) (a p : ℕ) (wa : a < word) (wp : p < word) where
  -- The request as it comes to `p`, from the world `v`.
  pub record Asked (f : Frame) (v : World) : Type 0 where
    pub run :
        send_setup_req (envs a) (worlds a).node.id (worlds a).node.id p (worlds a) ≡ done (true, v)
    pub carries : carried net (worlds a) (done (true, v)) ≡ some f
    pub owner : net.owner f.dest_mac ≡ p
    pub is_request : f.header.pkt_type ≡ 2
    pub asks : (w : World) → Asks (envs p) a (arrival f) w
    pub still : core v ≡ core (worlds a)

  pub asks_first :
      (worlds a).node.id ≡ a
      → (worlds a).vset ≡ vset_init
      → Linked net envs worlds a p
      → (f : Frame) × (v : World) × Asked f v
  unfolding vset_get_all fill_array vset_init read_array build_header
  asks_first id empty l =
      let header =
        request_header (worlds a) (worlds a).node.id (worlds a).node.id p no_set [] l.mac in
      let payload = put_words (request_words p no_set []) in
      let fs = frames (envs a) header payload (worlds a).node.dev_list in
      let (f, there, c) =
        frames-carried (envs a) header payload net reliable (worlds a).node.dev_list l.up in
      let v = sending (record (worlds a) { allocs = (worlds a).allocs + 1 + 1 + 1 }) fs in
      (
        f,
        v,
        record {
          run =
              send_setup_req-sends (envs a) (ample a) (worlds a) (worlds a).node.id
                (worlds a).node.id p l.mac no_set [] l.address
                (ap (vset_get_all (envs a).junk true) empty) refl;
          carries = carried-sending net (worlds a) true v fs refl refl ∙ there;
          owner = ap net.owner c.2 ∙ l.owned;
          is_request = ap (λ (z : VrrHeader). z.pkt_type) c.0;
          asks = λ w.
              request-Asks (envs p) (worlds a) w a p l.mac (arrival f) wa
                (c.0 ∙ ap (λ k. request_header (worlds a) k k p no_set [] l.mac) id) c.1;
          still = refl;
        },
      )
