-- ===== src/Travel/Packet.antt =====
-- What a setup says, and that it says the same at the next node.
use alpaca_vrr.Base.{
  ℕ, ◌≤◌, ◌≡◌, sym, ap, ◌∙◌, inl, inr, List, [], ◌∷◌, ◌++◌, arith, Option-cases, subst,
}
use mathlib.Core.List.{append_cancel_left}
use alpaca_vrr.Vset.{vrr_vset_size}
use alpaca_vrr.Wire.{Skb, VrrHeader, ntoh, htonl, build_header, put_words, read_word, VrrPacket}
use alpaca_vrr.Wire.Words.{IsWord, ntohl-htonl}
use alpaca_vrr.World.{World, Env, Frame}
use alpaca_vrr.Send.Frames.{frames}
use alpaca_vrr.Receive.Forwarded.{source, target, path_id_of, size_of}
use alpaca_vrr.Travel.{Among, Comes}

-- The packet is a setup between the two ends, with the path id and a virtual set of the size allowed.
pub record Says (env : Env) (src dst pid : ℕ) (skb : Skb) (w : World) : Type 0 where
  pub from : source env skb w ≡ src
  pub to : target env skb w ≡ dst
  pub path : (path_id_of env skb w).0 ≡ pid
  pub size : (size_of env skb w).0 ≤ vrr_vset_size

-- All the frames are alike.
Among-frames :
    (env : Env) (header : VrrHeader) (payload : List ℕ) (names : List (List ℕ)) (f : Frame)
    → Among f (frames env header payload names)
    → (f.header ≡ header) × (f.payload ≡ payload)
Among-frames env header payload [] f a = absurd a
Among-frames env header payload (name ∷ names) f a =
    elim (Option-cases (env.dev_get_by_name name)) [
      | inl gone ↦ Among-frames env header payload names f (rw (frames, gone) at a)
      | inr (addr, there) ↦ elim (rw (frames, there) at a) [
        | inl same ↦ (ap (λ (g : Frame). g.header) same, ap (λ (g : Frame). g.payload) same)
        | inr later ↦ Among-frames env header payload names f later
      ]
    ]

-- The packet of four words or more that a header and its words make.
pub words-Says :
    (env : Env) (version : ℕ) (pkt : VrrPacket) (pid proxy size : ℕ) (xs : List ℕ) (skb : Skb)
    (w : World)
    → IsWord pkt.src
    → IsWord pkt.dst
    → IsWord pid
    → size ≤ vrr_vset_size
    → skb.header ≡ build_header version pkt
    → skb.payload ≡ put_words (pid ∷ proxy ∷ size ∷ xs)
    → Says env pkt.src pkt.dst pid skb w
unfolding build_header put_words read_word htonl
words-Says env version pkt pid proxy size xs skb w ws wd wp small h p = record {
  from = ap (λ z. ntoh 0 z.src_id) h ∙ ntohl-htonl pkt.src ws;
  to = ap (λ z. ntoh 0 z.dest_id) h ∙ ntohl-htonl pkt.dst wd;
  path = ap (λ z. (read_word (env.junk 0) z).0) p ∙ ntohl-htonl pid wp;
  size = omega (arith, same_size, small);
}
  where
    same_size : (size_of env skb w).0 ≡ size
    same_size =
        ap (λ z. (read_word (env.junk 2) (read_word (env.junk 1) (read_word (env.junk 0) z).1).1).0)
          p
        ∙ ntohl-htonl size (omega (arith, small))

-- A packet that comes from a world that has sent the frames of one header and payload has both.
pub Comes-frames :
    (env : Env) (header : VrrHeader) (payload : List ℕ) (w v : World) (skb : Skb)
    → v.sent ≡ w.sent ++ frames env header payload w.node.dev_list
    → Comes w v skb
    → (skb.header ≡ header) × (skb.payload ≡ payload)
Comes-frames env header payload w v skb e c =
    let all_new =
      append_cancel_left w.sent c.new (frames env header payload w.node.dev_list)
        (sym c.sent ∙ e) in
    let f =
      Among-frames env header payload w.node.dev_list c.frame
        (subst (Among c.frame) all_new c.among) in
    (c.same_header ∙ f.0, c.same_payload ∙ f.1)
