-- ===== src/Send/Hello.antt =====
-- From `send_hpkt` of one node to `vrr_rcv_hello` of another.
use alpaca_vrr.Base.{
  ℕ, ◌≤◌, ◌≡◌, refl, inl, inr, true, some, List, [], ◌∷◌, ◌++◌, All, Returns, length, Option-cases,
}
use alpaca_vrr.Pset.{vrr_pset_size}
use alpaca_vrr.Wire.{VrrHeader, put_words}
use alpaca_vrr.Wire.Words.{IsWord}
use alpaca_vrr.World.{World, Env, Frame}
use alpaca_vrr.Send.{send_hpkt}
use alpaca_vrr.Send.Frames.{frame, frames, hello_header, hello_of, send_hpkt-frames}
use alpaca_vrr.Receive.Hello.{parse_hello}
use alpaca_vrr.Receive.Hello.Roundtrip.{meaning, parse_hello-words}

frames-All :
    (env : Env) (header : VrrHeader) (payload : List ℕ) (P : Frame → Type 0)
    → ((name addr : List ℕ) → P (frame name addr header payload))
    → (names : List (List ℕ)) → All P (frames env header payload names)
frames-All env header payload P h [] = tt
frames-All env header payload P h (name ∷ names) =
    let rest = frames-All env header payload P h names in
    elim (Option-cases (env.dev_get_by_name name)) [
      | inl gone ↦ rw (gone, frames) rest
      | inr (addr, there) ↦ rw (there, frames) (h name addr, rest)
    ]

-- With memory at hand, and a snapshot of 32-bit identifiers that fits its arrays, `send_hpkt`
-- returns, sends nothing but some frames, and any node reads from each of them this node's activity
-- and the transition that the snapshot means to it.
pub send_hpkt-understood :
    (env : Env) (junk : ℕ → ℕ) (reader : ℕ) (w : World)
    → ((n : ℕ) → env.kmalloc n ≡ true)
    → IsWord w.node.active
    → All IsWord w.pstate.l_active
    → All IsWord w.pstate.l_not_active
    → All IsWord w.pstate.pending
    → length w.pstate.l_active ≤ vrr_pset_size
    → length w.pstate.l_not_active ≤ vrr_pset_size
    → length w.pstate.pending ≤ vrr_pset_size
    → Returns (send_hpkt env w) (λ r.
      (fs : List Frame) × (r.1.sent ≡ w.sent ++ fs)
      × All
          (λ (f : Frame).
            parse_hello junk reader f.payload
            ≡ some (
              w.node.active,
              meaning reader w.pstate.l_active w.pstate.l_not_active w.pstate.pending,
            ))
          fs)
send_hpkt-understood env junk reader w ample wa wla wlna wp fla flna fp =
    let fs = frames env (hello_header w) (put_words (hello_of w)) w.node.dev_list in
    rw (send_hpkt-frames env ample w) (
      fs,
      refl,
      frames-All env (hello_header w) (put_words (hello_of w)) _
          (λ name addr.
            parse_hello-words junk reader w.node.active w.pstate.l_active w.pstate.l_not_active
              w.pstate.pending wa wla wlna wp fla flna fp)
          w.node.dev_list,
    )
