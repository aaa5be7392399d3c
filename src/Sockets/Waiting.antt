-- ===== src/Sockets/Waiting.antt =====
-- When a call of `vrr_recvmsg` ends.
use alpaca_vrr.Base.{
  ℕ, ◌≤◌, ◌<◌, ◌≡◌, refl, inl, inr, ◌⊎◌, ◌||◌, Bool, true, false, not, List, [], ◌∷◌, ◌==◌, ltb,
  length, All, take, Returns-mono, Run, done, oops, Returns, bind_run, arith, Bool-cases, le→leb,
  ltb→lt, if◌then◌else◌,
}
use alpaca_vrr.Sockets.Queue.{
  Request, Answer, received, refused, waits, Wake, interrupted, woken, resume, vrr_advance_rx_queue,
  copy_front, restart, vrr_recvmsg,
}
use alpaca_vrr.Sockets.Calls.{efault, eintr, ewouldblock}
use alpaca_vrr.Sockets.Messages.{IsWhole}
use alpaca_vrr.Wire.{Skb, ntoh}

-- The call has ended.
abbrev pub Ended : Answer → Type 0
Ended (received bytes trunc) = Unit {0}
Ended (refused e) = Unit {0}
Ended waits = ⊥

-- There is something to end a call with: bytes in the queue, no connection, or a call that will not
-- wait.
abbrev pub Ready : Request → Bool → List Skb → Type 0
Ready r c [] = (c ≡ false) ⊎ (r.dontwait ≡ true)
Ready r c (skb ∷ queue) = (0 < ntoh 0 skb.header.data_len) ⊎ Ready r c queue

-- A wait that ends by a signal, or finds the call ready.
abbrev pub Serves : Request → Wake → Type 0
Serves r interrupted = Unit {0}
Serves r (woken c queue) = Ready r c queue

abbrev pub Served : Request → List Wake → Type 0
Served r [] = ⊥
Served r (wake ∷ wakes) = Serves r wake ⊎ Served r wakes

abbrev pub WholeWake : Wake → Type 0
WholeWake interrupted = Unit {0}
WholeWake (woken c queue) = All IsWhole queue

copy_front-Ended :
    (r : Request) (sz : ℕ) (trunc : Bool) (skb : Skb) (queue : List Skb)
    → sz ≤ length skb.payload
    → Returns (copy_front r sz trunc skb queue) (λ a. Ended a.0)
unfolding copy_front vrr_advance_rx_queue
copy_front-Ended r sz trunc skb queue h =
    rw (le→leb sz (length skb.payload) h) (go (r.writable || sz == 0) r.peek)
  where
    go :
        (w p : Bool)
        → Returns {A = Answer × List Skb}
            (if not w
              then done (refused efault, skb ∷ queue)
              else if p
              then done (received (take sz skb.payload) trunc, skb ∷ queue)
              else done (received (take sz skb.payload) trunc, queue))
            (λ a. Ended a.0)
    go false p = tt
    go true false = tt
    go true true = tt

-- Without a fault the part up to the wait ends, or waits where the call is not ready.
restart-Ended :
    (r : Request) (c : Bool) (queue : List Skb)
    → All IsWhole queue
    → Returns (restart r c queue) (λ a. Ended a.0 ⊎ ((a.0 ≡ waits) × (Ready r c queue → ⊥)))
unfolding restart
restart-Ended r c [] h = go c r.dontwait
  where
    go :
        (b d : Bool)
        → Returns {A = Answer × List Skb}
            (if not b
              then done (refused eintr, [])
              else if d
              then done (refused ewouldblock, [])
              else done (waits, []))
            (λ a. Ended a.0 ⊎ ((a.0 ≡ waits) × ((b ≡ false) ⊎ (d ≡ true) → ⊥)))
    go false d = inl tt
    go true true = inl tt
    go true false = inr (refl, λ h. ground (arith, h))
restart-Ended r c (skb ∷ queue) h = elim (Bool-cases (ntoh 0 skb.header.data_len == 0)) [
  | inl empty ↦ rw empty (
      Returns-mono _ _ (restart r c queue) (restart-Ended r c queue h.1)
        (λ a q. later a q (ground (arith, empty))))
  | inr full ↦ elim (Bool-cases (ltb r.len (ntoh 0 skb.header.data_len))) [
    | inl cut ↦
        rw (full, cut)
          (Returns-mono _ _ (copy_front r r.len true skb queue)
            (copy_front-Ended r r.len true skb queue
              (omega (arith, h.0, ltb→lt r.len (ntoh 0 skb.header.data_len) cut)))
            (λ a q. inl q))
    | inr all ↦
        rw (full, all)
          (Returns-mono _ _ (copy_front r (ntoh 0 skb.header.data_len) false skb queue)
            (copy_front-Ended r (ntoh 0 skb.header.data_len) false skb queue (omega (arith, h.0)))
            (λ a q. inl q))
  ]
]
  where
    later :
        (a : Answer × List Skb)
        → Ended a.0 ⊎ ((a.0 ≡ waits) × (Ready r c queue → ⊥))
        → ntoh 0 skb.header.data_len ≡ 0
        → Ended a.0 ⊎ ((a.0 ≡ waits) × (Ready r c (skb ∷ queue) → ⊥))
    later a (inl e) z = inl e
    later a (inr (w, n)) z = inr (w, not_ready)
      where
        not_ready : Ready r c (skb ∷ queue) → ⊥
        not_ready (inl p) = absurd (omega (arith, p, z))
        not_ready (inr q) = n q

settle : {P : Type 0} (a : Answer) → Ended a ⊎ ((a ≡ waits) × (P → ⊥)) → P → Ended a
settle a (inl e) p = e
settle a (inr (w, n)) p = absurd (n p)

-- The loop goes on only from a wait that serves.
resume-Ended :
    (r : Request) (c : Bool) (queue : List Skb) (wake : Wake) (wakes : List Wake)
    (again : Bool → List Skb → Run (Answer × List Skb))
    → WholeWake wake
    → ((c' : Bool) (later : List Skb)
        → All IsWhole later
        → Ready r c' later ⊎ Served r wakes
        → Returns (again c' later) (λ a. Ended a.0))
    → Ready r c queue ⊎ Served r (wake ∷ wakes)
    → (o : Run (Answer × List Skb))
    → Returns o (λ a. Ended a.0 ⊎ ((a.0 ≡ waits) × (Ready r c queue → ⊥)))
    → Returns (bind_run o (resume again wake)) (λ a. Ended a.0)
resume-Ended r c queue wake wakes again wh ih s (oops e) q = q
resume-Ended r c queue wake wakes again wh ih s (done (received bytes trunc, rest)) q = tt
resume-Ended r c queue wake wakes again wh ih s (done (refused e, rest)) q = tt
resume-Ended r c queue interrupted wakes again wh ih s (done (waits, rest)) q = tt
resume-Ended r c queue (woken c' later) wakes again wh ih s (done (waits, rest)) (inl e) = absurd e
resume-Ended r c queue (woken c' later) wakes again wh ih (inl now) (done (waits, rest))
      (inr (w, n)) =
    absurd (n now)
resume-Ended r c queue (woken c' later) wakes again wh ih (inr s) (done (waits, rest))
      (inr (w, n)) =
    ih c' later wh s

-- Where the length in every packet's header is that of its payload, in 16 bits, a call ends with an
-- answer, without a fault, if it is ready at once, by a packet with bytes, a lost connection or
-- MSG_DONTWAIT, or if one of its waits ends by a signal or where it is ready.
pub vrr_recvmsg-ends :
    (r : Request) (c : Bool) (queue : List Skb) (wakes : List Wake)
    → All IsWhole queue
    → All WholeWake wakes
    → Ready r c queue ⊎ Served r wakes
    → Returns (vrr_recvmsg r c queue wakes) (λ a. Ended a.0)
unfolding vrr_recvmsg
vrr_recvmsg-ends r c queue [] h hs (inl now) =
    Returns-mono _ _ (restart r c queue) (restart-Ended r c queue h) (λ a q. settle a.0 q now)
vrr_recvmsg-ends r c queue [] h hs (inr none_left) = absurd none_left
vrr_recvmsg-ends r c queue (wake ∷ wakes) h hs s =
    resume-Ended r c queue wake wakes (λ c' later. vrr_recvmsg r c' later wakes) hs.0
      (λ c' later w t. vrr_recvmsg-ends r c' later wakes w hs.1 t) s (restart r c queue)
      (restart-Ended r c queue h)
