-- ===== src/Receive/Hello/Machine.antt =====
-- The state machine of a physical neighbour: total, and a pair of neighbours that keep hearing each
-- other ends linked on both sides.
use alpaca_vrr.Base.{
  ℕ, zero, suc, ◌<◌, ◌≤◌, ◌≡◌, refl, Run, done, bind_run, Returns, arith, ◌==◌, if◌then◌else◌,
}
use alpaca_vrr.Pset.{pset_linked, pset_pending, pset_unknown}
use alpaca_vrr.Receive.Hello.{trans_linked, trans_pending, trans_missing, next_state}

-- For the four states and the three transitions the table is never overrun, and no transition
-- leads to "unknown".
pub next_state-total :
    (state trans : ℕ)
    → state ≤ pset_unknown
    → trans ≤ trans_missing
    → Returns (next_state state trans) (λ s. s < pset_unknown)
unfolding next_state
next_state-total zero zero h k = omega arith
next_state-total zero (suc zero) h k = omega arith
next_state-total zero (suc (suc zero)) h k = omega arith
next_state-total (suc zero) zero h k = omega arith
next_state-total (suc zero) (suc zero) h k = omega arith
next_state-total (suc zero) (suc (suc zero)) h k = omega arith
next_state-total (suc (suc zero)) zero h k = omega arith
next_state-total (suc (suc zero)) (suc zero) h k = omega arith
next_state-total (suc (suc zero)) (suc (suc zero)) h k = omega arith
next_state-total (suc (suc (suc zero))) zero h k = omega arith
next_state-total (suc (suc (suc zero))) (suc zero) h k = omega arith
next_state-total (suc (suc (suc zero))) (suc (suc zero)) h k = omega arith
next_state-total s t h k = absurd (omega arith)

-- The list of a hello packet in which a neighbour of that state stands, as the neighbour reads it.
abbrev pub announces : ℕ → ℕ
announces state =
    if state == pset_linked
    then trans_linked
    else if state == pset_pending
    then trans_pending
    else trans_missing

-- Two nodes, each with its state of the other: the first sends a hello, then the second.
pub exchange : ℕ × ℕ → Run (ℕ × ℕ)
exchange (a, b) =
    bind_run (next_state b (announces a))
      λ b'. bind_run (next_state a (announces b')) λ a'. done (a', b')

pub exchanges : ℕ → ℕ × ℕ → Run (ℕ × ℕ)
exchanges zero p = done p
exchanges (suc n) p = bind_run (exchange p) (exchanges n)

linked_stays : (n : ℕ) → exchanges n (pset_linked, pset_linked) ≡ done (pset_linked, pset_linked)
unfolding exchanges exchange next_state
linked_stays zero = refl
linked_stays (suc n) = linked_stays n

-- Whatever two neighbours hold of each other, from the fourth exchange of hellos on each has the
-- other as linked.
pub exchanges-linked :
    (a b : ℕ)
    → a ≤ pset_unknown
    → b ≤ pset_unknown
    → (n : ℕ) → exchanges (suc (suc (suc (suc n)))) (a, b) ≡ done (pset_linked, pset_linked)
unfolding exchanges exchange next_state
exchanges-linked zero zero h k n = linked_stays n
exchanges-linked zero (suc zero) h k n = linked_stays n
exchanges-linked zero (suc (suc zero)) h k n = linked_stays n
exchanges-linked zero (suc (suc (suc zero))) h k n = linked_stays n
exchanges-linked (suc zero) zero h k n = linked_stays n
exchanges-linked (suc zero) (suc zero) h k n = linked_stays n
exchanges-linked (suc zero) (suc (suc zero)) h k n = linked_stays n
exchanges-linked (suc zero) (suc (suc (suc zero))) h k n = linked_stays n
exchanges-linked (suc (suc zero)) zero h k n = linked_stays n
exchanges-linked (suc (suc zero)) (suc zero) h k n = linked_stays n
exchanges-linked (suc (suc zero)) (suc (suc zero)) h k n = linked_stays n
exchanges-linked (suc (suc zero)) (suc (suc (suc zero))) h k n = linked_stays n
exchanges-linked (suc (suc (suc zero))) zero h k n = linked_stays n
exchanges-linked (suc (suc (suc zero))) (suc zero) h k n = linked_stays n
exchanges-linked (suc (suc (suc zero))) (suc (suc zero)) h k n = linked_stays n
exchanges-linked (suc (suc (suc zero))) (suc (suc (suc zero))) h k n = linked_stays n
exchanges-linked a b h k n = absurd (omega arith)
