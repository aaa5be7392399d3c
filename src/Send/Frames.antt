-- ===== src/Send/Frames.antt =====
-- The frames that leave a node: one for each interface, and what a hello carries.
use alpaca_vrr.Base.{
  ℕ, suc, ◌+◌, ◌*◌, ◌≡◌, inl, inr, true, none, some, List, [], ◌∷◌, ◌++◌, Run, done, arith, length,
  Option-cases, ap, sym, ◌∙◌,
}
use alpaca_vrr.Wire.{VrrHeader, build_header, put_words, vrr_hello}
use alpaca_vrr.World.{World, Env, Frame, pure, ◌>>=◌, ◌>>◌, get, modify, lift, case_option, alloc}
use alpaca_vrr.Send.{emit, output_loop, vrr_output, send_packet, send_hpkt}
use alpaca_vrr.Receive.Hello.Roundtrip.{hello_words}
use mathlib.Core.List.{append_assoc, append-nil}

abbrev pub frame : List ℕ → List ℕ → VrrHeader → List ℕ → Frame
frame name addr header payload = record {
  dev_name = name;
  dest_mac = header.dest_mac;
  source_mac = addr;
  header = header;
  payload = payload;
}

-- A frame for each interface of the list that is there.
abbrev pub frames : Env → VrrHeader → List ℕ → List (List ℕ) → List Frame
frames env header payload [] = []
frames env header payload (name ∷ names) =
    let rest = frames env header payload names in
    elim (env.dev_get_by_name name) [
      | none ↦ rest
      | some addr ↦ frame name addr header payload ∷ rest
    ]

-- The world with more frames sent and more allocations made.
abbrev pub sending : World → List Frame → World
sending w fs = record w { sent = w.sent ++ fs; allocs = w.allocs + length fs }

add_zero : (a : ℕ) → a ≡ a + 0
add_zero a = omega arith

add_one : (a n : ℕ) → a + 1 + n ≡ a + suc n
add_one a n = omega arith

sending-nil : (w : World) → w ≡ sending w []
sending-nil w = λ i. record w { sent = sym (append-nil w.sent) i; allocs = add_zero w.allocs i }

sending-cons :
    (w : World) (f : Frame) (fs : List Frame)
    → sending (record w { sent = w.sent ++ f ∷ []; allocs = w.allocs + 1 }) fs ≡ sending w (f ∷ fs)
sending-cons w f fs = λ i. record w {
  sent = append_assoc w.sent (f ∷ []) fs i;
  allocs = add_one w.allocs (length fs) i;
}

abbrev ended : World → Run (Unit {0} × World)
ended w = done (tt, w)

module _ (env : Env) (ample : (n : ℕ) → env.kmalloc n ≡ true) (header : VrrHeader)
    (payload : List ℕ) where
  pub output_loop-sending :
      (names : List (List ℕ)) (w : World)
      → output_loop env header payload names w ≡ ended (sending w (frames env header payload names))
  unfolding output_loop pure case_option ◌>>=◌ ◌>>◌ alloc modify
  output_loop-sending [] w = ap ended (sending-nil w)
  output_loop-sending (name ∷ names) w = elim (Option-cases (env.dev_get_by_name name)) [
    | inl gone ↦ rw (gone, frames) (output_loop-sending names w)
    | inr (addr, there) ↦
        rw (there, frames, ample w.allocs)
          (output_loop-sending names
              (emit name addr header payload (record w { allocs = w.allocs + 1 }))
            ∙ ap ended
                (sending-cons w (frame name addr header payload) (frames env header payload names)))
  ]

-- What the neighbours are told of the physical set.
abbrev pub hello_of : World → List ℕ
hello_of w = hello_words w.node.active w.pstate.l_active w.pstate.l_not_active w.pstate.pending

abbrev pub hello_header : World → VrrHeader
hello_header w = build_header w.node.version (record {
  src = w.node.id;
  dst = 0;
  data_len = length (hello_of w) * 4;
  pkt_type = vrr_hello;
  dest_mac = [];
})

-- With memory at hand, `send_hpkt` sends one frame by each interface that is there, with the words
-- of the snapshot in network order, and changes nothing else but the count of allocations.
pub send_hpkt-frames :
    (env : Env)
    → ((n : ℕ) → env.kmalloc n ≡ true)
    → (w : World)
    → send_hpkt env w
      ≡ done (
        true,
        sending
            (record w { allocs = w.allocs + 1 + 1 })
            (frames env (hello_header w) (put_words (hello_of w)) w.node.dev_list),
      )
unfolding send_hpkt send_packet vrr_output pure ◌>>=◌ ◌>>◌ alloc get lift
send_hpkt-frames env ample w = rw (
  ample w.allocs,
  ample (w.allocs + 1),
  output_loop-sending env ample (hello_header w) (put_words (hello_of w)) w.node.dev_list
      (record w { allocs = w.allocs + 1 + 1 }),
)
