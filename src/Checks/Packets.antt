-- ===== src/Checks/Packets.antt =====
-- Examples of packets, of the machine of a neighbour, and of the sockets.
use alpaca_vrr.Base.{◌≡◌, ◌∷◌, [], ◌++◌, done, arith, some}
use alpaca_vrr.Pset.{pset_linked}
use alpaca_vrr.Wire.{put_words, read_words}
use alpaca_vrr.Wire.Words.{read_words-put}
use alpaca_vrr.Receive.Hello.{parse_hello, trans_linked}
use alpaca_vrr.Receive.Hello.Roundtrip.{hello_words, parse_hello-words}
use alpaca_vrr.Receive.Hello.Machine.{exchanges, exchanges-linked}
use alpaca_vrr.Sockets.{VrrSock}
use alpaca_vrr.Checks.Samples.{zeros}

read_words-put_example :
    read_words zeros 2 (put_words (258 ∷ 70000 ∷ []) ++ 9 ∷ []) ≡ (258 ∷ 70000 ∷ [], 9 ∷ [])
read_words-put_example =
    read_words-put zeros (258 ∷ 70000 ∷ []) (9 ∷ []) (omega arith, (omega arith, tt))

parse_hello-words_example :
    parse_hello zeros 7 (put_words (hello_words 1 (3 ∷ []) (7 ∷ []) (8 ∷ [])))
    ≡ some (1, trans_linked)
parse_hello-words_example =
    parse_hello-words zeros 7 1 (3 ∷ []) (7 ∷ []) (8 ∷ []) (omega arith) (omega arith, tt)
      (omega arith, tt) (omega arith, tt) (omega arith) (omega arith) (omega arith)

exchanges-linked_example : exchanges 5 (3, 2) ≡ done (pset_linked, pset_linked)
exchanges-linked_example = exchanges-linked 3 2 (omega arith) (omega arith) 1

abbrev peer : VrrSock
peer = record { handle = 2; rem_addr = 33 }
