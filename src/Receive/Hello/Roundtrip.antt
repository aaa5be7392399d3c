-- ===== src/Receive/Hello/Roundtrip.antt =====
-- What a node reads from the hello packet of another.
use alpaca_vrr.Base.{
  ℕ, ◌≤◌, ◌≡◌, ap, ◌∙◌, List, [], ◌∷◌, ◌++◌, some, if◌then◌else◌, length, All, arith, contains,
  ge→ltb,
}
use mathlib.Core.List.{append-nil}
use alpaca_vrr.Pset.{vrr_pset_size}
use alpaca_vrr.Wire.{htonl, put_words}
use alpaca_vrr.Wire.Words.{IsWord, ntohl-htonl, put_words-append, read_words-put}
use alpaca_vrr.Receive.Hello.{
  trans_linked, trans_pending, trans_missing, read_head, read_trans, parse_lists, parse_hello,
}

-- The payload that `send_hpkt` packs.
abbrev pub hello_words : ℕ → List ℕ → List ℕ → List ℕ → List ℕ
hello_words active la lna p = active ∷ length la ∷ length lna ∷ length p ∷ (la ++ (lna ++ p))

-- The transition that a hello packet means to a node: "pending" if it is listed as pending, else
-- "linked" if it is listed as linked, else "missing".
abbrev pub meaning : ℕ → List ℕ → List ℕ → List ℕ → ℕ
meaning me la lna p =
    if contains me p
    then trans_pending
    else if contains me lna
    then trans_linked
    else if contains me la
    then trans_linked
    else trans_missing

read_head-put :
    (junk : ℕ → ℕ) (a l n p : ℕ) (rest : List ℕ)
    → IsWord a
    → IsWord l
    → IsWord n
    → IsWord p
    → read_head junk (put_words (a ∷ l ∷ n ∷ p ∷ rest))
      ≡ (record { active = a; la_size = l; lna_size = n; p_size = p }, put_words rest)
unfolding read_head put_words htonl
read_head-put junk a l n p rest wa wl wn wp = λ i. (
  record {
    active = ntohl-htonl a wa i;
    la_size = ntohl-htonl l wl i;
    lna_size = ntohl-htonl n wn i;
    p_size = ntohl-htonl p wp i;
  },
  put_words rest,
)

read_trans-put :
    (junk : ℕ → ℕ) (me active : ℕ) (la lna p : List ℕ)
    → All IsWord la
    → All IsWord lna
    → All IsWord p
    → read_trans junk me
        (record { active = active; la_size = length la; lna_size = length lna; p_size = length p })
        (put_words (la ++ (lna ++ p)))
      ≡ meaning me la lna p
unfolding read_trans
read_trans-put junk me active la lna p wla wlna wp =
    rw (put_words-append la (lna ++ p), read_words-put junk la (put_words (lna ++ p)) wla)
      (rw (put_words-append lna p, read_words-put junk lna (put_words p) wlna)
        (rw (← append-nil (put_words p), read_words-put junk p [] wp)))

-- A hello packet made of words of 32 bits and of lists of at most VRR_PSET_SIZE is read as it was
-- packed: the activity, and the transition that the lists mean to the reader.
pub parse_hello-words :
    (junk : ℕ → ℕ) (me active : ℕ) (la lna p : List ℕ)
    → IsWord active
    → All IsWord la
    → All IsWord lna
    → All IsWord p
    → length la ≤ vrr_pset_size
    → length lna ≤ vrr_pset_size
    → length p ≤ vrr_pset_size
    → parse_hello junk me (put_words (hello_words active la lna p))
      ≡ some (active, meaning me la lna p)
unfolding parse_hello
parse_hello-words junk me active la lna p wa wla wlna wp fla flna fp =
    ap (parse_lists junk me) (
      read_head-put junk active (length la) (length lna) (length p) (la ++ (lna ++ p)) wa
        (omega arith) (omega arith) (omega arith))
    ∙ checked
  where
    checked :
        parse_lists junk me (
          record { active = active; la_size = length la; lna_size = length lna; p_size = length p },
          put_words (la ++ (lna ++ p)),
        )
        ≡ some (active, meaning me la lna p)
    checked =
        rw
          (
            ge→ltb vrr_pset_size (length la) fla,
            ge→ltb vrr_pset_size (length lna) flna,
            ge→ltb vrr_pset_size (length p) fp,
          )
          (ap (λ t. some (active, t)) (read_trans-put junk me active la lna p wla wlna wp))
