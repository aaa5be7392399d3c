-- ===== src/Wire/Words.antt =====
-- What is packed is read back.
use alpaca_vrr.Base.{
  ℕ, ◌*◌, ◌<◌, ◌≡◌, refl, sym, ap, ◌∙◌, List, [], ◌∷◌, ◌++◌, length, length-append, All, arith,
  le→leb,
}
use mathlib.Core.List.{append_assoc}
use alpaca_vrr.Ids.{word}
use alpaca_vrr.Wire.{htonl, ntoh, put_words, read_word, get_words, skip_words, read_words}

abbrev pub IsWord : ℕ → Type 0
IsWord x = x < word

-- `ntohl` undoes `htonl`.
pub ntohl-htonl : (x : ℕ) → IsWord x → ntoh 0 (htonl x) ≡ x
unfolding htonl ntoh
ntohl-htonl x h = omega arith

pub read_word-put :
    (junk x : ℕ) (xs rest : List ℕ)
    → IsWord x
    → read_word junk (put_words (x ∷ xs) ++ rest) ≡ (x, put_words xs ++ rest)
unfolding read_word put_words ntoh
read_word-put junk x xs rest h = ap (λ n. (n, put_words xs ++ rest)) (omega arith)

pub length-put_words : (xs : List ℕ) → length (put_words xs) ≡ length xs * 4
unfolding put_words
length-put_words [] = refl
length-put_words (x ∷ xs) = omega (arith, length-put_words xs)

pub put_words-append : (xs ys : List ℕ) → put_words (xs ++ ys) ≡ put_words xs ++ put_words ys
unfolding put_words
put_words-append [] ys = refl
put_words-append (x ∷ xs) ys =
    ap (λ z. htonl x ++ z) (put_words-append xs ys)
    ∙ sym (append_assoc (htonl x) (put_words xs) (put_words ys))

get_words-put :
    (junk : ℕ → ℕ) (xs : List ℕ) (rest : List ℕ)
    → All IsWord xs
    → get_words (length xs) junk (put_words xs ++ rest) ≡ xs
get_words-put junk [] rest h = refl
get_words-put junk (x ∷ xs) rest h =
    rw (read_word-put (junk (length xs)) x xs rest h.0)
      (ap (◌∷◌ x) (get_words-put junk xs rest h.1))

skip_words-put :
    (xs : List ℕ) (rest : List ℕ)
    → All IsWord xs
    → skip_words (length xs) (put_words xs ++ rest) ≡ rest
unfolding put_words
skip_words-put [] rest h = refl
skip_words-put (x ∷ xs) rest h =
    ap (λ z. skip_words (length xs) z.1) (read_word-put 0 x xs rest h.0)
    ∙ skip_words-put xs rest h.1

-- Words that are packed are read back in one read, and the read stops behind them.
pub read_words-put :
    (junk : ℕ → ℕ) (xs : List ℕ) (rest : List ℕ)
    → All IsWord xs
    → read_words junk (length xs) (put_words xs ++ rest) ≡ (xs, rest)
unfolding read_words
read_words-put junk xs rest h = rw (
  le→leb (length xs * 4) (length (put_words xs ++ rest))
      (omega (arith, length-append (put_words xs) rest, length-put_words xs)),
  get_words-put junk xs rest h,
  skip_words-put xs rest h,
)
