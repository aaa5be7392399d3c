-- ===== src/Show/Writes.antt =====
-- Text laid behind text in a zeroed page, and the digits of a number read back.
use alpaca_vrr.Base.{
  take_all, ℕ, zero, suc, ◌+◌, ◌-◌, ◌*◌, ◌/◌, ◌%◌, ◌≤◌, ◌<◌, ◌≡◌, refl, ap, ◌∙◌, List, [], ◌∷◌,
  ◌++◌, done, oops, arith, length, length-append, out_of_bounds, if◌then◌else◌, ltb, ◌^◌,
}
use alpaca_vrr.Show.{write_at, snprintf, hex, hex_digit}
use mathlib.Core.List.{append_assoc}
use native.Mathlib.Numerals.{unary_clauses}

abbrev pub zeros : ℕ → List ℕ
zeros zero = []
zeros (suc n) = 0 ∷ zeros n

-- Writing behind a text leaves the text.
write_at-append :
    (xs : List ℕ) (b : ℕ) (bs ys zs : List ℕ)
    → write_at 0 (b ∷ bs) ys ≡ done zs
    → write_at (length xs) (b ∷ bs) (xs ++ ys) ≡ done (xs ++ zs)
unfolding write_at
write_at-append [] b bs ys zs h = h
write_at-append (x ∷ xs) b bs ys zs h = rw (write_at-append xs b bs ys zs h)

-- A text and its final 0 in a zeroed page.
write_at-zeros :
    (t : List ℕ) (k m : ℕ)
    → m ≡ length t + suc k
    → write_at 0 (t ++ 0 ∷ []) (zeros m) ≡ done (t ++ zeros (suc k))
unfolding write_at
write_at-zeros [] k zero h = absurd (omega arith)
write_at-zeros [] k (suc m) h = ap (λ n. done (0 ∷ zeros n)) (omega arith)
write_at-zeros (c ∷ t) k zero h = absurd (omega arith)
write_at-zeros (c ∷ t) k (suc m) h = rw (write_at-zeros t k m (omega arith))

-- A line behind the text of a zeroed page.
pub snprintf-zeros :
    (text t : List ℕ) (at n k m : ℕ)
    → 0 < length t
    → at ≡ length text
    → n ≡ length t + 1
    → m ≡ length t + suc k
    → snprintf at n t (text ++ zeros m) ≡ done ((text ++ t) ++ zeros (suc k))
unfolding snprintf
snprintf-zeros text [] at n k m p h l e = absurd (omega arith)
snprintf-zeros text (c ∷ t) at n k m p h l e = rw (
  h,
  take_all (n - 1) (c ∷ t) (omega arith),
  write_at-append text c (t ++ 0 ∷ []) (zeros m) (c ∷ t ++ zeros (suc k))
      (write_at-zeros (c ∷ t) k m e),
  append_assoc text (c ∷ t) (zeros (suc k)),
)

-- A line too long for the rest of the page.
write_at_full : (bs ys : List ℕ) → length ys < length bs → write_at 0 bs ys ≡ oops out_of_bounds
unfolding write_at
write_at_full [] ys h = absurd (omega arith)
write_at_full (b ∷ bs) [] h = refl
write_at_full (b ∷ bs) (y ∷ ys) h = rw (write_at_full bs ys (omega arith))

pub length-hex : (n x : ℕ) → length (hex n x) ≡ n
unfolding hex
length-hex zero x = refl
length-hex (suc n) x =
    length-append (hex n (x / 16)) (hex_digit (x % 16) ∷ []) ∙ omega (arith, length-hex n (x / 16))

-- Writing behind a text past the end of the page.
write_at_past :
    (xs : List ℕ) (b : ℕ) (bs ys : List ℕ)
    → length ys < length (b ∷ bs)
    → write_at (length xs) (b ∷ bs) (xs ++ ys) ≡ oops out_of_bounds
unfolding write_at
write_at_past [] b bs ys h = write_at_full (b ∷ bs) ys h
write_at_past (x ∷ xs) b bs ys h = rw (write_at_past xs b bs ys h)

length-zeros : (n : ℕ) → length (zeros n) ≡ n
length-zeros zero = refl
length-zeros (suc n) = ap suc (length-zeros n)

pub snprintf_past :
    (text t : List ℕ) (at n m : ℕ)
    → 0 < length t
    → at ≡ length text
    → n ≡ length t + 1
    → m ≤ length t
    → snprintf at n t (text ++ zeros m) ≡ oops out_of_bounds
unfolding snprintf
snprintf_past text [] at n m p h l e = absurd (omega arith)
snprintf_past text (c ∷ t) at n m p h l e =
    rw (h, take_all (n - 1) (c ∷ t) (omega arith))
      (write_at_past text c (t ++ 0 ∷ []) (zeros m)
        (omega (arith, length-zeros m, length-append t (0 ∷ []))))

-- The digit that a character shows, and the number that a text of digits shows behind one.
unfoldable pub undigit : ℕ → ℕ
undigit c = if ltb c b'a' then c - b'0' else c - b'a' + 10

unfoldable pub unhex : ℕ → List ℕ → ℕ
unhex x [] = x
unhex x (c ∷ cs) = unhex (x * 16 + undigit c) cs

undigit-hex_digit : (d : ℕ) → d < 16 → undigit (hex_digit d) ≡ d
unfolding undigit hex_digit
undigit-hex_digit d h = ground arith

unhex-append : (x : ℕ) (cs ds : List ℕ) → unhex x (cs ++ ds) ≡ unhex (unhex x cs) ds
unfolding unhex
unhex-append x [] ds = refl
unhex-append x (c ∷ cs) ds = unhex-append (x * 16 + undigit c) cs ds

pub unhex-hex : (n x : ℕ) → x < 16 ^ n → unhex 0 (hex n x) ≡ x
unfolding unhex hex
unhex-hex zero x h = omega arith
unhex-hex (suc n) x h =
    unhex-append 0 (hex n (x / 16)) (hex_digit (x % 16) ∷ [])
    ∙ rw
        (
          unhex-hex n (x / 16) (omega (arith, simp unary_clauses at h)),
          undigit-hex_digit (x % 16) (omega arith),
        )
        (omega arith)
