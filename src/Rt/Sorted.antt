-- ===== src/Rt/Sorted.antt =====
-- What the table stores, read off the nodes in order, and the order of a search tree.
use alpaca_vrr.Base.{
  ℕ, ◌<◌, ◌≡◌, refl, List, [], ◌∷◌, ◌++◌, arith, All, Bool, false, ◌||◌, ◌==◌, if◌then◌else◌,
}
use alpaca_vrr.Rt.Defs.{RtEntry, RtNode}
use mathlib.Core.List.{append_assoc}

-- The routes filed under an endpoint.
abbrev pub routes_at : ℕ → List RtNode → List RtEntry
routes_at e [] = []
routes_at e (n ∷ ns) =
    let rest = routes_at e ns in if n.endpoint == e then n.routes ++ rest else rest

abbrev pub has_endpoint : ℕ → List RtNode → Bool
has_endpoint e [] = false
has_endpoint e (n ∷ ns) = n.endpoint == e || has_endpoint e ns

abbrev pub Above : ℕ → List RtNode → Type 0
Above k = All (λ n. k < n.endpoint)

abbrev pub Below : ℕ → List RtNode → Type 0
Below k = All (λ n. n.endpoint < k)

-- The endpoints rise along the list, so each has one node.
abbrev pub Rising : List RtNode → Type 0
Rising [] = Unit
Rising (n ∷ ns) = Above n.endpoint ns × Rising ns

pub All-append {ℓ} :
    (P : RtNode → Type ℓ) (xs ys : List RtNode) → All P xs → All P ys → All P (xs ++ ys)
All-append P [] ys h k = k
All-append P (x ∷ xs) ys h k = (h.0, All-append P xs ys h.1 k)

pub All-append_left {ℓ} : (P : RtNode → Type ℓ) (xs ys : List RtNode) → All P (xs ++ ys) → All P xs
All-append_left P [] ys h = tt
All-append_left P (x ∷ xs) ys h = (h.0, All-append_left P xs ys h.1)

pub All-append_right {ℓ} : (P : RtNode → Type ℓ) (xs ys : List RtNode) → All P (xs ++ ys) → All P ys
All-append_right P [] ys h = h
All-append_right P (x ∷ xs) ys h = All-append_right P xs ys h.1

pub Above-mono : {j k : ℕ} (ns : List RtNode) → j < k → Above k ns → Above j ns
Above-mono [] h a = tt
Above-mono (n ∷ ns) h a = (omega arith, Above-mono ns h a.1)

pub routes_at-append :
    (e : ℕ) (xs ys : List RtNode) → routes_at e (xs ++ ys) ≡ routes_at e xs ++ routes_at e ys
routes_at-append e [] ys = refl
routes_at-append e (x ∷ xs) ys =
    ground
      (arith, routes_at-append e xs ys, append_assoc x.routes (routes_at e xs) (routes_at e ys))

pub routes_at-Above : (e : ℕ) (ns : List RtNode) → Above e ns → routes_at e ns ≡ []
routes_at-Above e [] a = refl
routes_at-Above e (n ∷ ns) a = ground (arith, routes_at-Above e ns)

pub routes_at-Below : (e : ℕ) (ns : List RtNode) → Below e ns → routes_at e ns ≡ []
routes_at-Below e [] a = refl
routes_at-Below e (n ∷ ns) a = ground (arith, routes_at-Below e ns)

pub Below-mono : {j k : ℕ} (ns : List RtNode) → j < k → Below j ns → Below k ns
Below-mono [] h a = tt
Below-mono (n ∷ ns) h a = (omega arith, Below-mono ns h a.1)

-- The order at a node: the left part below it, the right part above.
pub Rising-split :
    (xs : List RtNode) (n : RtNode) (ys : List RtNode)
    → Rising (xs ++ n ∷ ys)
    → Below n.endpoint xs × Above n.endpoint ys × Rising xs × Rising ys
Rising-split [] n ys s = (tt, s.0, tt, s.1)
Rising-split (x ∷ xs) n ys s =
    let (b, a, r, q) = Rising-split xs n ys s.1 in
    (((All-append_right _ xs (n ∷ ys) s.0).0, b), a, (All-append_left _ xs (n ∷ ys) s.0, r), q)

pub Rising-join :
    (xs : List RtNode) (n : RtNode) (ys : List RtNode)
    → Below n.endpoint xs
    → Above n.endpoint ys
    → Rising xs
    → Rising ys
    → Rising (xs ++ n ∷ ys)
Rising-join [] n ys b a r q = (a, q)
Rising-join (x ∷ xs) n ys b a r q = (
  All-append (λ m. x.endpoint < m.endpoint) xs (n ∷ ys) r.0 (b.0, Above-mono ys b.0 a),
  Rising-join xs n ys b.1 a r.1 q,
)
