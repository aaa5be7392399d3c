-- ===== src/Snapshot/Failures.antt =====
-- `detect_failures`: how the physical set ages, and that the snapshot follows it.
use alpaca_vrr.Base.{
  ℕ, ◌+◌, ◌*◌, ◌≤◌, ◌≡◌, sym, ap, ◌∙◌, inl, inr, ◌⊎◌, Bool, List, [], ◌∷◌, ◌++◌, arith, map,
  if◌then◌else◌, not, Bool-cases, leb, length, length-append, length-map, length-select-le, select,
  Run, done, oops,
}
use mathlib.Core.List.{append-nil, append_assoc}
use alpaca_vrr.Pset.{PsetEntry, pset_failed, vrr_pset_size}
use alpaca_vrr.Snapshot.{
  PsetState, pset_state_update, vrr_fail_timeout, newly_failed, detect_loop, detect_failures,
}
use alpaca_vrr.Snapshot.Classes.{
  classify, join, is_linked_active, is_linked_not_active, is_pending, Fits, Gives,
  pset_state_update-Gives, classify-append,
}

-- One period without a packet: the count grows, and from VRR_FAIL_TIMEOUT on the node has failed.
abbrev pub aged : PsetEntry → PsetEntry
aged e = record e {
  fail_count = e.fail_count + 1;
  status = if leb vrr_fail_timeout (e.fail_count + 1) then pset_failed else e.status;
}

abbrev pub stays : PsetEntry → Bool
stays e = not (leb (2 * vrr_fail_timeout) (e.fail_count + 1))

-- The set after a period, and its order is kept.
abbrev pub age : List PsetEntry → List PsetEntry
age ps = map aged (select stays ps)

classify-Fits : (ps : List PsetEntry) → length ps ≤ vrr_pset_size → Fits (classify ps)
classify-Fits ps h = omega (
  arith,
  length-map (λ (e : PsetEntry). e.node) (select is_linked_active ps),
  length-map (λ (e : PsetEntry). e.node) (select is_linked_not_active ps),
  length-map (λ (e : PsetEntry). e.node) (select is_pending ps),
  length-select-le is_linked_active ps,
  length-select-le is_linked_not_active ps,
  length-select-le is_pending ps,
)

-- A set of at most VRR_PSET_SIZE nodes is classified without a fault.
pub update-classify :
    (ps : List PsetEntry) → length ps ≤ vrr_pset_size → pset_state_update ps ≡ done (classify ps)
update-classify ps h = go (pset_state_update ps) (pset_state_update-Gives ps)
  where
    go : (o : Run PsetState) → Gives (classify ps) o → o ≡ done (classify ps)
    go (done s) g = ap done g.0
    go (oops e) g = absurd (g.1 (classify-Fits ps h))

-- An entry that has failed is in no class.
classify-failed :
    (xs : List PsetEntry) (e : PsetEntry) (ys : List PsetEntry)
    → e.status ≡ pset_failed
    → classify (xs ++ e ∷ ys) ≡ classify (xs ++ ys)
classify-failed xs e ys h =
    let same : classify (e ∷ ys) ≡ classify ys = ground arith in
    classify-append xs (e ∷ ys) ∙ ap (join (classify xs)) same ∙ sym (classify-append xs ys)

-- The fail count is in no class.
classify-counted :
    (xs : List PsetEntry) (e : PsetEntry) (ys : List PsetEntry) (n : ℕ)
    → classify (xs ++ record e { fail_count = n } ∷ ys) ≡ classify (xs ++ e ∷ ys)
classify-counted xs e ys n =
    let same : classify (record e { fail_count = n } ∷ ys) ≡ classify (e ∷ ys) = ground arith in
    classify-append xs (record e { fail_count = n } ∷ ys)
    ∙ ap (join (classify xs)) same
    ∙ sym (classify-append xs (e ∷ ys))

length-replace :
    (xs : List PsetEntry) (e f : PsetEntry) (ys : List PsetEntry)
    → length (xs ++ e ∷ ys) ≡ length (xs ++ f ∷ ys)
length-replace xs e f ys = omega (arith, length-append xs (e ∷ ys), length-append xs (f ∷ ys))

-- One round of the loop, on a snapshot that agrees with the set.
module _ (before : List PsetEntry) (e : PsetEntry) (rest : List PsetEntry)
    (small : length (before ++ e ∷ rest) ≤ vrr_pset_size) where
  abbrev kept : List PsetEntry
  kept = if leb (2 * vrr_fail_timeout) (e.fail_count + 1) then before else before ++ aged e ∷ []

  detect_loop_step :
      detect_loop before (e ∷ rest) (classify (before ++ e ∷ rest))
      ≡ detect_loop kept rest (classify (before ++ aged e ∷ rest))
  unfolding detect_loop
  detect_loop_step = elim (Bool-cases (newly_failed e (e.fail_count + 1))) [
    | inl new ↦
        let e' : PsetEntry = record e { fail_count = e.fail_count + 1; status = pset_failed } in
        let same : e' ≡ aged e = ground arith in
        rw (
          new,
          update-classify (before ++ e' ∷ rest) (omega (arith, length-replace before e e' rest)),
          same,
        )
    | inr old ↦
        let e' : PsetEntry = record e { fail_count = e.fail_count + 1 } in
        let same : e' ≡ aged e = ground arith in
        rw (old, ← classify-counted before e rest (e.fail_count + 1), same)
  ]

  kept-classify : classify (before ++ aged e ∷ rest) ≡ classify (kept ++ rest)
  kept-classify = elim (Bool-cases (leb (2 * vrr_fail_timeout) (e.fail_count + 1))) [
    | inl old ↦ rw old (classify-failed before (aged e) rest (ground arith))
    | inr new ↦ rw new (ap classify (sym (append_assoc before (aged e ∷ []) rest)))
  ]

  kept-age :
      (ys : List PsetEntry)
      → kept ++ age ys ≡ before ++ (if stays e then aged e ∷ age ys else age ys)
  kept-age ys = elim (Bool-cases (leb (2 * vrr_fail_timeout) (e.fail_count + 1))) [
    | inl old ↦ rw old
    | inr new ↦ rw new (append_assoc before (aged e ∷ []) (age ys))
  ]

age-cons :
    (e : PsetEntry) (ys : List PsetEntry)
    → age (e ∷ ys) ≡ (if stays e then aged e ∷ age ys else age ys)
age-cons e ys = ground arith

length-kept :
    (before : List PsetEntry) (e : PsetEntry) (rest : List PsetEntry)
    → length (before ++ e ∷ rest) ≤ vrr_pset_size
    → (k : List PsetEntry) → (k ≡ before) ⊎ (k ≡ before ++ aged e ∷ [])
    → length (k ++ rest) ≤ vrr_pset_size
length-kept before e rest h k (inl p) =
    rw p (omega (arith, length-append before (e ∷ rest), length-append before rest))
length-kept before e rest h k (inr p) =
    rw (p, append_assoc) (omega (arith, length-replace before e (aged e) rest))

detect_loop-age :
    (rest before : List PsetEntry)
    → length (before ++ rest) ≤ vrr_pset_size
    → detect_loop before rest (classify (before ++ rest))
      ≡ done (before ++ age rest, classify (before ++ age rest))
unfolding detect_loop
detect_loop-age [] before h = rw (append-nil before)
detect_loop-age (e ∷ rest) before h =
    let k = kept before e rest h in
    let both : (k ≡ before) ⊎ (k ≡ before ++ aged e ∷ []) = ground arith in
    let whole : k ++ age rest ≡ before ++ age (e ∷ rest) =
      kept-age before e rest h rest ∙ ap (λ z. before ++ z) (sym (age-cons e rest)) in
    detect_loop_step before e rest h
    ∙ ap (detect_loop k rest) (kept-classify before e rest h)
    ∙ detect_loop-age rest k (length-kept before e rest h k both)
    ∙ ap (λ z. done (z, classify z)) whole

-- On a set of at most VRR_PSET_SIZE nodes whose snapshot agrees with it, `detect_failures` returns
-- with every count one higher, the nodes that reach VRR_FAIL_TIMEOUT failed, those that reach twice
-- that deleted, the order kept, and the snapshot in agreement again.
pub detect_failures-age :
    (ps : List PsetEntry)
    → length ps ≤ vrr_pset_size
    → detect_failures ps (classify ps) ≡ done (age ps, classify (age ps))
unfolding detect_failures
detect_failures-age ps h = detect_loop-age ps [] h
