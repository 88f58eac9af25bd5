-- ===== src/Consensus/Order/Search.antt =====
-- The search of `order_dag` of consensus/src/lib.rs: what it takes off and puts into its buffer.
use mathlib.Core.List.{Memᴰ}
use mathlib.Core.Option.{some-injective}
use sailfish_test.Prelude.{
  ℕ, zero, suc, ◌+◌, ◌≤◌, ◌<◌, ◌≡◌, refl, sym, ap, inl, inr, List, [], ◌∷◌, ◌++◌, false, some,
  arith, sub64, ◌==◌, if◌then◌else◌, find, length, contains, get, values, Bool-cases, Option-cases,
}
use sailfish_test.Crypto.{Digest}
use sailfish_test.Messages.{Round, Certificate, round_of}
use sailfish_test.Consensus.State.{Authors, Dag, State}
use sailfish_test.Consensus.Order.{
  find_digest, Walk, visit_parent, visit_parents, order_dag_loop, dag_size,
}

-- The certificates of the DAG whose digest was not put into the buffer yet.
abbrev waiting_in : List Digest → Authors → ℕ
waiting_in seen [] = 0
waiting_in seen ((_, e) ∷ rest) = (if contains seen e.0 then 0 else 1) + waiting_in seen rest

abbrev pub waiting : List Digest → Dag → ℕ
waiting seen [] = 0
waiting seen ((_, authors) ∷ rest) = waiting_in seen authors + waiting seen rest

waiting_in-cons-le :
    (d : Digest) (seen : List Digest) (es : Authors) → waiting_in (d ∷ seen) es ≤ waiting_in seen es
waiting_in-cons-le d seen [] = omega arith
waiting_in-cons-le d seen ((_, e) ∷ es) = ground (arith, waiting_in-cons-le d seen es)

waiting-cons-le :
    (d : Digest) (seen : List Digest) (dag : Dag) → waiting (d ∷ seen) dag ≤ waiting seen dag
waiting-cons-le d seen [] = omega arith
waiting-cons-le d seen ((_, es) ∷ dag) =
    omega (arith, waiting_in-cons-le d seen es, waiting-cons-le d seen dag)

waiting_in-cons-lt :
    (d : Digest) (seen : List Digest) (es : Authors) (e : Digest × Certificate)
    → contains seen d ≡ false
    → find (λ e. e.0 == d) (values es) ≡ some e
    → waiting_in (d ∷ seen) es < waiting_in seen es
waiting_in-cons-lt d seen [] e h f = cc
waiting_in-cons-lt d seen ((_, x) ∷ es) e h f =
    ground (arith, waiting_in-cons-le d seen es, waiting_in-cons-lt d seen es e h)

waiting-cons-lt :
    (d : Digest) (seen : List Digest) (r : Round) (dag : Dag) (e : Digest × Certificate)
    → contains seen d ≡ false
    → find_digest d (get r dag) ≡ some e
    → waiting (d ∷ seen) dag < waiting seen dag
waiting-cons-lt d seen r [] e h f = cc
waiting-cons-lt d seen r ((r', es) ∷ dag) e h f = elim (Bool-cases (r' == r)) [
  | inl hit ↦
      omega (arith, waiting_in-cons-lt d seen es e h (rw hit at f), waiting-cons-le d seen dag)
  | inr miss ↦
      omega (arith, waiting_in-cons-le d seen es, waiting-cons-lt d seen r dag e h (rw miss at f))
]

find-digest-eq :
    (d : Digest) (es : List (Digest × Certificate)) (e : Digest × Certificate)
    → find (λ e. e.0 == d) es ≡ some e
    → (e.0 ≡ d) × Memᴰ e es
find-digest-eq d [] e h = cc
find-digest-eq d (x ∷ es) e h = elim (Bool-cases (x.0 == d)) [
  | inl hit ↦
      let same : x ≡ e = some-injective _ _ (rw hit at h) in
      (ground (arith, hit, ap (λ t. t.0) same), Memᴰ.head (sym same))
  | inr miss ↦ let (p, m) = find-digest-eq d es e (rw miss at h) in (p, Memᴰ.tail m)
]

pub find_digest-entry :
    (d : Digest) (r : Round) (dag : Dag) (e : Digest × Certificate)
    → find_digest d (get r dag) ≡ some e
    → (e.0 ≡ d) × (authors : Authors) × (get r dag ≡ some authors) × Memᴰ e (values authors)
find_digest-entry d r dag e h = elim (Option-cases (get r dag)) [
  | inl missing ↦ absurd (ground (arith, missing))
  | inr (authors, g) ↦
      let (p, m) = find-digest-eq d (values authors) e (rw g at h) in (p, authors, g, m)
]

abbrev load : State → Walk → ℕ
load s w = length w.buffer + waiting w.already_ordered s.dag

-- Each visit puts at most what it takes from the certificates that wait.
visit_parent-load :
    (s : State) (d : Digest) (r : Round) (w : Walk)
    → load s (visit_parent s (find_digest d (get r s.dag)) w) ≤ load s w
unfolding visit_parent
visit_parent-load s d r w = elim (Option-cases (find_digest d (get r s.dag))) [
  | inl missing ↦ rw missing (omega arith)
  | inr ((d', x), e) ↦
      let same : d' ≡ d = (find_digest-entry d r s.dag (d', x) e).0 in
      rw e (elim (Bool-cases (contains w.already_ordered d')) [
        | inl old ↦ rw old (omega arith)
        | inr fresh ↦
            let falls =
              waiting-cons-lt d' w.already_ordered r s.dag (d', x) fresh (rw (sym same) at e) in
            ground (arith, fresh, falls)
      ])
]

visit_parents-load :
    (s : State) (r : Round) (ds : List Digest) (w : Walk)
    → load s (visit_parents s r ds w) ≤ load s w
unfolding visit_parents
visit_parents-load s r [] w = omega arith
visit_parents-load s r (d ∷ ds) w = omega (
  arith,
  visit_parent-load s d r w,
  visit_parents-load s r ds (visit_parent s (find_digest d (get r s.dag)) w),
)

pub order_dag_loop-some :
    (fuel : ℕ) (s : State) (buffer : List Certificate) (seen : List Digest)
    (ordered : List Certificate)
    → length buffer + waiting seen s.dag ≤ fuel
    → (xs : List Certificate) × (order_dag_loop fuel s buffer seen ordered ≡ some xs)
unfolding order_dag_loop
order_dag_loop-some fuel s [] seen ordered h = (ordered, refl)
order_dag_loop-some zero s (x ∷ buffer) seen ordered h = absurd (omega arith)
order_dag_loop-some (suc fuel) s (x ∷ buffer) seen ordered h =
    let start : Walk = record { buffer = buffer; already_ordered = seen } in
    let w = visit_parents s (sub64 (round_of x) 1) x.header.parents start in
    order_dag_loop-some fuel s w.buffer w.already_ordered (ordered ++ x ∷ [])
      (omega (arith, visit_parents-load s (sub64 (round_of x) 1) x.header.parents start))

waiting_in-nil : (es : Authors) → waiting_in [] es ≡ length es
waiting_in-nil [] = refl
waiting_in-nil (e ∷ es) = omega (arith, waiting_in-nil es)

pub waiting-nil : (dag : Dag) → waiting [] dag ≡ dag_size dag
waiting-nil [] = refl
waiting-nil ((_, es) ∷ dag) = omega (arith, waiting_in-nil es, waiting-nil dag)
