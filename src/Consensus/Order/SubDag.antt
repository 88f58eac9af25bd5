-- ===== src/Consensus/Order/SubDag.antt =====
-- `order_dag` of consensus/src/lib.rs: its search and its result.
use mathlib.Core.List.{Memᴰ}
use mathlib.Core.Option.{some-injective}
use sailfish_test.Prelude.{
  ℕ, zero, suc, ◌+◌, ◌≤◌, ◌≡◌, refl, subst, inl, inr, List, [], ◌∷◌, ◌++◌, true, false, some, arith,
  add64, sub64, leb, retain, retain-All, All-retain, All, All-append, contains, get, values,
  Bool-cases, Option-cases,
}
use sailfish_test.Crypto.{Digest}
use sailfish_test.Messages.{Round, Certificate, round_of, origin}
use sailfish_test.Consensus.State.{Authors, State}
use sailfish_test.Consensus.Order.{
  find_digest, committed_at, Walk, visit_parent, visit_parents, order_dag_loop, insert_by_round,
  sort_by_round, dag_size, order_dag,
}
use sailfish_test.Consensus.Order.Search.{find_digest-entry, order_dag_loop-some, waiting-nil}

-- Rounds do not fall along the list.
abbrev pub RoundsFrom : Round → List Certificate → Type 0
RoundsFrom r [] = Unit {0}
RoundsFrom r (x ∷ xs) = (r ≤ round_of x) × RoundsFrom (round_of x) xs

insert_by_round-RoundsFrom :
    (r : Round) (x : Certificate) (xs : List Certificate)
    → r ≤ round_of x
    → RoundsFrom r xs
    → RoundsFrom r (insert_by_round x xs)
unfolding insert_by_round
insert_by_round-RoundsFrom r x [] h s = (h, tt)
insert_by_round-RoundsFrom r x (y ∷ ys) h s =
    ground (arith, insert_by_round-RoundsFrom (round_of y) x ys)

sort_by_round-RoundsFrom : (xs : List Certificate) → RoundsFrom 0 (sort_by_round xs)
unfolding sort_by_round
sort_by_round-RoundsFrom [] = tt
sort_by_round-RoundsFrom (x ∷ xs) =
    insert_by_round-RoundsFrom 0 x (sort_by_round xs) (omega arith) (sort_by_round-RoundsFrom xs)

module _ {ℓ} (P : Certificate → Type ℓ) where
  insert_by_round-All :
      (x : Certificate) (xs : List Certificate) → P x → All P xs → All P (insert_by_round x xs)
  unfolding insert_by_round
  insert_by_round-All x [] p a = (p, tt)
  insert_by_round-All x (y ∷ ys) p a = elim (Bool-cases (leb (round_of x) (round_of y))) [
    | inl le ↦ rw le (p, a)
    | inr gt ↦ rw gt (a.0, insert_by_round-All x ys p a.1)
  ]

  sort_by_round-All : (xs : List Certificate) → All P xs → All P (sort_by_round xs)
  unfolding sort_by_round
  sort_by_round-All [] a = tt
  sort_by_round-All (x ∷ xs) a =
      insert_by_round-All x (sort_by_round xs) a.0 (sort_by_round-All xs a.1)

-- What the search may sequence: the leader, or an entry of the DAG that was not committed.
pub data IsSequenced (s : State) (top x : Certificate) : Type 0 where
  leads : x ≡ top → IsSequenced s top x
  found :
      (r : Round) (authors : Authors) (d : Digest)
      → get r s.dag ≡ some authors
      → Memᴰ (d, x) (values authors)
      → committed_at (get (origin x) s.last_committed) (round_of x) ≡ false
      → IsSequenced s top x

module _ (s : State) (top : Certificate) where
  visit_parent-IsSequenced :
      (d : Digest) (r : Round) (w : Walk)
      → All (IsSequenced s top) w.buffer
      → All (IsSequenced s top) (visit_parent s (find_digest d (get r s.dag)) w).buffer
  unfolding visit_parent
  visit_parent-IsSequenced d r w a = elim (Option-cases (find_digest d (get r s.dag))) [
    | inl missing ↦ rw missing a
    | inr ((d', x), e) ↦
        let (_, authors, g, m) = find_digest-entry d r s.dag (d', x) e in
        rw e (elim (Bool-cases (contains w.already_ordered d')) [
          | inl old ↦ rw old a
          | inr fresh ↦
              elim (Bool-cases (committed_at (get (origin x) s.last_committed) (round_of x))) [
                | inl done ↦ rw (fresh, done) a
                | inr new ↦ rw (fresh, new) (found r authors d' g m new, a)
              ]
        ])
  ]

  visit_parents-IsSequenced :
      (r : Round) (ds : List Digest) (w : Walk)
      → All (IsSequenced s top) w.buffer
      → All (IsSequenced s top) (visit_parents s r ds w).buffer
  unfolding visit_parents
  visit_parents-IsSequenced r [] w a = a
  visit_parents-IsSequenced r (d ∷ ds) w a =
      visit_parents-IsSequenced r ds (visit_parent s (find_digest d (get r s.dag)) w)
        (visit_parent-IsSequenced d r w a)

  order_dag_loop-IsSequenced :
      (fuel : ℕ) (buffer : List Certificate) (seen : List Digest) (ordered xs : List Certificate)
      → All (IsSequenced s top) buffer
      → All (IsSequenced s top) ordered
      → order_dag_loop fuel s buffer seen ordered ≡ some xs
      → All (IsSequenced s top) xs
  unfolding order_dag_loop
  order_dag_loop-IsSequenced fuel [] seen ordered xs ab ao h =
      subst (All (IsSequenced s top)) (some-injective _ _ h) ao
  order_dag_loop-IsSequenced zero (x ∷ buffer) seen ordered xs ab ao h = absurd (cc)
  order_dag_loop-IsSequenced (suc fuel) (x ∷ buffer) seen ordered xs ab ao h =
      let start : Walk = record { buffer = buffer; already_ordered = seen } in
      let w = visit_parents s (sub64 (round_of x) 1) x.header.parents start in
      order_dag_loop-IsSequenced fuel w.buffer w.already_ordered (ordered ++ x ∷ []) xs
        (visit_parents-IsSequenced (sub64 (round_of x) 1) x.header.parents start ab.1)
        (All-append (IsSequenced s top) ordered (x ∷ []) ao (ab.0, tt)) h

-- The search of `order_dag` ends on every DAG. Its result is in the order of rounds; every
-- certificate of it is the leader itself, or an entry of the DAG whose round is not the committed
-- round of its author; and none of it is past the garbage collection depth.
pub order_dag_lem :
    (gc_depth : Round) (top : Certificate) (s : State)
    → (xs : List Certificate) × (order_dag gc_depth top s ≡ some xs)
      × RoundsFrom 0 xs
      × All (IsSequenced s top) xs
      × All (λ x. leb s.last_committed_round (add64 (round_of x) gc_depth) ≡ true) xs
unfolding order_dag
order_dag_lem gc_depth top s =
    let (ordered, e) =
      order_dag_loop-some (dag_size s.dag + 1) s (top ∷ []) [] []
        (omega (arith, waiting-nil s.dag)) in
    let t = λ (x : Certificate). leb s.last_committed_round (add64 (round_of x) gc_depth) in
    (
      sort_by_round (retain t ordered),
      rw e,
      sort_by_round-RoundsFrom (retain t ordered),
      sort_by_round-All (IsSequenced s top) _ (
          All-retain (IsSequenced s top) t ordered (
            order_dag_loop-IsSequenced s top (dag_size s.dag + 1) (top ∷ []) [] [] ordered
              (leads refl, tt) tt e)),
      sort_by_round-All (λ x. t x ≡ true) _ (retain-All t ordered),
    )
