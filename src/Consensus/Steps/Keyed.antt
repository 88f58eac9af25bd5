-- ===== src/Consensus/Steps/Keyed.antt =====
-- The shape of the DAG of consensus/src/lib.rs over the steps of the main loop: each round has one
-- entry for each author, under the key of the author, with the digest of the certificate.
use sailfish_test.Prelude.{
  ◌≡◌, refl, sym, subst, ◌∙◌, inl, inr, List, [], ◌∷◌, ◌++◌, map, some, arith, ◌==◌, All,
  All-retain, Distinct, Distinct-keys-insert, Distinct-keys-retain, All-insert, get, insert, keys,
  unwrap_or, reverse, Bool-cases, Option-cases, ==→eq,
}
use mathlib.Core.Option.{some-injective}
use sailfish_test.Crypto.{Digest, PublicKey, Primitives}
use sailfish_test.Config.{Committee}
use sailfish_test.Messages.{Round, Header, Certificate, round_of, origin, certificate_digest}
use sailfish_test.Consensus.State.{Authors, Dag, State, sweep_authors, sweep, cleanup, update}
use sailfish_test.Consensus.Order.{order_dag, order_leaders}
use sailfish_test.Consensus.Steps.Commits.{
  CertificateStep, HeaderStep, receive_certificate-cases, receive_header-cases,
}
use sailfish_test.Consensus.Steps.{
  Consensus, Stepped, with_certificate, commit_all, commit_leaders, commit, committed,
  vote_for_leader, receive_header, add_certificate, receive_certificate,
}

-- The entry of a round: under its author, with its digest, in its round.
abbrev pub IsEntry : Primitives → Round → PublicKey × (Digest × Certificate) → Type 0
IsEntry p r e = (origin e.1.1 ≡ e.0) × (round_of e.1.1 ≡ r) × (e.1.0 ≡ certificate_digest p e.1.1)

pub record IsRow (p : Primitives) (r : Round) (es : Authors) : Type 0 where
  pub distinct : Distinct (keys es)
  pub entries : All (IsEntry p r) es

abbrev pub IsKeyed : Primitives → Dag → Type 0
IsKeyed p dag = All (λ row. IsRow p row.0 row.1) dag

module _ (p : Primitives) where
  IsRow-insert :
      (r : Round) (x : Certificate) (es : Authors)
      → round_of x ≡ r
      → IsRow p r es
      → IsRow p r (insert (origin x) (certificate_digest p x, x) es)
  IsRow-insert r x es e i = record {
    distinct = Distinct-keys-insert (origin x) (certificate_digest p x, x) es i.distinct;
    entries =
        All-insert (IsEntry p r) (origin x) (certificate_digest p x, x) es (refl, e, refl)
          i.entries;
  }

  pub IsRow-get : (r : Round) (dag : Dag) → IsKeyed p dag → IsRow p r (unwrap_or [] (get r dag))
  IsRow-get r [] i = record { distinct = tt; entries = tt }
  IsRow-get r ((j, es) ∷ dag) i = elim (Bool-cases (j == r)) [
    | inl hit ↦ rw hit (subst (λ t. IsRow p t es) (==→eq j r hit) i.0)
    | inr miss ↦ rw miss (IsRow-get r dag i.1)
  ]

  pub add_certificate-IsKeyed :
      (x : Certificate) (dag : Dag) → IsKeyed p dag → IsKeyed p (add_certificate p x dag)
  unfolding add_certificate
  add_certificate-IsKeyed x dag i =
      All-insert (λ row. IsRow p row.0 row.1) (round_of x) _ dag
        (IsRow-insert (round_of x) x _ refl (IsRow-get (round_of x) dag i)) i

  swept-IsKeyed :
      (name : PublicKey) (round : Round) (dag : Dag)
      → IsKeyed p dag
      → IsKeyed p (map (λ e. (e.0, sweep_authors name round e.0 e.1)) dag)
  unfolding sweep_authors
  swept-IsKeyed name round [] i = tt
  swept-IsKeyed name round ((r, es) ∷ dag) i = (
    record {
      distinct = Distinct-keys-retain _ es i.0.distinct;
      entries = All-retain (IsEntry p r) _ es i.0.entries;
    },
    swept-IsKeyed name round dag i.1,
  )

  cleanup-IsKeyed :
      (gc_depth last : Round) (l : List (PublicKey × Round)) (dag : Dag)
      → IsKeyed p dag
      → IsKeyed p (cleanup gc_depth last l dag)
  unfolding cleanup sweep
  cleanup-IsKeyed gc_depth last [] dag i = i
  cleanup-IsKeyed gc_depth last ((name, round) ∷ l) dag i =
      cleanup-IsKeyed gc_depth last l (sweep gc_depth last name round dag)
        (All-retain (λ row. IsRow p row.0 row.1) _ _ (swept-IsKeyed name round dag i))

  commit_all-IsKeyed :
      (gc_depth : Round) (xs : List Certificate) (s : State) (sequence : List Certificate)
      → IsKeyed p s.dag
      → IsKeyed p (commit_all gc_depth xs (s, sequence)).0.dag
  unfolding commit_all update
  commit_all-IsKeyed gc_depth [] s sequence i = i
  commit_all-IsKeyed gc_depth (x ∷ xs) s sequence i =
      commit_all-IsKeyed gc_depth xs (update gc_depth x s) (sequence ++ x ∷ [])
        (cleanup-IsKeyed gc_depth _ _ s.dag i)

  commit_leaders-IsKeyed :
      (gc_depth : Round) (ls : List Certificate) (r r' : State × List Certificate)
      → IsKeyed p r.0.dag
      → commit_leaders gc_depth ls r ≡ some r'
      → IsKeyed p r'.0.dag
  unfolding commit_leaders
  commit_leaders-IsKeyed gc_depth [] r r' i h =
      subst (λ t. IsKeyed p t.0.dag) (some-injective _ _ h) i
  commit_leaders-IsKeyed gc_depth (l ∷ ls) r r' i h =
      elim (Option-cases (order_dag gc_depth l r.0)) [
        | inl never ↦ absurd (ground (arith, never))
        | inr (xs, e) ↦
            commit_leaders-IsKeyed gc_depth ls (commit_all gc_depth xs r) r'
              (commit_all-IsKeyed gc_depth xs r.0 r.1 i) (rw e at h)
      ]

  committed-IsKeyed :
      (k k' : Consensus) (out : List Certificate) (c : Committee) (gc_depth : Round)
      (top : Certificate) (s : State)
      → IsKeyed p s.dag
      → committed k (commit c gc_depth top s) ≡ some (k', out)
      → IsKeyed p k'.state.dag
  unfolding commit
  committed-IsKeyed k k' out c gc_depth top s i h = elim (Option-cases (order_leaders c top s)) [
    | inl panic ↦ absurd (ground (arith, panic))
    | inr (leaders, e) ↦ elim (Option-cases (commit_leaders gc_depth (reverse leaders) (s, []))) [
      | inl panic ↦ absurd (ground (arith, e, panic))
      | inr (r, e') ↦
          let same : r.0 ≡ k'.state = ground (arith, e, e', h) in
          subst (λ (t : State). IsKeyed p t.dag) same
            (commit_leaders-IsKeyed gc_depth (reverse leaders) (s, []) r i e')
    ]
  ]

  pub with_certificate-IsKeyed :
      (x : Certificate) (k : Consensus)
      → IsKeyed p k.state.dag
      → IsKeyed p (with_certificate p x k).state.dag
  unfolding with_certificate
  with_certificate-IsKeyed x k i = add_certificate-IsKeyed x k.state.dag i

  vote_for_leader-state :
      (h : Header) (d : Digest) (k : Consensus) → (vote_for_leader h d k).state ≡ k.state
  unfolding vote_for_leader
  vote_for_leader-state h d k = ground arith

  kept-IsKeyed :
      (k k1 k' : Consensus) (out : List Certificate) (r : Stepped)
      → IsKeyed p k1.state.dag
      → r ≡ some (k1, [])
      → r ≡ some (k', out)
      → IsKeyed p k'.state.dag
  kept-IsKeyed k k1 k' out r i e h =
      let same : k1 ≡ k' = ground (arith, e, h) in
      subst (λ (t : Consensus). IsKeyed p t.state.dag) same i

  -- A certificate keeps the DAG well formed, also when it commits.
  pub receive_certificate-IsKeyed :
      (x : Certificate) (k k' : Consensus) (out : List Certificate)
      → IsKeyed p k.state.dag
      → receive_certificate p x k ≡ some (k', out)
      → IsKeyed p k'.state.dag
  receive_certificate-IsKeyed x k k' out i h = elim (receive_certificate-cases p x k) [
    | CertificateStep.panics e ↦ absurd (cc (e))
    | CertificateStep.adds e ↦ kept-IsKeyed k _ k' out _ (with_certificate-IsKeyed x k i) e h
    | CertificateStep.commits d top authors _ _ _ _ e ↦
        committed-IsKeyed (with_certificate p x k) k' out k.committee k.gc_depth top _
          (with_certificate-IsKeyed x k i) (sym e ∙ h)
  ]

  -- And so does a header.
  pub receive_header-IsKeyed :
      (x : Header) (k k' : Consensus) (out : List Certificate)
      → IsKeyed p k.state.dag
      → receive_header x k ≡ some (k', out)
      → IsKeyed p k'.state.dag
  receive_header-IsKeyed x k k' out i h = elim (receive_header-cases x k) [
    | HeaderStep.panics e ↦ absurd (cc (e))
    | HeaderStep.ignores e ↦ kept-IsKeyed k k k' out _ i e h
    | HeaderStep.counts d top _ _ e ↦
        kept-IsKeyed k _ k' out _
          (subst (λ (t : State). IsKeyed p t.dag) (sym (vote_for_leader-state x d k)) i) e h
    | HeaderStep.commits d top _ _ _ e ↦
        committed-IsKeyed (vote_for_leader x d k) k' out k.committee k.gc_depth top k.state i
          (sym e ∙ h)
  ]
