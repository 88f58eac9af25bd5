-- ===== src/Consensus/Steps/Supported.antt =====
-- The support for a leader in consensus/src/lib.rs, when a certificate commits it.
use mathlib.Core.Option.{some-injective}
use mathlib.Core.List.{Memᴰ}
use sailfish_test.Prelude.{
  ◌≤◌, ◌<◌, ◌≡◌, ◌∙◌, ◌⊎◌, List, refl, sym, subst, inl, inr, [], ◌∷◌, some, arith, sub64, All,
  contains, get, values, Bool-cases, Option-cases, u32_mod, u64_mod, suc, ◌==◌,
  Distinct-keys-retain, ℕ, get_elem?, keys, ◌%◌,
}
use sailfish_test.Crypto.{Digest, PublicKey, Primitives}
use sailfish_test.Config.{Committee, committee_size, stake, quorum_threshold, validity_threshold}
use sailfish_test.Messages.{Round, Certificate, round_of}
use sailfish_test.Consensus.State.{Authors, Dag}
use sailfish_test.Consensus.Order.{leader}
use sailfish_test.Config.Stakes.{IsValid, weight, weight-le-stake_sum}
use sailfish_test.Config
use sailfish_test.Config.Leaders.{leader-eq}
use sailfish_test.Consensus.Order.Support.{IsSupported, supporters}
use sailfish_test.Consensus.Steps.Keyed.{
  IsEntry, IsRow, IsKeyed, IsRow-get, with_certificate-IsKeyed,
}
use sailfish_test.Consensus.Steps.Commits.{CertificateStep, receive_certificate-cases}
use sailfish_test.Consensus.Steps.{
  Consensus, support, sum32, with_certificate, commit, committed, receive_certificate,
}

-- The sum of the program is the weight of the supporters, where the entries stand under their authors.
support-eq :
    (p : Primitives) (c : Committee) (r : Round) (d : Digest) (es : Authors)
    → All (IsEntry p r) es
    → weight c (supporters d es) < u32_mod
    → support c d es ≡ weight c (supporters d es)
unfolding support sum32
support-eq p c r d [] a h = refl
support-eq p c r d ((n, e) ∷ es) a h = elim (Bool-cases (contains e.1.header.parents d)) [
  | inl hit ↦
      let rest = support-eq p c r d es a.1 (ground (arith, hit, h)) in
      ground (arith, hit, h, rest, a.0.0)
  | inr miss ↦
      let rest = support-eq p c r d es a.1 (ground (arith, miss, h)) in ground (arith, miss, rest)
]

get-Memᴰ :
    (n : PublicKey) (es : Authors) (e : Digest × Certificate)
    → get n es ≡ some e
    → Memᴰ e (values es)
get-Memᴰ n [] e h = cc
get-Memᴰ n ((m, x) ∷ es) e h = elim (Bool-cases (m == n)) [
  | inl hit ↦ Memᴰ.head (sym (some-injective _ _ (rw hit at h)))
  | inr miss ↦ Memᴰ.tail (get-Memᴰ n es e (rw miss at h))
]

-- The certificate of the authority that is elected for a round: the one at the round modulo the size
-- of the committee, in the order of the keys.
pub record IsElected (c : Committee) (dag : Dag) (r : Round) (e : Digest × Certificate)
    : Type 0 where
  pub name : PublicKey
  pub authors : Authors
  pub turn : get_elem? (keys c.authorities) (r % committee_size c) ≡ some name
  pub row : get r dag ≡ some authors
  pub own : get name authors ≡ some e

leader-positive :
    (c : Committee) (r : ℕ) (name : PublicKey)
    → Config.leader c r ≡ some name
    → 0 < committee_size c
unfolding Config.leader
leader-positive c r name l = ground (arith, l)

leader-IsElected :
    (c : Committee) (r : Round) (dag : Dag) (e : Digest × Certificate)
    → IsValid c
    → leader c r dag ≡ some (some e)
    → IsElected c dag r e
unfolding leader
leader-IsElected c r dag e v h = elim (Option-cases (Config.leader c r)) [
  | inl panic ↦ absurd (ground (arith, panic))
  | inr (name, l) ↦ elim (Option-cases (get r dag)) [
    | inl missing ↦ absurd (ground (arith, l, missing))
    | inr (authors, g) ↦ record {
      name = name;
      authors = authors;
      turn = sym (leader-eq c r v (leader-positive c r name l)) ∙ l;
      row = g;
      own = ground (arith, l, g, h);
    }
  ]
]

IsRow-of_get :
    (p : Primitives) (r : Round) (dag : Dag) (es : Authors)
    → IsKeyed p dag
    → get r dag ≡ some es
    → IsRow p r es
IsRow-of_get p r dag es i g = subst (IsRow p r) (ground (arith, g)) (IsRow-get p r dag i)

-- The branch that commits: the sum that the code takes is the stake of the supporters.
enough-IsSupported :
    (p : Primitives) (x : Certificate) (k : Consensus) (d : Digest) (top : Certificate)
    (authors : Authors) (r : Round)
    → IsValid k.committee
    → IsKeyed p k.state.dag
    → round_of x ≡ suc r
    → round_of x < u64_mod
    → leader k.committee (sub64 (round_of x) 1) (with_certificate p x k).state.dag
      ≡ some (some (d, top))
    → get (round_of x) (with_certificate p x k).state.dag ≡ some authors
    → validity_threshold k.committee ≤ support k.committee d authors
    → IsSupported k.committee (with_certificate p x k).state.dag r d top
enough-IsSupported p x k d top authors r valid keyed e fits l g enough =
    let dag = (with_certificate p x k).state.dag in
    let row = IsRow-of_get p (round_of x) dag authors (with_certificate-IsKeyed p x k keyed) g in
    let bound =
      weight-le-stake_sum k.committee (supporters d authors) valid
        (Distinct-keys-retain (λ e. contains e.1.1.header.parents d) authors row.distinct) in
    let q = leader-IsElected k.committee (sub64 (round_of x) 1) dag (d, top) valid l in
    record {
      leaders = q.authors;
      authors = authors;
      leaders_present = subst (λ t. get t dag ≡ some q.authors) (omega arith) q.row;
      in_leaders = get-Memᴰ q.name q.authors (d, top) q.own;
      present = subst (λ t. get t dag ≡ some authors) e g;
      enough =
          subst (λ t. validity_threshold k.committee ≤ t)
            (support-eq p k.committee (round_of x) d authors row.entries
              (omega (arith, bound, valid.bounded)))
            enough;
    }

-- On a valid committee and a well-formed DAG, a certificate of a positive round that the consensus
-- takes without a panic either only enters the DAG and sends nothing, or makes the consensus commit
-- for a leader of the round before, which is above the last committed round. The leader is the
-- certificate of the authority whose turn it is in that round, and it is supported: its children in
-- the DAG, each author counted once, hold the validity threshold.
pub commits-IsSupported :
    (p : Primitives) (x : Certificate) (k k' : Consensus) (out : List Certificate) (r : Round)
    → IsValid k.committee
    → IsKeyed p k.state.dag
    → round_of x ≡ suc r
    → round_of x < u64_mod
    → receive_certificate p x k ≡ some (k', out)
    → ((k' ≡ with_certificate p x k) × (out ≡ []))
      ⊎ ((d : Digest) × (top : Certificate) × (k.state.last_committed_round < r)
          × IsElected k.committee (with_certificate p x k).state.dag r (d, top)
          × IsSupported k.committee (with_certificate p x k).state.dag r d top
          × (committed
                (with_certificate p x k)
                (commit k.committee k.gc_depth top (with_certificate p x k).state)
              ≡ some (k', out)))
commits-IsSupported p x k k' out r valid keyed e fits h = elim (receive_certificate-cases p x k) [
  | CertificateStep.panics e' ↦ absurd (cc e')
  | CertificateStep.adds e' ↦ inl (ground (arith, e', h), ground (arith, e', h))
  | CertificateStep.commits d top authors new l g enough e' ↦ inr (
    d,
    top,
    omega (arith, new),
    subst (λ t. IsElected k.committee (with_certificate p x k).state.dag t (d, top))
        (omega (arith, e, fits))
        (leader-IsElected k.committee (sub64 (round_of x) 1) _ (d, top) valid l),
    enough-IsSupported p x k d top authors r valid keyed e fits l g enough,
    sym e' ∙ h,
  )
]
