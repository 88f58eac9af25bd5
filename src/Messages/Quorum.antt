-- ===== src/Messages/Quorum.antt =====
-- The quorum check that the `verify` methods of primary/src/messages.rs share.
use mathlib.Core.List.{append_assoc, append-nil}
use sailfish_test.Prelude.{
  ℕ, ◌+◌, ◌%◌, ◌≤◌, ◌<◌, ◌≡◌, refl, sym, ◌↔◌, List, [], ◌∷◌, ◌++◌, false, ◌&&◌, arith, u32_mod,
  add32, ltb, ltb→lt, All, Distinct, Distinct-snoc, contains, contains-append, keys, Bool-cases,
  inl, inr, any, subst,
}
use sailfish_test.Crypto.{Primitives}
use sailfish_test.Config.{Committee, stake, quorum_threshold, validity_threshold}
use sailfish_test.Config.Stakes.{IsValid, held_by, weight, weight-le-stake_sum}
use sailfish_test.Config.Overlap.{quorum_overlap}
use sailfish_test.Messages.{ok, >>=-eq-ok, Signed, Certificate, genesis, same_certificate}
use sailfish_test.Messages.Checks.{tally, check_quorum, verify_certificate, verify_header}

pub record IsQuorum (c : Committee) (votes : Signed) : Type 0 where
  pub distinct : Distinct (keys votes)
  pub voting : All (λ n. 0 < stake c n) (keys votes)
  pub enough : quorum_threshold c ≤ weight c (keys votes)

pub Distinct-middle :
    (xs : List ℕ) (a : ℕ) (ys : List ℕ) → Distinct (xs ++ a ∷ ys) → contains xs a ≡ false
Distinct-middle [] a ys d = refl
Distinct-middle (x ∷ xs) a ys d =
    ground (arith, contains-append xs (a ∷ ys) x, Distinct-middle xs a ys d.1)

-- The loop, from names that were seen before and the sum so far.
record Tallied (c : Committee) (used : List ℕ) (w : ℕ) (votes : Signed) (r : ℕ) : Type 0 where
  distinct : Distinct (used ++ keys votes)
  voting : All (λ n. 0 < stake c n) (keys votes)
  sum : r ≡ (w + weight c (keys votes)) % u32_mod

tally-ok :
    (c : Committee) (used : List ℕ) (w : ℕ) (votes : Signed) (r : ℕ)
    → w < u32_mod
    → Distinct used
    → tally c used w votes ≡ ok r
    → Tallied c used w votes r
unfolding tally
tally-ok c used w [] r hw d h = record {
  distinct = subst Distinct (sym (append-nil used)) d;
  voting = tt;
  sum = ground arith;
}
tally-ok c used w ((n, s) ∷ votes) r hw d h = elim (Bool-cases (contains used n)) [
  | inl seen ↦ absurd (ground arith)
  | inr fresh ↦ elim (Bool-cases (ltb 0 (stake c n))) [
    | inr idle ↦ absurd (ground arith)
    | inl voting ↦
        let ih =
          tally-ok c (used ++ n ∷ []) (add32 w (stake c n)) votes r (omega arith)
            (Distinct-snoc used n d fresh) (ground arith) in
        record {
          distinct = subst Distinct (append_assoc used (n ∷ []) (keys votes)) ih.distinct;
          voting = (ltb→lt _ _ voting, ih.voting);
          sum = omega (arith, ih.sum);
        }
  ]
]

tally_complete :
    (c : Committee) (used : List ℕ) (w : ℕ) (votes : Signed)
    → w + weight c (keys votes) < u32_mod
    → Distinct (used ++ keys votes)
    → All (λ n. 0 < stake c n) (keys votes)
    → tally c used w votes ≡ ok (w + weight c (keys votes))
unfolding tally
tally_complete c used w [] hw d v = ground arith
tally_complete c used w ((n, s) ∷ votes) hw d v = ground (
  arith,
  Distinct-middle used n (keys votes) d,
  tally_complete c (used ++ n ∷ []) (w + stake c n) votes (omega arith)
      (subst Distinct (sym (append_assoc used (n ∷ []) (keys votes))) d) v.1,
)

check_quorum_sound :
    (c : Committee) (votes : Signed) → IsValid c → check_quorum c votes ≡ ok tt → IsQuorum c votes
unfolding check_quorum
check_quorum_sound c votes v h =
    let (r, e, t) = >>=-eq-ok (tally c [] 0 votes) h in
    let all = tally-ok c [] 0 votes r (omega arith) tt t in
    record {
      distinct = all.distinct;
      voting = all.voting;
      enough =
          ground (arith, all.sum, weight-le-stake_sum c (keys votes) v all.distinct, v.bounded);
    }

check_quorum_complete :
    (c : Committee) (votes : Signed) → IsValid c → IsQuorum c votes → check_quorum c votes ≡ ok tt
unfolding check_quorum
check_quorum_complete c votes v q =
    let fits = weight-le-stake_sum c (keys votes) v q.distinct in
    rw (tally_complete c [] 0 votes (omega (arith, v.bounded)) q.distinct q.voting)
      (ground (arith, q.enough))

-- On a valid committee the check passes on exactly the lists whose names are distinct, have voting
-- rights, and hold together at least the quorum threshold.
pub check_quorum_iff :
    (c : Committee) (votes : Signed) → IsValid c → (check_quorum c votes ≡ ok tt) ↔ IsQuorum c votes
check_quorum_iff c votes v = (check_quorum_sound c votes v, check_quorum_complete c votes v)

verify_certificate-quorum :
    (p : Primitives) (c : Committee) (cert : Certificate)
    → any (λ g. same_certificate g cert) (genesis c) ≡ false
    → verify_certificate p c cert ≡ ok tt
    → check_quorum c cert.votes ≡ ok tt
unfolding verify_certificate
verify_certificate-quorum p c cert g h = ground (arith, >>=-eq-ok (verify_header p c cert.header))

-- On a valid committee, two certificates that pass verification and are not equal to genesis
-- certificates were both voted for by authorities that hold at least the validity threshold.
pub certificates_overlap :
    (p : Primitives) (c : Committee) (a b : Certificate)
    → IsValid c
    → any (λ g. same_certificate g a) (genesis c) ≡ false
    → any (λ g. same_certificate g b) (genesis c) ≡ false
    → verify_certificate p c a ≡ ok tt
    → verify_certificate p c b ≡ ok tt
    → validity_threshold c
      ≤ held_by (λ n. contains (keys a.votes) n && contains (keys b.votes) n) c.authorities
certificates_overlap p c a b v ga gb ha hb =
    let qa = check_quorum_sound c a.votes v (verify_certificate-quorum p c a ga ha) in
    let qb = check_quorum_sound c b.votes v (verify_certificate-quorum p c b gb hb) in
    quorum_overlap c (keys a.votes) (keys b.votes) v qa.distinct qb.distinct qa.enough qb.enough
