-- ===== src/Aggregators/Counted.antt =====
-- What the three aggregators of signed messages in primary/src/aggregators.rs have in common: the
-- list that they gather, the set of its authors, and the stake counted so far.
use mathlib.Core.List.{map-append}
use sailfish_test.Prelude.{
  ℕ, ◌+◌, ◌≤◌, ◌<◌, ◌≡◌, List, [], ◌∷◌, ◌++◌, false, arith, add32, contains, set_insert,
  set_insert_fresh, keys, Distinct, Distinct-snoc, All, All-append, ◌∙◌, ap,
}
use sailfish_test.Crypto.{PublicKey, Signature}
use sailfish_test.Config.{Committee, stake, quorum_threshold}
use sailfish_test.Config.Stakes.{IsValid, weight, stake_sum, weight-append, weight-le-stake_sum}
use sailfish_test.Messages.{Signed}
use sailfish_test.Messages.Quorum.{IsQuorum}

pub record IsCounted (c : Committee) (w : ℕ) (votes : Signed) (used : List PublicKey) : Type 0 where
  pub names : keys votes ≡ used
  pub distinct : Distinct used
  pub voting : All (λ n. 0 < stake c n) used
  pub counted : w ≡ weight c used

keys-snoc :
    (votes : Signed) (n : PublicKey) (s : Signature)
    → keys (votes ++ (n, s) ∷ []) ≡ keys votes ++ n ∷ []
keys-snoc votes n s = map-append (λ e. e.0) votes ((n, s) ∷ [])

module _ (c : Committee) (valid : IsValid c) where
  pub weight-snoc :
      (used : List PublicKey) (n : PublicKey)
      → Distinct used
      → contains used n ≡ false
      → (weight c (used ++ n ∷ []) ≡ weight c used + stake c n)
        × (weight c used + stake c n ≤ stake_sum c.authorities)
  weight-snoc used n d fresh = omega (
    arith,
    weight-append c used (n ∷ []),
    weight-le-stake_sum c (used ++ n ∷ []) valid (Distinct-snoc used n d fresh),
  )

  pub IsCounted-snoc :
      (w : ℕ) (votes : Signed) (used : List PublicKey) (n : PublicKey) (s : Signature)
      → IsCounted c w votes used
      → 0 < stake c n
      → contains used n ≡ false
      → IsCounted c (add32 w (stake c n)) (votes ++ (n, s) ∷ []) (set_insert n used)
  IsCounted-snoc w votes used n s i rights fresh = rw (set_insert_fresh n used fresh) (record {
    names = keys-snoc votes n s ∙ ap (λ l. l ++ n ∷ []) i.names;
    distinct = Distinct-snoc used n i.distinct fresh;
    voting = All-append _ used (n ∷ []) i.voting (rights, tt);
    counted = omega (arith, weight-snoc used n i.distinct fresh, i.counted, valid.bounded);
  })

pub IsCounted-IsQuorum :
    (c : Committee) (w : ℕ) (votes : Signed) (used : List PublicKey)
    → IsCounted c w votes used
    → quorum_threshold c ≤ w
    → IsQuorum c votes
IsCounted-IsQuorum c w votes used i h = record {
  distinct = rw i.names i.distinct;
  voting = rw i.names i.voting;
  enough = rw i.names (omega (arith, i.counted));
}
