-- ===== src/Tasks/Collector.antt =====
-- The consensus round that primary/src/garbage_collector.rs sets.
use sailfish_test.Prelude.{
  ℕ, ◌≤◌, ◌<◌, ◌≡◌, refl, ◌∙◌, sym, ap, subst, inl, inr, List, [], ◌∷◌, ◌++◌, some, arith, ltb,
  if◌then◌else◌, Bool-cases, All, All-append, ltb→lt, Above, Ascending,
}
use sailfish_test.Crypto.{PublicKey}
use sailfish_test.Config.{Committee}
use sailfish_test.Messages.{Round, Certificate, round_of}
use sailfish_test.Tasks.{GarbageCollector, collect, collect_all, spawn_collector}

-- The greatest of a round and the rounds of some certificates.
abbrev pub greatest : Round → List Certificate → Round
greatest r [] = r
greatest r (x ∷ xs) = greatest (if ltb r (round_of x) then round_of x else r) xs

-- The two rounds agree, and the rounds sent to the workers climb to them.
record IsInStep (g : GarbageCollector) : Type 0 where
  same : g.consensus_round ≡ g.last_committed_round
  climbs : Ascending g.sent
  below : All (λ r. r ≤ g.last_committed_round) g.sent

Above-snoc :
    (a b : ℕ) (xs : List ℕ) → a < b → Above a xs → All (λ x. x < b) xs → Above a (xs ++ b ∷ [])
Above-snoc a b [] h s l = (h, tt)
Above-snoc a b (x ∷ xs) h s l = (s.0, Above-snoc x b xs l.0 s.1 l.1)

Ascending-snoc :
    (b : ℕ) (xs : List ℕ) → Ascending xs → All (λ x. x < b) xs → Ascending (xs ++ b ∷ [])
Ascending-snoc b [] s l = tt
Ascending-snoc b (x ∷ xs) s l = Above-snoc x b xs l.0 s l.1

All-weaken : (a b : ℕ) (xs : List ℕ) → a < b → All (λ x. x ≤ a) xs → All (λ x. x < b) xs
All-weaken a b [] h l = tt
All-weaken a b (x ∷ xs) h l = (omega (arith, l.0), All-weaken a b xs h l.1)

All-≤ : (b : ℕ) (xs : List ℕ) → All (λ x. x < b) xs → All (λ x. x ≤ b) xs
All-≤ b [] l = tt
All-≤ b (x ∷ xs) l = (omega (arith, l.0), All-≤ b xs l.1)

collect-IsInStep : (x : Certificate) (g : GarbageCollector) → IsInStep g → IsInStep (collect x g)
unfolding collect
collect-IsInStep x g q = elim (Bool-cases (ltb g.last_committed_round (round_of x))) [
  | inl late ↦
      let below = All-weaken g.last_committed_round (round_of x) g.sent (ltb→lt _ _ late) q.below in
      rw (collect, late)
        (record {
          same = refl;
          climbs = Ascending-snoc (round_of x) g.sent q.climbs below;
          below =
              All-append (λ r. r ≤ round_of x) g.sent (round_of x ∷ [])
                (All-≤ (round_of x) g.sent below) (omega arith, tt);
        })
  | inr early ↦ rw (collect, early) q
]

collect-round :
    (x : Certificate) (g : GarbageCollector)
    → (collect x g).last_committed_round
      ≡ (if ltb g.last_committed_round (round_of x) then round_of x else g.last_committed_round)
unfolding collect
collect-round x g = elim (Bool-cases (ltb g.last_committed_round (round_of x))) [
  | inl late ↦ rw (collect, late) refl
  | inr early ↦ rw (collect, early) refl
]

collected :
    (xs : List Certificate) (g : GarbageCollector)
    → IsInStep g
    → IsInStep (collect_all xs g)
      × ((collect_all xs g).last_committed_round ≡ greatest g.last_committed_round xs)
unfolding collect_all
collected [] g q = (q, refl)
collected (x ∷ xs) g q =
    let (q', e) = collected xs (collect x g) (collect-IsInStep x g q) in
    (q', e ∙ ap (λ r. greatest r xs) (collect-round x g))

-- After any certificates from the consensus, in any order, the consensus round is the greatest of their
-- rounds, and the workers were told to clean up at strictly ascending rounds.
pub collect_all-greatest :
    (name : PublicKey) (c : Committee) (xs : List Certificate) (g : GarbageCollector)
    → spawn_collector name c ≡ some g
    → ((collect_all xs g).consensus_round ≡ greatest 0 xs) × Ascending (collect_all xs g).sent
unfolding spawn_collector
collect_all-greatest name c xs g e =
    let started : (g.consensus_round ≡ 0) × (g.last_committed_round ≡ 0) × (g.sent ≡ []) =
      ground arith in
    let (q, r) = collected xs g (record {
      same = started.0 ∙ sym started.1;
      climbs = subst Ascending (sym started.2) tt;
      below = subst (All (λ r. r ≤ g.last_committed_round)) (sym started.2) tt;
    }) in
    (q.same ∙ r ∙ ap (λ n. greatest n xs) started.1, q.climbs)
