-- ===== src/Core/Voting.antt =====
-- The votes that primary/src/core.rs sends to other primaries, over the life of a node.
use sailfish_test.Prelude.{
  ℕ, ◌+◌, ◌-◌, ◌≤◌, ◌≡◌, refl, subst, ap, inl, inr, List, [], ◌∷◌, ◌++◌, Bool, true, false, ◌&&◌,
  ◌||◌, arith, ◌==◌, leb, ltb, if◌then◌else◌, contains, contains-set_insert, set_insert, get,
  get-insert, get-retain, unwrap_or, Bool-cases, le→leb, ==→eq,
}
use sailfish_test.Crypto.{PublicKey, Primitives}
use sailfish_test.Config.{Committee, SocketAddr}
use sailfish_test.Messages.{Round, Header, Vote}
use sailfish_test.Core.{
  Codec, Store, Core, Outcome, done, failed, panicked, out_of_fuel, Output, send, vote, spawn,
}
use sailfish_test.Core.Handlers.{may_vote, note_voted, note_processing, store_entry}
use sailfish_test.Core.Sound.{Sound}
use sailfish_test.Core.Frame.{is_vote}
use sailfish_test.Core.Circle.{IsKept}
use sailfish_test.Core.Dispatch.{dispatch-Sound}
use sailfish_test.Core.Loop.{Input, running, dispatch, settle, step, clean_up}

-- How many votes for a header of author `a` in round `r` were sent.
abbrev counts : Round → PublicKey → Output → ℕ
counts r a (send to (vote v)) = if v.round == r && v.origin == a then 1 else 0
counts r a _ = 0

abbrev pub times : Round → PublicKey → List Output → ℕ
times r a [] = 0
times r a (o ∷ os) = counts r a o + times r a os

times-snoc :
    (r : Round) (a : PublicKey) (os : List Output) (o : Output)
    → times r a (os ++ o ∷ []) ≡ times r a os + counts r a o
times-snoc r a [] o = omega arith
times-snoc r a (x ∷ os) o = omega (arith, times-snoc r a os o)

counts-other : (r : Round) (a : PublicKey) (o : Output) → is_vote o ≡ false → counts r a o ≡ 0
counts-other r a (send to (vote v)) h = cc
counts-other r a _ h = refl

-- The author is noted as voted for in the round.
abbrev voted : Round → PublicKey → Core → Bool
voted r a k = contains (unwrap_or [] (get r k.last_voted)) a

voted-note_voted :
    (r : Round) (a : PublicKey) (h : Header) (k : Core)
    → voted r a (note_voted h k) ≡ (voted r a k || (h.round == r && h.author == a))
unfolding note_voted
voted-note_voted r a h k =
    rw
      (get-insert h.round r (set_insert h.author (unwrap_or [] (get h.round k.last_voted)))
        k.last_voted)
      (elim (Bool-cases (h.round == r)) [
        | inl same ↦ ground (
          arith,
          same,
          contains-set_insert h.author a (unwrap_or [] (get h.round k.last_voted)),
          ap (λ t. get t k.last_voted) (==→eq h.round r same),
        )
        | inr other ↦ ground (arith, other)
      ])

-- A vote for the first header of its author in the round.
cast-once :
    (r : Round) (a : PublicKey) (k : Core) (h : Header) (v : Vote) (to : SocketAddr)
    → may_vote h k ≡ true
    → v.round ≡ h.round
    → v.origin ≡ h.author
    → times r a k.sent ≤ (if voted r a k then 1 else 0)
    → times r a (k.sent ++ send to (vote v) ∷ []) ≤ (if voted r a (note_voted h k) then 1 else 0)
cast-once r a k h v to may er ea q =
    let snoc = times-snoc r a k.sent (send to (vote v)) in
    let now = voted-note_voted r a h k in
    elim (Bool-cases (h.round == r && h.author == a)) [
      | inl this ↦
          let same_round : h.round ≡ r = ground (arith, this) in
          let same_author : h.author ≡ a = ground (arith, this) in
          let fresh : voted r a k ≡ false =
            subst (λ t. voted t a k ≡ false) same_round
              (subst (λ t. voted h.round t k ≡ false) same_author (ground (arith, may))) in
          ground (arith, snoc, now, this, fresh, er, ea, q)
      | inr other ↦ ground (arith, snoc, now, other, er, ea, q)
    ]

note-once :
    (r : Round) (a : PublicKey) (k : Core) (h : Header)
    → times r a k.sent ≤ (if voted r a k then 1 else 0)
    → times r a k.sent ≤ (if voted r a (note_voted h k) then 1 else 0)
note-once r a k h q =
    let now = voted-note_voted r a h k in
    elim (Bool-cases (voted r a k)) [
      | inl old ↦ ground (arith, now, old, q)
      | inr fresh ↦ ground (arith, now, fresh, q)
    ]

-- In the rounds that are not collected, what was sent is remembered.
pub record Remembers (k : Core) : Type 0 where
  pub once :
      (r : Round) (a : PublicKey)
      → k.gc_round ≤ r
      → times r a k.sent ≤ (if voted r a k then 1 else 0)
  pub behind : k.gc_round ≤ k.consensus_round - k.gc_depth

Remembers-IsKept : IsKept Remembers
unfolding note_voted note_processing store_entry
Remembers-IsKept = record {
  frame = record {
    sends = λ k o e q. record {
      once = λ r a h. omega (arith, times-snoc r a k.sent o, counts-other r a o e, q.once r a h);
      behind = q.behind;
    };
    casts = λ k h v to may er ea q. record {
      once = λ r a le. cast-once r a k h v to may er ea (q.once r a le);
      behind = q.behind;
    };
    handles = λ k r l q. record { once = q.once; behind = q.behind };
    stores = λ k d v q. record { once = q.once; behind = q.behind };
    votes =
        λ k h q. record { once = λ r a le. note-once r a k h (q.once r a le); behind = q.behind };
    collects = λ k m q. record { once = q.once; behind = q.behind };
    counts = λ k a q. record { once = q.once; behind = q.behind };
  };
  notes = λ k h q. record { once = q.once; behind = q.behind };
  proposes = λ k h q. record { once = q.once; behind = q.behind };
  times_out = λ k m q. record { once = q.once; behind = q.behind };
  abstains = λ k m q. record { once = q.once; behind = q.behind };
}

clean_up-Remembers : (k : Core) → Remembers k → Remembers (clean_up k)
unfolding clean_up
clean_up-Remembers k q = elim (Bool-cases (ltb k.gc_depth k.consensus_round)) [
  | inl past ↦ rw past (record {
    once = λ r a le.
        rw (get-retain (λ n. leb (k.consensus_round - k.gc_depth) n) r k.last_voted (le→leb _ _ le))
          (q.once r a (omega (arith, q.behind, le)));
    behind = omega arith;
  })
  | inr early ↦ rw early q
]

pub settle-running :
    (Q : Core → Type 0) (r : Outcome (Unit {0}) × Core) (k : Core)
    → Sound Q r
    → settle r.0 r.1 ≡ running k
    → (k1 : Core) × Q k1 × (clean_up k1 ≡ k)
unfolding settle Sound
settle-running Q (done a, k1) k s h = (k1, s, ground (arith, h))
settle-running Q (failed e, k1) k s h = (k1, s, ground (arith, h))
settle-running Q (panicked, k1) k s h = cc
settle-running Q (out_of_fuel, k1) k s h = absurd s

-- The life of a node: messages in any order, while the consensus moves on and the other tasks of the
-- primary write to the store.
pub data Life (p : Primitives) (b : Codec) (k0 : Core) : Core → Type 0 where
  begins : Life p b k0 k0
  steps : {k1 k2 : Core} (i : Input) → Life p b k0 k1 → step p b i k1 ≡ running k2 → Life p b k0 k2
  writes : {k1 : Core} (s : Store) → Life p b k0 k1 → Life p b k0 (record k1 { store = s })
  advances :
      {k1 : Core} (r : Round)
      → Life p b k0 k1
      → k1.consensus_round ≤ r
      → Life p b k0 (record k1 { consensus_round = r })

module _ (p : Primitives) (b : Codec) where
  Life-Remembers : {k0 k : Core} → Remembers k0 → Life p b k0 k → Remembers k
  unfolding step
  Life-Remembers q begins = q
  Life-Remembers q (steps {k1 = k1} {k2 = k2} i life e) =
      let (k', q', e') =
        settle-running Remembers (dispatch p b i k1) k2
          (dispatch-Sound Remembers Remembers-IsKept p b i k1 (Life-Remembers q life)) e in
      subst Remembers e' (clean_up-Remembers k' q')
  Life-Remembers q (writes s life) =
      let q' = Life-Remembers q life in record { once = q'.once; behind = q'.behind }
  Life-Remembers q (advances {k1 = k1} r life le) =
      let q' = Life-Remembers q life in
      record { once = q'.once; behind = omega (arith, q'.behind, le) }

  -- In its whole life, whatever messages arrive in whatever order and however the consensus round
  -- grows, a node sends to other primaries at most one vote for the headers of one author in one
  -- round, for every round that is not collected.
  pub one_vote :
      (name : PublicKey) (c : Committee) (store : Store) (gc_depth : Round) (k : Core) (r : Round)
      (a : PublicKey)
      → Life p b (spawn name c store gc_depth) k
      → k.gc_round ≤ r
      → times r a k.sent ≤ 1
  unfolding spawn
  one_vote name c store gc_depth k r a life recent =
      let q = Life-Remembers (record { once = λ r a h. omega arith; behind = omega arith }) life in
      ground (arith, q.once r a recent)
