-- ===== src/Consensus/State/Cleanup.antt =====
-- `State::update` of consensus/src/lib.rs and its cleanup of the DAG.
use mathlib.Core.List.{Memᴰ}
use Prim.Native.Nat.{max}
use sailfish_test.Prelude.{
  get-Memᴰ, ◌≤◌, ◌≡◌, inl, inr, List, [], ◌∷◌, true, none, some, arith, add64, ◌==◌, leb, All, get,
  insert, get-insert, Bool-cases, refl, ap, subst, ◌∙◌, false,
}
use sailfish_test.Crypto.{Digest, PublicKey}
use sailfish_test.Messages.{Round, Certificate, round_of, origin}
use sailfish_test.Consensus.State.{Dag, State, raised, note_commit, max_value, cleanup, update}
use sailfish_test.Consensus.State.Sweep.{
  is_open, AllOpen, IsLive, Holds, cleanup-AllOpen, cleanup-IsLive, cleanup-Holds, Holds-of_cleanup,
}

get-le-max_value :
    (k : PublicKey) (r : Round) (m : List (PublicKey × Round)) → get k m ≡ some r → r ≤ max_value m
unfolding max_value
get-le-max_value k r [] h = cc
get-le-max_value k r ((j, v) ∷ m) h = ground (arith, get-le-max_value k r m)

note_commit-raised :
    (x : Certificate) (m : List (PublicKey × Round))
    → get (origin x) (note_commit x m) ≡ some (raised (get (origin x) m) (round_of x))
unfolding note_commit
note_commit-raised x m =
    ground (arith, get-insert (origin x) (origin x) (raised (get (origin x) m) (round_of x)) m)

note_commit-other :
    (x : Certificate) (m : List (PublicKey × Round)) (n : PublicKey)
    → (origin x == n) ≡ false
    → get n (note_commit x m) ≡ get n m
unfolding note_commit
note_commit-other x m n other =
    get-insert (origin x) n (raised (get (origin x) m) (round_of x)) m ∙ rw other refl

max_value-attained :
    (c : PublicKey × Round) (m : List (PublicKey × Round))
    → (n : PublicKey) × Memᴰ (n, max_value (c ∷ m)) (c ∷ m)
unfolding max_value
max_value-attained (k, r) [] = (k, Memᴰ.head (ap (λ t. (k, t)) (omega arith)))
max_value-attained (k, r) (d ∷ m) =
    let (n, there) = max_value-attained d m in
    elim (Bool-cases (leb (max_value (d ∷ m)) r)) [
      | inl first ↦ (k, Memᴰ.head (ap (λ t. (k, t)) (ground (arith, first))))
      | inr later ↦
          (n, subst (λ t. Memᴰ (n, t) ((k, r) ∷ d ∷ m)) (ground (arith, later)) (Memᴰ.tail there))
    ]

note_commit-attained :
    (x : Certificate) (m : List (PublicKey × Round))
    → (n : PublicKey) × Memᴰ (n, max_value (note_commit x m)) (note_commit x m)
unfolding note_commit
note_commit-attained x [] = max_value-attained (origin x, raised none (round_of x)) []
note_commit-attained x (c ∷ m) = elim (Bool-cases (c.0 == origin x)) [
  | inl same ↦ rw same (max_value-attained _ m)
  | inr other ↦ rw other (max_value-attained c _)
]

cleanup-note-IsLive :
    (gc_depth last k v : Round) (m : List (PublicKey × Round)) (dag : Dag)
    → All (IsLive gc_depth last) (cleanup gc_depth last (insert k v m) dag)
cleanup-note-IsLive gc_depth last k v [] dag = cleanup-IsLive gc_depth last (k, v) [] dag
cleanup-note-IsLive gc_depth last k v ((j, w) ∷ m) dag = elim (Bool-cases (j == k)) [
  | inl hit ↦ rw hit (cleanup-IsLive gc_depth last (k, v) m dag)
  | inr miss ↦ rw miss (cleanup-IsLive gc_depth last (j, w) (insert k v m) dag)
]

-- What `update` does with a committed certificate.
pub record IsUpdated (gc_depth : Round) (x : Certificate) (s s' : State) : Type 0 where
  pub first :
      get (origin x) s.last_committed ≡ none → get (origin x) s'.last_committed ≡ some (round_of x)
  pub again :
      (r : Round)
      → get (origin x) s.last_committed ≡ some r
      → get (origin x) s'.last_committed ≡ some (max r (round_of x))
  pub others :
      (n : PublicKey) → (origin x == n) ≡ false → get n s'.last_committed ≡ get n s.last_committed
  pub highest :
      (n : PublicKey) (r : Round) → get n s'.last_committed ≡ some r → r ≤ s'.last_committed_round
  pub attained : (n : PublicKey) × Memᴰ (n, s'.last_committed_round) s'.last_committed
  pub live : All (IsLive gc_depth s'.last_committed_round) s'.dag
  pub cleaned :
      (n : PublicKey) (r : Round) → get n s'.last_committed ≡ some r → AllOpen (n, r) s'.dag
  pub kept :
      (r : Round) (e : PublicKey × (Digest × Certificate))
      → Holds r e s.dag
      → All (λ c. is_open c r e ≡ true) s'.last_committed
      → leb s'.last_committed_round (add64 r gc_depth) ≡ true
      → Holds r e s'.dag
  pub old :
      (r : Round) (e : PublicKey × (Digest × Certificate)) → Holds r e s'.dag → Holds r e s.dag

-- After `update` with a certificate, the committed round of its author is the round of the
-- certificate or the one it had before, whichever is higher, and that of every other author is as
-- before. The last committed round is the highest of them: none is above it, and one is equal to it.
-- In the DAG there is no empty round, no round past the garbage collection depth, and no entry below
-- the committed round of its author. Every entry at or above the committed round of its author, in a
-- round within the depth, is still there, and there is no entry that was not there before.
pub update-IsUpdated :
    (gc_depth : Round) (x : Certificate) (s : State) → IsUpdated gc_depth x s (update gc_depth x s)
unfolding update
update-IsUpdated gc_depth x s = record {
  first = λ h. note_commit-raised x s.last_committed ∙ rw h refl;
  again = λ r h. note_commit-raised x s.last_committed ∙ rw h refl;
  others = note_commit-other x s.last_committed;
  highest = λ n r h. get-le-max_value n r (note_commit x s.last_committed) h;
  attained = note_commit-attained x s.last_committed;
  live = unfold note_commit in cleanup-note-IsLive gc_depth _ (origin x) _ s.last_committed s.dag;
  cleaned = λ n r h.
      cleanup-AllOpen gc_depth _ (n, r) (note_commit x s.last_committed) s.dag
        (get-Memᴰ n r (note_commit x s.last_committed) h);
  kept =
      λ r e h a near. cleanup-Holds gc_depth _ (note_commit x s.last_committed) r e s.dag a near h;
  old = λ r e h. Holds-of_cleanup gc_depth _ (note_commit x s.last_committed) r e s.dag h;
}
