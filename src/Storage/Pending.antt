-- ===== src/Storage/Pending.antt =====
-- What store/src/lib.rs keeps.
use sailfish_test.Prelude.{
  ℕ, ◌≡◌, ◌≢◌, refl, ◌∙◌, ap, inl, inr, List, [], ◌∷◌, false, not, Option, none, some, arith, ◌==◌,
  retain, get, get-insert, get-retain, Bool-cases, if◌then◌else◌, ==→eq,
}
use sailfish_test.Storage.{
  Key, Value, StoreResult, Database, Sender, StoreCommand, write, read, notify_read, Store,
  answer_all, serve, oblige, on_write, on_notify_read, step, run,
}

-- What the database does with a value that is put: it is read back, and other keys are untouched.
pub record Keeps (D : Database) : Type 0 where
  pub read_put : (k : Key) (v : Value) (d : D.Db) → D.read k (D.put k v d) ≡ StoreResult.ok (some v)
  pub read_put_other :
      (k j : Key) (v : Value) (d : D.Db) → (k == j) ≡ false → D.read j (D.put k v d) ≡ D.read j d

pub get-retain_out {ℓ} :
    {V : Type ℓ} (k : ℕ) (m : List (ℕ × V)) → get k (retain (λ e. not (e.0 == k)) m) ≡ none
get-retain_out k [] = refl
get-retain_out k ((j, v) ∷ m) = elim (Bool-cases (j == k)) [
  | inl hit ↦ rw hit (get-retain_out k m)
  | inr miss ↦ rw (miss, miss) (get-retain_out k m)
]

module _ (D : Database) where
  -- Where somebody waits for a key, the database holds no value under it.
  unfoldable pub IsPending : Store D → Type 0
  IsPending st = (k : Key) → get k st.obligations ≢ none → D.read k st.db ≡ StoreResult.ok none

  pub answer_all-db :
      (senders : List Sender) (v : Value) (st : Store D) → (answer_all D senders v st).db ≡ st.db
  unfolding answer_all
  answer_all-db [] v st = refl
  answer_all-db (s ∷ senders) v st = answer_all-db senders v _

  pub answer_all-obligations :
      (senders : List Sender) (v : Value) (st : Store D)
      → (answer_all D senders v st).obligations ≡ st.obligations
  unfolding answer_all
  answer_all-obligations [] v st = refl
  answer_all-obligations (s ∷ senders) v st = answer_all-obligations senders v _

  serve-db :
      (o : Option (List Sender)) (k : Key) (v : Value) (st : Store D)
      → (serve D o k v st).db ≡ st.db
  unfolding serve
  serve-db none k v st = refl
  serve-db (some senders) k v st = answer_all-db senders v _

  get-serve :
      (o : Option (List Sender)) (k j : Key) (v : Value) (st : Store D)
      → get k st.obligations ≡ o
      → get j (serve D o k v st).obligations ≡ (if k == j then none else get j st.obligations)
  unfolding serve
  get-serve none k j v st e = elim (Bool-cases (k == j)) [
    | inl same ↦ rw (same, ← ==→eq k j same) e
    | inr other ↦ rw other refl
  ]
  get-serve (some senders) k j v st e =
      ap (get j) (answer_all-obligations senders v _) ∙ elim (Bool-cases (k == j)) [
        | inl same ↦ rw (same, ← ==→eq k j same) (get-retain_out k st.obligations)
        | inr other ↦
            rw other (get-retain (λ i. not (i == k)) j st.obligations (ground (arith, other)))
      ]

  -- Who waits after a write, for any key.
  pub get-on_write :
      (k j : Key) (v : Value) (st : Store D)
      → get j (on_write D k v st).obligations ≡ (if k == j then none else get j st.obligations)
  unfolding on_write
  get-on_write k j v st = get-serve (get k st.obligations) k j v _ refl

  oblige-IsPending :
      (r : StoreResult (Option Value)) (k : Key) (s : Sender) (st : Store D)
      → D.read k st.db ≡ r
      → IsPending st
      → IsPending (oblige D r k s st)
  unfolding oblige IsPending
  oblige-IsPending StoreResult.err k s st e h = h
  oblige-IsPending (StoreResult.ok (some v)) k s st e h = h
  oblige-IsPending (StoreResult.ok none) k s st e h = λ j w. elim (Bool-cases (k == j)) [
    | inl same ↦ rw (← ==→eq k j same) e
    | inr other ↦ h j (λ f. w (get-insert k j _ st.obligations ∙ rw (other, f) refl))
  ]

  step-IsPending :
      Keeps D → (c : StoreCommand) (st : Store D) → IsPending st → IsPending (step D c st)
  unfolding step on_write on_notify_read IsPending
  step-IsPending l (write k v) st h = λ j w. elim (Bool-cases (k == j)) [
    | inl same ↦ absurd (w (get-on_write k j v st ∙ rw same refl))
    | inr other ↦
        rw
          (
            serve-db (get k st.obligations) k v (record st { db = D.put k v st.db }),
            l.read_put_other k j v st.db other,
          )
          (h j (λ e. w (get-on_write k j v st ∙ rw (other, e) refl)))
  ]
  step-IsPending l (read k s) st h = h
  step-IsPending l (notify_read k s) st h = oblige-IsPending (D.read k st.db) k s st refl h

  -- Whatever commands arrive, the store makes nobody wait for a key that the database holds a value
  -- for, with a database that gives back what was put.
  pub run-IsPending :
      (cs : List StoreCommand) (st : Store D) → Keeps D → IsPending st → IsPending (run D cs st)
  unfolding run
  run-IsPending [] st l h = h
  run-IsPending (c ∷ cs) st l h = run-IsPending cs (step D c st) l (step-IsPending l c st h)
