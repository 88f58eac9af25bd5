-- ===== src/Storage/Resolves.antt =====
-- Who waits in store/src/lib.rs for a key to be written.
use sailfish_test.Prelude.{
  append_assoc, append_nil, ℕ, zero, suc, ◌+◌, ◌≡◌, refl, ◌∙◌, sym, ap, inl, inr, List, [], ◌∷◌,
  ◌++◌, Bool, true, false, ◌||◌, Option, none, some, arith, ◌==◌, if◌then◌else◌, get, unwrap_or,
  get-insert, Bool-cases, ==→eq, subst, ==_refl,
}
use sailfish_test.Storage.{
  Key, Value, StoreResult, Database, Sender, Answer, to_notify_read, StoreCommand, write, read,
  notify_read, Store, answer_all, serve, oblige, on_write, on_notify_read, step, run,
}
use sailfish_test.Storage.Pending.{get-on_write}

abbrev pub answers_to : Sender → List (Sender × Answer) → List Answer
answers_to s [] = []
answers_to s ((t, a) ∷ as_) = let rest = answers_to s as_ in if t == s then a ∷ rest else rest

-- The first value that the commands write under a key.
abbrev pub first_written : Key → List StoreCommand → Option Value
first_written k [] = none
first_written k (write j v ∷ cs) = if j == k then some v else first_written k cs
first_written k (_ ∷ cs) = first_written k cs

-- Whether a command asks for an answer on a channel.
abbrev pub asks_on : Sender → List StoreCommand → Bool
asks_on s [] = false
asks_on s (write j v ∷ cs) = asks_on s cs
asks_on s (read j t ∷ cs) = t == s || asks_on s cs
asks_on s (notify_read j t ∷ cs) = t == s || asks_on s cs

abbrev pub answer_of : Option Value → List Answer
answer_of none = []
answer_of (some v) = to_notify_read (StoreResult.ok v) ∷ []

abbrev times : Sender → List Sender → ℕ
times s [] = 0
times s (t ∷ ts) = let rest = times s ts in if t == s then suc rest else rest

abbrev repeat : ℕ → Answer → List Answer
repeat zero a = []
repeat (suc n) a = a ∷ repeat n a

answers_to-append :
    (s : Sender) (xs ys : List (Sender × Answer))
    → answers_to s (xs ++ ys) ≡ answers_to s xs ++ answers_to s ys
answers_to-append s [] ys = refl
answers_to-append s ((t, a) ∷ xs) ys = ground (arith, answers_to-append s xs ys)

times-append : (s : Sender) (xs ys : List Sender) → times s (xs ++ ys) ≡ times s xs + times s ys
times-append s [] ys = omega arith
times-append s (x ∷ xs) ys = ground (arith, times-append s xs ys)

module _ (D : Database) (s : Sender) where
  -- How often the channel waits for a key.
  abbrev pub waits_for : Key → Store D → ℕ
  waits_for j st = times s (unwrap_or [] (get j st.obligations))

  answered-other :
      (t : Sender) (a : Answer) (xs : List (Sender × Answer))
      → (t == s) ≡ false
      → answers_to s (xs ++ (t, a) ∷ []) ≡ answers_to s xs
  answered-other t a xs o =
      answers_to-append s xs ((t, a) ∷ []) ∙ rw o (append_nil (answers_to s xs))

  pub answered-own :
      (t : Sender) (a : Answer) (xs : List (Sender × Answer))
      → (t == s) ≡ true
      → answers_to s (xs ++ (t, a) ∷ []) ≡ answers_to s xs ++ a ∷ []
  answered-own t a xs o = answers_to-append s xs ((t, a) ∷ []) ∙ rw o refl

  answers_to-answer_all :
      (senders : List Sender) (v : Value) (st : Store D)
      → answers_to s (answer_all D senders v st).answers
        ≡ answers_to s st.answers ++ repeat (times s senders) (to_notify_read (StoreResult.ok v))
  unfolding answer_all
  answers_to-answer_all [] v st = sym (append_nil (answers_to s st.answers))
  answers_to-answer_all (t ∷ senders) v st =
      let a = to_notify_read (StoreResult.ok v) in
      answers_to-answer_all senders v (record st { answers = st.answers ++ (t, a) ∷ [] })
      ∙ elim (Bool-cases (t == s)) [
        | inl own ↦
            rw (answered-own t a st.answers own, own)
              (append_assoc (answers_to s st.answers) (a ∷ []) (repeat (times s senders) a))
        | inr other ↦ rw (answered-other t a st.answers other, other) refl
      ]

  answers_to-serve :
      (o : Option (List Sender)) (k : Key) (v : Value) (st : Store D)
      → answers_to s (serve D o k v st).answers
        ≡ answers_to s st.answers
          ++ repeat (times s (unwrap_or [] o)) (to_notify_read (StoreResult.ok v))
  unfolding serve
  answers_to-serve none k v st = sym (append_nil (answers_to s st.answers))
  answers_to-serve (some senders) k v st = answers_to-answer_all senders v _

  -- Another channel asks: nothing changes for this one.
  pub record IsUnchanged (st st' : Store D) : Type 0 where
    pub same_answers : answers_to s st'.answers ≡ answers_to s st.answers
    pub same_waits : (j : Key) → waits_for j st' ≡ waits_for j st

  pub oblige-IsUnchanged :
      (r : StoreResult (Option Value)) (k : Key) (t : Sender) (st : Store D)
      → (t == s) ≡ false
      → IsUnchanged st (oblige D r k t st)
  unfolding oblige
  oblige-IsUnchanged StoreResult.err k t st o = record {
    same_answers = answered-other t _ st.answers o;
    same_waits = λ j. refl;
  }
  oblige-IsUnchanged (StoreResult.ok (some v)) k t st o = record {
    same_answers = answered-other t _ st.answers o;
    same_waits = λ j. refl;
  }
  oblige-IsUnchanged (StoreResult.ok none) k t st o = record {
    same_answers = refl;
    same_waits = λ j.
        rw (get-insert k j (unwrap_or [] (get k st.obligations) ++ t ∷ []) st.obligations)
          (elim (Bool-cases (k == j)) [
            | inl same ↦
                rw
                  (
                    same,
                    ← ==→eq k j same,
                    times-append s (unwrap_or [] (get k st.obligations)) (t ∷ []),
                    o,
                  )
                  (omega arith)
            | inr other ↦ rw other refl
          ]);
  }

  waits_for-on_write :
      (k j : Key) (v : Value) (st : Store D)
      → waits_for j (on_write D k v st) ≡ (if k == j then 0 else waits_for j st)
  waits_for-on_write k j v st =
      rw (get-on_write D k j v st)
        (elim (Bool-cases (k == j)) [ inl same ↦ rw same refl | inr other ↦ rw other refl ])

  -- The channel waits for nothing.
  abbrev pub IsGone : Store D → Type 0
  IsGone st = (j : Key) → waits_for j st ≡ 0

  -- The channel waits once, for one key.
  record IsWaiting (k : Key) (st : Store D) : Type 0 where
    here : waits_for k st ≡ 1
    elsewhere : (j : Key) → (k == j) ≡ false → waits_for j st ≡ 0

  pub run-IsGone :
      (cs : List StoreCommand) (st : Store D)
      → IsGone st
      → asks_on s cs ≡ false
      → answers_to s (run D cs st).answers ≡ answers_to s st.answers
  unfolding run step on_write on_notify_read
  run-IsGone [] st g q = refl
  run-IsGone (write k v ∷ cs) st g q =
      run-IsGone cs (on_write D k v st) (λ j. waits_for-on_write k j v st ∙ ground (arith, g j)) q
      ∙ answers_to-serve (get k st.obligations) k v _
      ∙ rw (g k) (append_nil (answers_to s st.answers))
  run-IsGone (read k t ∷ cs) st g q =
      run-IsGone cs _ g (ground (arith, q)) ∙ answered-other t _ st.answers (ground (arith, q))
  run-IsGone (notify_read k t ∷ cs) st g q =
      let u = oblige-IsUnchanged (D.read k st.db) k t st (ground (arith, q)) in
      run-IsGone cs _ (λ j. u.same_waits j ∙ g j) (ground (arith, q)) ∙ u.same_answers

  run-IsWaiting :
      (cs : List StoreCommand) (k : Key) (st : Store D)
      → IsWaiting k st
      → asks_on s cs ≡ false
      → answers_to s (run D cs st).answers
        ≡ answers_to s st.answers ++ answer_of (first_written k cs)
  unfolding run step on_write on_notify_read
  run-IsWaiting [] k st w q = sym (append_nil (answers_to s st.answers))
  run-IsWaiting (write j v ∷ cs) k st w q = elim (Bool-cases (j == k)) [
    | inl same ↦
        run-IsGone cs (on_write D j v st)
          (λ i. waits_for-on_write j i v st ∙ elim (Bool-cases (j == i)) [
            | inl own ↦ rw own refl
            | inr other ↦ rw other (w.elsewhere i (rw (← ==→eq j k same) other))
          ])
          q
        ∙ answers_to-serve (get j st.obligations) j v (record st { db = D.put j v st.db })
        ∙ (let once : waits_for j st ≡ 1 =
              subst (λ i. waits_for i st ≡ 1) (sym (==→eq j k same)) w.here in
            rw (once, same) refl)
    | inr other ↦
        run-IsWaiting cs k (on_write D j v st)
          (record {
            here = waits_for-on_write j k v st ∙ rw other w.here;
            elsewhere = λ i e. waits_for-on_write j i v st ∙ ground (arith, w.elsewhere i e);
          })
          q
        ∙ (let quiet : answers_to s (on_write D j v st).answers ≡ answers_to s st.answers =
              answers_to-serve (get j st.obligations) j v (record st { db = D.put j v st.db })
              ∙ rw (w.elsewhere j (ground (arith, other))) (append_nil (answers_to s st.answers)) in
            ap (λ l. l ++ answer_of (first_written k cs)) quiet)
        ∙ rw other refl
  ]
  run-IsWaiting (read j t ∷ cs) k st w q =
      run-IsWaiting cs k _ (record { here = w.here; elsewhere = w.elsewhere }) (ground (arith, q))
      ∙ ap (λ l. l ++ answer_of (first_written k cs))
          (answered-other t _ st.answers (ground (arith, q)))
  run-IsWaiting (notify_read j t ∷ cs) k st w q =
      let u = oblige-IsUnchanged (D.read j st.db) j t st (ground (arith, q)) in
      run-IsWaiting cs k _
        (record {
          here = u.same_waits k ∙ w.here;
          elsewhere = λ i e. u.same_waits i ∙ w.elsewhere i e;
        })
        (ground (arith, q))
      ∙ ap (λ l. l ++ answer_of (first_written k cs)) u.same_answers

  oblige-IsWaiting :
      (k : Key) (st : Store D) → IsGone st → IsWaiting k (oblige D (StoreResult.ok none) k s st)
  unfolding oblige
  oblige-IsWaiting k st g = record {
    here =
        rw
          (
            get-insert k k (unwrap_or [] (get k st.obligations) ++ s ∷ []) st.obligations,
            ==_refl k,
            times-append s (unwrap_or [] (get k st.obligations)) (s ∷ []),
            g k,
            ==_refl s,
          )
          refl;
    elsewhere = λ j e.
        rw (get-insert k j (unwrap_or [] (get k st.obligations) ++ s ∷ []) st.obligations, e) (g j);
  }

  -- Where the database holds nothing under a key, one who asks to be notified of it, on a channel of
  -- its own, is answered exactly once, with the value that is first written under the key, as soon
  -- as it is written, and not before, whatever other commands arrive.
  pub notify_read-resolves :
      (k : Key) (cs : List StoreCommand) (st : Store D)
      → IsGone st
      → D.read k st.db ≡ StoreResult.ok none
      → asks_on s cs ≡ false
      → answers_to s (run D (notify_read k s ∷ cs) st).answers
        ≡ answers_to s st.answers ++ answer_of (first_written k cs)
  unfolding run step on_notify_read
  notify_read-resolves k cs st g e q =
      ap (λ r. answers_to s (run D cs (oblige D r k s st)).answers) e
      ∙ run-IsWaiting cs k (oblige D (StoreResult.ok none) k s st) (oblige-IsWaiting k st g) q
