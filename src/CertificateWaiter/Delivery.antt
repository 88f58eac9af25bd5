-- ===== src/CertificateWaiter/Delivery.antt =====
-- When primary/src/certificate_waiter.rs delivers a certificate.
use sailfish_test.Prelude.{
  ℕ, ◌+◌, ◌<◌, ◌≤◌, ◌≡◌, ◌⊎◌, refl, ◌∙◌, sym, ap, subst, inl, inr, List, [], ◌∷◌, ◌++◌, false,
  Option, none, some, arith, All, get_elem?, length, ==_refl,
}
use sailfish_test.Crypto.{Digest}
use sailfish_test.Messages.{Certificate}
use sailfish_test.Storage.{
  Key, Value, Database, Sender, to_notify_read, StoreResult, StoreCommand, notify_read, Store, step,
  run, on_notify_read, oblige,
}
use sailfish_test.Storage.Resolves.{
  answers_to, first_written, asks_on, answer_of, IsGone, notify_read-resolves, run-IsGone,
  oblige-IsUnchanged, answered-own,
}
use sailfish_test.CertificateWaiter.{
  CertificateWaiter, Waiter, receive, other, others, next, take_waiter, complete, try_join_all,
  channels, ask,
}

-- No command asks on a channel from the number on.
abbrev pub IsBelow : Sender → List StoreCommand → Type 0
IsBelow n cs = (s : Sender) → n ≤ s → asks_on s cs ≡ false

first_written-ask :
    (k : Key) (ds : List Digest) (n : Sender) (cs : List StoreCommand)
    → first_written k (ask ds n ++ cs) ≡ first_written k cs
unfolding ask
first_written-ask k [] n cs = refl
first_written-ask k (d ∷ ds) n cs = first_written-ask k ds (n + 1) cs

asks_on-ask :
    (s : Sender) (ds : List Digest) (n : Sender) (cs : List StoreCommand)
    → s < n
    → asks_on s cs ≡ false
    → asks_on s (ask ds n ++ cs) ≡ false
unfolding ask
asks_on-ask s [] n cs b h = h
asks_on-ask s (d ∷ ds) n cs b h = ground (arith, asks_on-ask s ds (n + 1) cs (omega arith) h)

get_elem?-append {ℓ} :
    {A : Type ℓ} (xs : List A) (x : A) → get_elem? (xs ++ x ∷ []) (length xs) ≡ some x
get_elem?-append [] x = refl
get_elem?-append (y ∷ xs) x = get_elem?-append xs x

module _ (D : Database) where
  -- The channels from the number on are new.
  pub record IsFresh (n : Sender) (st : Store D) : Type 0 where
    pub silent : (s : Sender) → n ≤ s → answers_to s st.answers ≡ []
    pub idle : (s : Sender) → n ≤ s → IsGone D s st

  -- A parent is in the database, or the commands write it.
  abbrev pub IsGiven : List StoreCommand → D.Db → Digest → Type 0
  IsGiven cs db d =
      ((v : Value) × (D.read d db ≡ StoreResult.ok (some v)))
      ⊎ ((D.read d db ≡ StoreResult.ok none) × (v : Value) × (first_written d cs ≡ some v))

  oblige-db :
      (r : StoreResult (Option Value)) (k : Key) (s : Sender) (st : Store D)
      → (oblige D r k s st).db ≡ st.db
  unfolding oblige
  oblige-db StoreResult.err k s st = refl
  oblige-db (StoreResult.ok none) k s st = refl
  oblige-db (StoreResult.ok (some v)) k s st = refl

  oblige-IsFresh :
      (r : StoreResult (Option Value)) (k : Key) (n : Sender) (st : Store D)
      → IsFresh n st
      → IsFresh (n + 1) (oblige D r k n st)
  oblige-IsFresh r k n st f = record {
    silent = λ s b.
        (oblige-IsUnchanged D s r k n st (ground (arith, b))).same_answers
        ∙ f.silent s (omega (arith, b));
    idle = λ s b j.
        (oblige-IsUnchanged D s r k n st (ground (arith, b))).same_waits j
        ∙ f.idle s (omega (arith, b)) j;
  }

  answered_at_once :
      (d : Digest) (n : Sender) (v : Value) (cs : List StoreCommand) (st : Store D)
      → IsFresh n st
      → asks_on n cs ≡ false
      → answers_to n (run D cs (oblige D (StoreResult.ok (some v)) d n st)).answers
        ≡ answer_of (some v)
  unfolding oblige
  answered_at_once d n v cs st f q =
      run-IsGone D n cs _ (f.idle n (omega arith)) q
      ∙ answered-own D n n (to_notify_read (StoreResult.ok v)) st.answers (==_refl n)
      ∙ rw (f.silent n (omega arith)) refl

  IsGiven-later :
      (d : Digest) (ds : List Digest) (n : Sender) (cs : List StoreCommand) (db : D.Db)
      → IsGiven cs db d
      → IsGiven (ask ds n ++ cs) db d
  IsGiven-later d ds n cs db (inl h) = inl h
  IsGiven-later d ds n cs db (inr (e, v, w)) = inr (e, v, first_written-ask d ds n cs ∙ w)

  answered_once :
      (d : Digest) (n : Sender) (cs : List StoreCommand) (st : Store D)
      → IsFresh n st
      → asks_on n cs ≡ false
      → IsGiven cs st.db d
      → (v : Value) × (answers_to n (run D (notify_read d n ∷ cs) st).answers ≡ answer_of (some v))
  unfolding run step on_notify_read
  answered_once d n cs st f q (inr (e, v, w)) = (
    v,
    notify_read-resolves D n d cs st (f.idle n (omega arith)) e q
        ∙ rw (f.silent n (omega arith), w) refl,
  )
  answered_once d n cs st f q (inl (v, e)) = (
    v,
    ap (λ r. answers_to n (run D cs (oblige D r d n st)).answers) e
        ∙ answered_at_once d n v cs st f q,
  )

  -- All channels of the parents are answered with values.
  pub join-given :
      (ds : List Digest) (n : Sender) (cs : List StoreCommand) (st : Store D)
      → IsFresh n st
      → IsBelow n cs
      → All (IsGiven cs st.db) ds
      → try_join_all (channels ds n) (run D (ask ds n ++ cs) st).answers ≡ complete
  unfolding try_join_all channels ask run step on_notify_read
  join-given [] n cs st f q g = refl
  join-given (d ∷ ds) n cs st f q g =
      let rest = ask ds (n + 1) ++ cs in
      let (v, own) =
        answered_once d n rest st f (asks_on-ask n ds (n + 1) cs (omega arith) (q n (omega arith)))
          (IsGiven-later d ds (n + 1) cs st.db g.0) in
      let later =
        join-given ds (n + 1) cs (step D (notify_read d n) st)
          (oblige-IsFresh (D.read d st.db) d n st f) (λ s b. q s (omega (arith, b)))
          (subst (λ db. All (IsGiven cs db) ds) (sym (oblige-db (D.read d st.db) d n st)) g.1) in
      rw (own, later) refl

  run-append :
      (xs ys : List StoreCommand) (st : Store D) → run D (xs ++ ys) st ≡ run D ys (run D xs st)
  unfolding run
  run-append [] ys st = refl
  run-append (x ∷ xs) ys st = run-append xs ys (step D x st)

  others-frame :
      (cs : List StoreCommand) (w : CertificateWaiter D)
      → ((others D cs w).store ≡ run D cs w.store)
        × ((others D cs w).waiting ≡ w.waiting)
        × ((others D cs w).sent ≡ w.sent)
  unfolding others other run
  others-frame [] w = (refl, refl, refl)
  others-frame (c ∷ cs) w = others-frame cs (other D c w)

  next-complete :
      (i : ℕ) (x : Waiter) (w : CertificateWaiter D)
      → get_elem? w.waiting i ≡ some x
      → try_join_all x.missing w.store.answers ≡ complete
      → (w' : CertificateWaiter D) × (next D i w ≡ some w') × (w'.sent ≡ w.sent ++ x.deliver ∷ [])
  unfolding next
  next-complete i x w e j = (
    record w { waiting = take_waiter D i w.waiting; sent = w.sent ++ x.deliver ∷ [] },
    ground (arith, e, j),
    refl,
  )

  -- A certificate that waits for its parents goes to the core when the pool is asked for it, as soon as
  -- every parent that was not in the database has been written, whatever else is asked of the store.
  pub certificate_delivered :
      (x : Certificate) (cs : List StoreCommand) (w : CertificateWaiter D)
      → IsFresh w.next_channel w.store
      → IsBelow w.next_channel cs
      → All (IsGiven cs w.store.db) x.header.parents
      → (w' : CertificateWaiter D) × (next D (length w.waiting) (others D cs (receive D x w))
          ≡ some w')
        × (w'.sent ≡ w.sent ++ x ∷ [])
  unfolding receive
  certificate_delivered x cs w f q g =
      let (store, pool, sent) = others-frame cs (receive D x w) in
      let joined = join-given x.header.parents w.next_channel cs w.store f q g in
      let (w', e, s) =
        next-complete (length w.waiting)
          (record { missing = channels x.header.parents w.next_channel; deliver = x })
          (others D cs (receive D x w)) (rw pool (get_elem?-append w.waiting _))
          (rw (store, ← run-append (ask x.header.parents w.next_channel) cs w.store) joined) in
      (w', e, s ∙ ap (λ l. l ++ x ∷ []) sent)
