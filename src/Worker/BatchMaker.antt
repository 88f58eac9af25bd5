-- ===== src/Worker/BatchMaker.antt =====
-- worker/src/batch_maker.rs: transactions are put together to batches.
use sailfish_test.Prelude.{
  append_assoc, append_nil, ℕ, ◌+◌, ◌<◌, ◌≤◌, ◌≡◌, ◌⊎◌, refl, ◌∙◌, sym, ap, subst, inl, inr, List,
  [], ◌∷◌, ◌++◌, Bool, true, false, arith, leb, if◌then◌else◌, length, is_empty, add64, u64_mod,
  All, All-append,
}
use sailfish_test.Config.{SocketAddr}
use sailfish_test.Crypto.{PublicKey}
use sailfish_test.Worker.{Transaction, Batch}

pub record BatchMaker : Type 0 where
  pub batch_size : ℕ
  pub workers_addresses : List (PublicKey × SocketAddr)
  pub current_batch : Batch
  pub current_batch_size : ℕ
  -- The batches sealed so far, the oldest first: each is broadcast to the workers, and goes to the
  -- quorum waiter with a handler for each of them.
  pub sent : List Batch

unfoldable pub spawn : ℕ → List (PublicKey × SocketAddr) → BatchMaker
spawn batch_size workers_addresses = record {
  batch_size = batch_size;
  workers_addresses = workers_addresses;
  current_batch = [];
  current_batch_size = 0;
  sent = [];
}

pub data Event : Type 0 where
  transaction : Transaction → Event
  timer : Event

unfoldable pub seal : BatchMaker → BatchMaker
seal m = record m {
  current_batch_size = 0;
  current_batch = [];
  sent = m.sent ++ m.current_batch ∷ [];
}

unfoldable pub step : Event → BatchMaker → BatchMaker
unfolding seal
step (transaction tx) m =
    let m' : BatchMaker = record m {
      current_batch_size = add64 m.current_batch_size (length tx);
      current_batch = m.current_batch ++ tx ∷ [];
    } in
    if leb m.batch_size m'.current_batch_size then seal m' else m'
step timer m = if is_empty m.current_batch then m else seal m

unfoldable pub run : List Event → BatchMaker → BatchMaker
unfolding step
run [] m = m
run (e ∷ es) m = run es (step e m)

-- The size of a batch in bytes, all batches one after the other, and the transactions that arrive.
abbrev pub total : Batch → ℕ
total [] = 0
total (tx ∷ txs) = length tx + total txs

abbrev pub flatten : List Batch → List Transaction
flatten [] = []
flatten (b ∷ bs) = b ++ flatten bs

abbrev pub transactions : List Event → List Transaction
transactions [] = []
transactions (transaction tx ∷ es) = tx ∷ transactions es
transactions (timer ∷ es) = transactions es

-- A sealed batch: without its last transaction it is below the batch size.
abbrev pub IsSealed : ℕ → Batch → Type 0
IsSealed size b =
    (front : Batch) × (last : Transaction) × (b ≡ front ++ last ∷ [])
    × ((front ≡ []) ⊎ (total front < size))

pub record IsBatched (txs : List Transaction) (m : BatchMaker) : Type 0 where
  pub kept : flatten m.sent ++ m.current_batch ≡ txs
  pub counted : m.current_batch_size ≡ total m.current_batch
  pub open_below : (m.current_batch ≡ []) ⊎ (total m.current_batch < m.batch_size)
  pub sealed : All (IsSealed m.batch_size) m.sent

flatten-snoc : (bs : List Batch) (b : Batch) → flatten (bs ++ b ∷ []) ≡ flatten bs ++ b
flatten-snoc [] b = append_nil b
flatten-snoc (c ∷ bs) b = ap (λ l. c ++ l) (flatten-snoc bs b) ∙ sym (append_assoc c (flatten bs) b)

total-snoc : (txs : Batch) (tx : Transaction) → total (txs ++ tx ∷ []) ≡ total txs + length tx
total-snoc [] tx = omega arith
total-snoc (x ∷ txs) tx = omega (arith, total-snoc txs tx)

seal-IsBatched :
    (txs : List Transaction) (m : BatchMaker)
    → flatten m.sent ++ m.current_batch ≡ txs
    → IsSealed m.batch_size m.current_batch
    → All (IsSealed m.batch_size) m.sent
    → IsBatched txs (seal m)
unfolding seal
seal-IsBatched txs m kept last sealed = record {
  kept = append_nil _ ∙ flatten-snoc m.sent m.current_batch ∙ kept;
  counted = refl;
  open_below = inl refl;
  sealed = All-append (IsSealed m.batch_size) m.sent (m.current_batch ∷ []) sealed (last, tt);
}

-- A batch that is not empty has a last transaction, and what is before it is smaller.
split_last :
    (b : Batch)
    → is_empty b ≡ false
    → (front : Batch) × (last : Transaction) × (b ≡ front ++ last ∷ []) × (total front ≤ total b)
split_last [] h = cc
split_last (x ∷ []) h = ([], x, refl, omega arith)
split_last (x ∷ y ∷ b) h =
    let (front, last, e, le) = split_last (y ∷ b) refl in
    (x ∷ front, last, ap (λ l. x ∷ l) e, omega (arith, le))

if-IsBatched :
    (txs : List Transaction) (t : Bool) (m n : BatchMaker)
    → (t ≡ true → IsBatched txs m)
    → (t ≡ false → IsBatched txs n)
    → IsBatched txs (if t then m else n)
if-IsBatched txs true m n h k = h refl
if-IsBatched txs false m n h k = k refl

total-open :
    (size : ℕ) (b : Batch)
    → (b ≡ []) ⊎ (total b < size)
    → (tx : Transaction) → length tx + size < u64_mod
    → total b + length tx < u64_mod
total-open size b (inl e) tx fits = rw e (omega (arith, fits))
total-open size b (inr h) tx fits = omega (arith, h, fits)

step_transaction :
    (tx : Transaction) (txs : List Transaction) (m : BatchMaker)
    → length tx + m.batch_size < u64_mod
    → IsBatched txs m
    → IsBatched (txs ++ tx ∷ []) (step (transaction tx) m)
unfolding step
step_transaction tx txs m fits q =
    let room = total-open m.batch_size m.current_batch q.open_below tx fits in
    let counted : add64 m.current_batch_size (length tx) ≡ total (m.current_batch ++ tx ∷ []) =
      rw (q.counted, total-snoc m.current_batch tx) (omega (arith, room)) in
    let kept : flatten m.sent ++ (m.current_batch ++ tx ∷ []) ≡ txs ++ tx ∷ [] =
      sym (append_assoc (flatten m.sent) m.current_batch (tx ∷ []))
      ∙ ap (λ l. l ++ tx ∷ []) q.kept in
    let m' : BatchMaker = record m {
      current_batch_size = add64 m.current_batch_size (length tx);
      current_batch = m.current_batch ++ tx ∷ [];
    } in
    if-IsBatched (txs ++ tx ∷ []) (leb m.batch_size m'.current_batch_size) (seal m') m'
      (λ full.
        seal-IsBatched (txs ++ tx ∷ []) m' kept (m.current_batch, tx, refl, q.open_below) q.sealed)
      (λ more. record {
        kept = kept;
        counted = counted;
        open_below = inr (ground (arith, counted, more));
        sealed = q.sealed;
      })

step_timer :
    (txs : List Transaction) (m : BatchMaker) → IsBatched txs m → IsBatched txs (step timer m)
unfolding step
step_timer txs m q =
    if-IsBatched txs _ _ _ (λ empty. q)
      (λ some_left.
        let (front, last, e, le) = split_last m.current_batch some_left in
        seal-IsBatched txs m q.kept
          (
            front,
            last,
            e,
            elim q.open_below [
              | inl none_left ↦ absurd (ground (arith, none_left, some_left))
              | inr below ↦ inr (omega (arith, le, below))
            ],
          )
          q.sealed)

step-batch_size : (e : Event) (m : BatchMaker) → (step e m).batch_size ≡ m.batch_size
unfolding step seal
step-batch_size e m = ground arith

run-IsBatched' :
    (es : List Event) (txs : List Transaction) (m : BatchMaker)
    → All (λ tx. length tx + m.batch_size < u64_mod) (transactions es)
    → IsBatched txs m
    → IsBatched (txs ++ transactions es) (run es m)
unfolding run
run-IsBatched' [] txs m fits q = subst (λ l. IsBatched l m) (sym (append_nil txs)) q
run-IsBatched' (transaction tx ∷ es) txs m fits q =
    subst (λ l. IsBatched l (run es (step (transaction tx) m)))
      (append_assoc txs (tx ∷ []) (transactions es))
      (run-IsBatched' es (txs ++ tx ∷ []) (step (transaction tx) m)
        (subst (λ n. All (λ tx. length tx + n < u64_mod) (transactions es))
          (sym (step-batch_size (transaction tx) m)) fits.1)
        (step_transaction tx txs m fits.0 q))
run-IsBatched' (timer ∷ es) txs m fits q =
    run-IsBatched' es txs (step timer m)
      (subst (λ n. All (λ tx. length tx + n < u64_mod) (transactions es))
        (sym (step-batch_size timer m)) fits)
      (step_timer txs m q)

-- Whatever transactions arrive and however often the timer triggers: the sealed batches, one after the
-- other, and then the current batch are exactly the transactions in their order. No sealed batch is
-- empty, and one is sealed by size with the first transaction that reaches it: without its last
-- transaction it has no transaction or is below the batch size, as the current batch is.
pub run-IsBatched :
    (es : List Event) (batch_size : ℕ) (workers_addresses : List (PublicKey × SocketAddr))
    → All (λ tx. length tx + batch_size < u64_mod) (transactions es)
    → IsBatched (transactions es) (run es (spawn batch_size workers_addresses))
unfolding spawn
run-IsBatched es batch_size workers_addresses fits =
    run-IsBatched' es [] (spawn batch_size workers_addresses) fits
      (record { kept = refl; counted = refl; open_below = inl refl; sealed = tt })
