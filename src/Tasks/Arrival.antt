-- ===== src/Tasks/Arrival.antt =====
-- The way of the digests of others' batches: a worker's receiver and processor, the primary's receiver,
-- its payload receiver, and the synchronizer that looks for the payload of a header.
use sailfish_test.Prelude.{
  ◌≡◌, refl, ◌∙◌, sym, ap, List, [], ◌∷◌, ◌++◌, map, Bool, true, false, not, ◌&&◌, ◌||◌, Option,
  none, some, arith, any, retain, ◌==◌, Bool-cases, append_assoc, append_nil, retain-append, inl,
  inr,
}
use sailfish_test.Crypto.{Digest, Primitives}
use sailfish_test.Config.{WorkerId}
use sailfish_test.Messages.{ok}
use sailfish_test.Core.{Store}
use sailfish_test.Core.Sync.{missing_batches, has_batch}
use sailfish_test.Receiver.{Bytes, spawn_runner, spawn_runner-handled}
use sailfish_test.Worker
use sailfish_test.Worker.{
  batch, batch_request, WorkerPrimaryMessage, our_batch, others_batch, process,
}
use sailfish_test.Worker.Receivers
use sailfish_test.Worker.Receivers.{Wire}
use sailfish_test.Tasks.{receive_payload}
use sailfish_test.Tasks.Receivers.{Channels, no_messages, dispatch_worker}

-- The payload receiver on all that is in its channel.
abbrev pub receive_all : List (Digest × WorkerId) → Store → Store
receive_all [] s = s
receive_all ((d, i) ∷ ds) s = receive_all ds (receive_payload d i s)

-- The processor of others' batches on all that is in its channel: its reports.
abbrev pub process_all :
    Primitives → WorkerId → List Bytes → Worker.Store → List WorkerPrimaryMessage
process_all p id [] s = []
process_all p id (x ∷ xs) s =
    let (s', report) = process p id false x s in report ∷ process_all p id xs s'

abbrev pub is_batch : Wire → Bytes → Bool
is_batch w x = elim (w.deserialize_message x) [
  | none ↦ false
  | some message ↦ elim message [ batch b ↦ true | batch_request ds requestor ↦ false ]
]

module _ (p : Primitives) (w : Wire) (id : WorkerId) where
  -- What the worker reports for the messages of another worker, serialized.
  abbrev pub reports_of : List Bytes → Worker.Store → List Bytes
  reports_of messages ws = map w.serialize_report (
      process_all p id
        (spawn_runner (Worker.Receivers.dispatch_worker w) (map some messages)
          Worker.Receivers.no_messages).tx_processor
        ws)

  -- The messages of another worker, up to the store of the primary.
  abbrev pub arrive : List Bytes → Worker.Store → Store → Store
  arrive messages ws s =
      receive_all
        (spawn_runner (dispatch_worker w) (map some (reports_of messages ws))
          no_messages).tx_others_digests
        s

  dispatch-batch :
      (x : Bytes) (ch : Worker.Receivers.Channels)
      → (Worker.Receivers.dispatch_worker w x ch).1.tx_processor
        ≡ ch.tx_processor ++ retain (is_batch w) (x ∷ [])
  unfolding Worker.Receivers.dispatch_worker
  dispatch-batch x ch = route (w.deserialize_message x) refl
    where
      route :
          (m : Option Worker.WorkerMessage)
          → w.deserialize_message x ≡ m
          → (Worker.Receivers.dispatch_worker w x ch).1.tx_processor
            ≡ ch.tx_processor ++ retain (is_batch w) (x ∷ [])
      route none e =
          rw (Worker.Receivers.dispatch_worker, is_batch, e) (sym (append_nil ch.tx_processor))
      route (some (batch b)) e = rw (Worker.Receivers.dispatch_worker, is_batch, e) refl
      route (some (batch_request ds requestor)) e =
          rw (Worker.Receivers.dispatch_worker, is_batch, e) (sym (append_nil ch.tx_processor))

  runner-batches :
      (messages : List Bytes) (ch : Worker.Receivers.Channels)
      → (spawn_runner (Worker.Receivers.dispatch_worker w) (map some messages) ch).tx_processor
        ≡ ch.tx_processor ++ retain (is_batch w) messages
  unfolding spawn_runner Worker.Receivers.dispatch_worker
  runner-batches [] ch = sym (append_nil ch.tx_processor)
  runner-batches (x ∷ xs) ch =
      runner-batches xs (Worker.Receivers.dispatch_worker w x ch).1
      ∙ ap (λ l. l ++ retain (is_batch w) xs) (dispatch-batch x ch)
      ∙ append_assoc ch.tx_processor (retain (is_batch w) (x ∷ [])) (retain (is_batch w) xs)
      ∙ ap (λ l. ch.tx_processor ++ l) (sym (retain-append (is_batch w) (x ∷ []) xs))

  process_all-reports :
      (xs : List Bytes) (s : Worker.Store)
      → process_all p id xs s ≡ map (λ x. others_batch (p.sha512 x) id) xs
  unfolding process
  process_all-reports [] s = refl
  process_all-reports (x ∷ xs) s =
      ap (λ l. others_batch (p.sha512 x) id ∷ l) (process_all-reports xs _)

  -- The primary reads what the worker has written.
  abbrev pub IsFaithful : Type 0
  IsFaithful = (m : WorkerPrimaryMessage) → w.deserialize_report (w.serialize_report m) ≡ some m

  runner-digests :
      IsFaithful
      → (xs : List Bytes) (ch : Channels)
      → (spawn_runner
          (dispatch_worker w)
          (map some (map w.serialize_report (map (λ x. others_batch (p.sha512 x) id) xs)))
          ch).tx_others_digests
        ≡ ch.tx_others_digests ++ map (λ x. (p.sha512 x, id)) xs
  unfolding spawn_runner dispatch_worker
  runner-digests f [] ch = sym (append_nil ch.tx_others_digests)
  runner-digests f (x ∷ xs) ch =
      let ch' : Channels = record ch {
        tx_others_digests = ch.tx_others_digests ++ (p.sha512 x, id) ∷ [];
      } in
      ap (λ r. r.tx_others_digests)
        (spawn_runner-handled (dispatch_worker w)
          (w.serialize_report (others_batch (p.sha512 x) id))
          (map some (map w.serialize_report (map (λ x. others_batch (p.sha512 x) id) xs))) ch ch'
          (rw (dispatch_worker, f (others_batch (p.sha512 x) id)) refl))
      ∙ runner-digests f xs ch'
      ∙ append_assoc ch.tx_others_digests ((p.sha512 x, id) ∷ []) (map (λ x. (p.sha512 x, id)) xs)

  arrive-digests :
      IsFaithful
      → (messages : List Bytes) (ws : Worker.Store)
      → (spawn_runner
          (dispatch_worker w)
          (map some (reports_of messages ws))
          no_messages).tx_others_digests
        ≡ map (λ x. (p.sha512 x, id)) (retain (is_batch w) messages)
  arrive-digests f messages ws =
      let own = retain (is_batch w) messages in
      let told =
        ap (λ xs. process_all p id xs ws) (runner-batches messages Worker.Receivers.no_messages)
        ∙ process_all-reports own ws in
      ap
        (λ l.
          (spawn_runner (dispatch_worker w) (map some (map w.serialize_report l))
            no_messages).tx_others_digests)
        told
      ∙ runner-digests f own no_messages

  -- The batch of the payload entry is among the messages.
  abbrev pub has_arrived : List Bytes → Digest × WorkerId → Bool
  has_arrived messages e = any (λ x. is_batch w x && p.sha512 x == e.0 && id == e.1) messages

  receive_all-has_batch :
      (ds : List (Digest × WorkerId)) (s : Store) (e : Digest × WorkerId)
      → has_batch (receive_all ds s) e
        ≡ (any (λ (b : Digest × WorkerId). b.0 == e.0 && b.1 == e.1) ds || has_batch s e)
  unfolding receive_payload
  receive_all-has_batch [] s e = refl
  receive_all-has_batch ((d, i) ∷ ds) s e =
      ground (arith, receive_all-has_batch ds (receive_payload d i s) e)

  any-has_arrived :
      (messages : List Bytes) (e : Digest × WorkerId)
      → any
          (λ (b : Digest × WorkerId). b.0 == e.0 && b.1 == e.1)
          (map (λ x. (p.sha512 x, id)) (retain (is_batch w) messages))
        ≡ has_arrived messages e
  any-has_arrived [] e = refl
  any-has_arrived (x ∷ messages) e = elim (Bool-cases (is_batch w x)) [
    | inl wanted ↦ rw (wanted, any-has_arrived messages e) refl
    | inr other ↦ rw (other, any-has_arrived messages e) refl
  ]

  receive_all-broken :
      (ds : List (Digest × WorkerId)) (s : Store) → (receive_all ds s).broken ≡ s.broken
  unfolding receive_payload
  receive_all-broken [] s = refl
  receive_all-broken ((d, i) ∷ ds) s = receive_all-broken ds (receive_payload d i s)

retain_same :
    {A : Type 0} (t u : A → Bool)
    → ((x : A) → t x ≡ u x)
    → (xs : List A) → retain t xs ≡ retain u xs
retain_same t u h [] = refl
retain_same t u h (x ∷ xs) = rw (h x, retain_same t u h xs) refl

missing_batches_lem :
    (s : Store) (payload : List (Digest × WorkerId))
    → s.broken ≡ false
    → missing_batches s payload ≡ ok (retain (λ e. not (has_batch s e)) payload)
unfolding missing_batches
missing_batches_lem s [] well = refl
missing_batches_lem s (e ∷ es) well = elim (Bool-cases (has_batch s e)) [
  | inl there ↦ rw (missing_batches, well, there, missing_batches_lem s es well) refl
  | inr missing ↦ rw (missing_batches, well, missing, missing_batches_lem s es well) refl
]

-- Where the primary reads the reports of its worker as they were written, and its database does not
-- fail: when messages of other workers have gone through the worker to the store of the primary, the
-- synchronizer misses exactly those entries of the payload of a header that the store did not have and
-- of which no batch with that digest is among the messages, under the id of the worker.
pub arrive-missing_batches :
    (p : Primitives) (w : Wire) (id : WorkerId)
    → IsFaithful p w id
    → (messages : List Bytes) (ws : Worker.Store) (s : Store) (payload : List (Digest × WorkerId))
    → s.broken ≡ false
    → missing_batches (arrive p w id messages ws s) payload
      ≡ ok (retain (λ e. not (has_arrived p w id messages e || has_batch s e)) payload)
arrive-missing_batches p w id f messages ws s payload well =
    let digests = arrive-digests p w id f messages ws in
    let digests_of = map (λ x. (p.sha512 x, id)) (retain (is_batch w) messages) in
    let stored = receive_all digests_of s in
    ap (λ ds. missing_batches (receive_all ds s) payload) digests
    ∙ missing_batches_lem stored payload (receive_all-broken p w id digests_of s ∙ well)
    ∙ ap ok (
        retain_same _ _
          (λ e. ap not (
            receive_all-has_batch p w id digests_of s e
            ∙ ap (λ t. t || has_batch s e) (any-has_arrived p w id messages e)))
          payload)
