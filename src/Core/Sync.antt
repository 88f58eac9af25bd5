-- ===== src/Core/Sync.antt =====
-- primary/src/synchronizer.rs: what is there of the parents and of the payload of a header. Its reads
-- of the store fail when the database does.
use sailfish_test.Prelude.{
  List, [], ◌∷◌, map, Bool, true, false, ◌&&◌, Option, none, some, ◌==◌, if◌then◌else◌, any, find,
  get, is_empty,
}
use sailfish_test.Crypto.{Digest, Primitives}
use sailfish_test.Config.{Committee, WorkerId}
use sailfish_test.Messages.{
  DagResult, ok, err, store_error, serialization_error, Header, Certificate, genesis,
  certificate_digest,
}
use sailfish_test.Messages
use sailfish_test.Core.{
  Codec, Bytes, Store, Handler, ◌>>=◌, ◌>>◌, pure, emit, try_, sync_batches, sync_parents,
  sync_certificate,
}

abbrev pub read : Store → Digest → DagResult (Option Bytes)
read s d = if s.broken then err store_error else ok (get d s.entries)

abbrev pub has_batch : Store → Digest × WorkerId → Bool
has_batch s e = any (λ b. b.0 == e.0 && b.1 == e.1) s.batches

-- The payload entries that the store lacks.
unfoldable pub missing_batches :
    Store → List (Digest × WorkerId) → DagResult (List (Digest × WorkerId))
missing_batches s [] = ok []
missing_batches s (e ∷ es) =
    let rest = missing_batches s es in
    if s.broken
    then err store_error
    else if has_batch s e
    then rest
    else Messages.◌>>=◌ rest (λ l. ok (e ∷ l))

unfoldable pub missing_payload : Header → Handler Bool
missing_payload h k =
    (if h.author == k.name then pure false else do
      missing ← try_ (missing_batches k.store h.payload)
      if is_empty missing then pure false else (emit (sync_batches missing h) >> pure true))
      k

module _ (p : Primitives) (b : Codec) where
  -- The genesis certificates with their digests.
  abbrev pub genesis_entries : Committee → List (Digest × Certificate)
  genesis_entries c = map (λ x. (certificate_digest p x, x)) (genesis c)

  decode : Option Bytes → DagResult (Option Certificate)
  decode none = ok none
  decode (some bytes) = elim (b.deserialize_certificate bytes) [
    | none ↦ err serialization_error
    | some x ↦ ok (some x)
  ]

  -- One parent: from the genesis, or from the store.
  unfoldable pub lookup_parent : Committee → Store → Digest → DagResult (Option Certificate)
  unfolding decode
  lookup_parent c s d = elim (find (λ e. e.0 == d) (genesis_entries c)) [
    | some e ↦ ok (some e.1)
    | none ↦ Messages.◌>>=◌ (read s d) decode
  ]

  abbrev sort_parent :
      Digest → Option Certificate → List Digest × List Certificate → List Digest × List Certificate
  sort_parent d none (missing, parents) = (d ∷ missing, parents)
  sort_parent d (some x) (missing, parents) = (missing, x ∷ parents)

  -- The digests of the parents that are missing, and the parents that are there.
  unfoldable pub lookup_parents :
      Committee → Store → List Digest → DagResult (List Digest × List Certificate)
  lookup_parents c s [] = ok ([], [])
  lookup_parents c s (d ∷ ds) =
      let rest = lookup_parents c s ds in
      Messages.◌>>=◌ (lookup_parent c s d) (λ o. Messages.◌>>=◌ rest (λ r. ok (sort_parent d o r)))

  unfoldable pub get_parents : Header → Handler (List Certificate)
  get_parents h k =
      (do
        found ← try_ (lookup_parents k.committee k.store h.parents)
        if is_empty found.0 then pure found.1 else (emit (sync_parents found.0 h) >> pure []))
        k

  -- Whether every parent is a genesis certificate or in the store; the reads stop at the first that
  -- is not.
  unfoldable pub has_parents : Committee → Store → List Digest → DagResult Bool
  has_parents c s [] = ok true
  has_parents c s (d ∷ ds) =
      let rest = has_parents c s ds in
      if any (λ e. e.0 == d) (genesis_entries c)
      then rest
      else Messages.◌>>=◌ (read s d) (elim [ none ↦ ok false | some _ ↦ rest ])

  unfoldable pub deliver_certificate : Certificate → Handler Bool
  deliver_certificate x k =
      (do
        complete ← try_ (has_parents k.committee k.store x.header.parents)
        if complete then pure true else (emit (sync_certificate x) >> pure false))
        k
