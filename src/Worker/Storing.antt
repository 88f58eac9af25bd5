-- ===== src/Worker/Storing.antt =====
-- The batches that worker/src/processor.rs stores, and worker/src/helper.rs and
-- worker/src/synchronizer.rs read.
use sailfish_test.Prelude.{
  ◌≡◌, refl, ◌∙◌, ap, inl, inr, List, [], ◌∷◌, map, Bool, true, false, some, arith, ◌==◌, get,
  get-insert, contains, All, Bool-cases, Option-cases, ==→eq, ==_refl,
}
use mathlib.Core.List.{Memᴰ}
use sailfish_test.Crypto.{Digest, PublicKey, Primitives}
use sailfish_test.Config.{Committee, SocketAddr, WorkerId, WorkerAddresses, ConfigResult, worker}
use sailfish_test.Config
use sailfish_test.Worker.{Bytes, Store, read, reply, help, process}

-- The processor handles serialized batches one after the other.
abbrev pub process_all : Primitives → WorkerId → Bool → List Bytes → Store → Store
process_all p id own [] s = s
process_all p id own (x ∷ xs) s = process_all p id own xs (process p id own x s).0

reply_complete :
    (s : Store) (d : Digest) (bytes : Bytes) (ds : List Digest)
    → s.broken ≡ false
    → get d s.batches ≡ some bytes
    → contains ds d ≡ true
    → Memᴰ bytes (reply s ds)
unfolding reply read
reply_complete s d bytes [] well there c = cc
reply_complete s d bytes (j ∷ ds) well there c = elim (Bool-cases (j == d)) [
  | inl same ↦
      let there' : get j s.batches ≡ some bytes = rw (==→eq j d same) there in
      rw (reply, well, there') (Memᴰ.head refl)
  | inr other ↦
      let rest = reply_complete s d bytes ds well there (ground (arith, c, other)) in
      elim (Option-cases (get j s.batches)) [
        | inl absent ↦ rw (reply, well, absent) rest
        | inr (y, found) ↦ rw (reply, well, found) (Memᴰ.tail rest)
      ]
]

process-broken :
    (p : Primitives) (id : WorkerId) (own : Bool) (xs : List Bytes) (s : Store)
    → (process_all p id own xs s).broken ≡ s.broken
unfolding process
process-broken p id own [] s = refl
process-broken p id own (x ∷ xs) s = process-broken p id own xs (process p id own x s).0

-- What is stored stays, if no other batch has the same digest.
get-process :
    (p : Primitives) (id : WorkerId) (own : Bool) (bytes : Bytes) (xs : List Bytes) (s : Store)
    → All (λ x. p.sha512 x ≡ p.sha512 bytes → x ≡ bytes) xs
    → get (p.sha512 bytes) s.batches ≡ some bytes
    → get (p.sha512 bytes) (process_all p id own xs s).batches ≡ some bytes
unfolding process
get-process p id own bytes [] s u h = h
get-process p id own bytes (x ∷ xs) s u h =
    get-process p id own bytes xs (process p id own x s).0 u.1 (
      get-insert (p.sha512 x) (p.sha512 bytes) x s.batches
      ∙ elim (Bool-cases (p.sha512 x == p.sha512 bytes)) [
        | inl same ↦ rw (same, u.0 (==→eq _ _ same)) refl
        | inr other ↦ rw other h
      ])

Memᴰ-map : {A B : Type 0} (f : A → B) (x : A) (xs : List A) → Memᴰ x xs → Memᴰ (f x) (map f xs)
Memᴰ-map f x [] m = elim m [ ]
Memᴰ-map f x (y ∷ xs) (Memᴰ.head e) = Memᴰ.head (ap f e)
Memᴰ-map f x (y ∷ xs) (Memᴰ.tail m) = Memᴰ.tail (Memᴰ-map f x xs m)

-- A batch that a worker has processed is sent to every worker of the committee that asks for its
-- digest, also after others are processed, as long as the database does not fail and no other of them
-- has the same digest.
pub batch_served :
    (p : Primitives) (id : WorkerId) (own : Bool) (bytes : Bytes) (later : List Bytes) (s : Store)
    (c : Committee) (ds : List Digest) (requestor : PublicKey) (a : WorkerAddresses)
    → s.broken ≡ false
    → All (λ x. p.sha512 x ≡ p.sha512 bytes → x ≡ bytes) later
    → contains ds (p.sha512 bytes) ≡ true
    → worker c requestor id ≡ Config.ConfigResult.ok a
    → Memᴰ
        (a.worker_to_worker, bytes)
        (help id c (process_all p id own later (process p id own bytes s).0) ds requestor)
unfolding help process
batch_served p id own bytes later s c ds requestor a well unique asked known =
    let stored = process_all p id own later (process p id own bytes s).0 in
    let there = get-process p id own bytes later (process p id own bytes s).0 unique (
      get-insert (p.sha512 bytes) (p.sha512 bytes) bytes s.batches
      ∙ rw (==_refl (p.sha512 bytes)) refl) in
    let m =
      reply_complete stored (p.sha512 bytes) bytes ds
        (process-broken p id own later (process p id own bytes s).0 ∙ well) there asked in
    rw (help, known) (Memᴰ-map (λ bytes. (a.worker_to_worker, bytes)) bytes (reply stored ds) m)
