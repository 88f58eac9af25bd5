-- ===== src/Worker/Synchronizer/Missing.antt =====
-- The batches that worker/src/synchronizer.rs asks others for.
use sailfish_test.Prelude.{
  ℕ, ◌≡◌, refl, ◌∙◌, sym, ap, subst, List, [], ◌∷◌, ◌++◌, not, ◌&&◌, ◌||◌, contains, contains_key,
  Distinct,
}
use sailfish_test.Crypto.{Digest, PublicKey}
use sailfish_test.Config.{WorkerAddresses, ConfigError, ConfigResult, worker}
use sailfish_test.Config
use sailfish_test.Worker.Synchronizer.{
  Synchronizer, Output, batch_request, request, find_missing, synchronize,
}
use sailfish_test.Worker.Synchronizer.Found.{is_absent, is_readable, find_missing_lem}

request-pending :
    (o : ConfigResult WorkerAddresses) (missing : List Digest) (s : Synchronizer)
    → (request o missing s).pending ≡ s.pending
unfolding request
request-pending (Config.ConfigResult.err e) missing s = refl
request-pending (Config.ConfigResult.ok a) missing s = refl

-- What is sent: nothing to an unknown target, else one message.
abbrev pub Sent : ConfigResult WorkerAddresses → List Digest → Synchronizer → List Output → Type 0
Sent (Config.ConfigResult.err e) missing s sent = sent ≡ s.sent
Sent (Config.ConfigResult.ok a) missing s sent =
    sent ≡ s.sent ++ batch_request a.worker_to_worker missing s.name ∷ []

Sent-same :
    (o : ConfigResult WorkerAddresses) (missing : List Digest) (s t : Synchronizer)
    (sent : List Output)
    → t.sent ≡ s.sent
    → t.name ≡ s.name
    → Sent o missing t sent
    → Sent o missing s sent
Sent-same (Config.ConfigResult.err e) missing s t sent a b h = h ∙ a
Sent-same (Config.ConfigResult.ok w) missing s t sent a b h = h ∙ rw (a, b) refl

request-Sent :
    (o : ConfigResult WorkerAddresses) (missing : List Digest) (s : Synchronizer)
    → Sent o missing s (request o missing s).sent
unfolding request
request-Sent (Config.ConfigResult.err e) missing s = refl
request-Sent (Config.ConfigResult.ok a) missing s = refl

-- The missing digests of a request, and what is pending after it.
pub record IsSynchronized (ds missing : List Digest) (s s' : Synchronizer) : Type 0 where
  pub once : Distinct missing
  pub asked :
      (d : Digest)
      → contains missing d
        ≡ (contains ds d && not (contains_key d s.pending) && is_absent s.store d)
  pub pending :
      (d : Digest)
      → contains_key d s'.pending
        ≡ (contains_key d s.pending || contains ds d && is_readable s.store d)

-- The primary asks for batches of a target. Those that are not pending and that the database says it
-- does not have are requested, each once and no others, in one message to the worker of the target with
-- the same id, even if there are none; to an unknown target nothing is sent. The batches that the
-- database answers for, stored or not, are then pending, and one whose read fails is passed over.
pub synchronize_lem :
    (now : ℕ) (ds : List Digest) (target : PublicKey) (s : Synchronizer)
    → (missing : List Digest) × IsSynchronized ds missing s (synchronize now ds target s)
      × Sent (worker s.committee target s.id) missing s (synchronize now ds target s).sent
unfolding synchronize
synchronize_lem now ds target s =
    let r = find_missing now ds ([], s) in
    let f = find_missing_lem now ds [] s in
    let o = worker s.committee target s.id in
    let same : worker r.1.committee target r.1.id ≡ o = rw (f.committee, f.id) refl in
    (
      r.0,
      record {
        once = f.once tt (λ d h. refl);
        asked = f.asked;
        pending = λ d.
            ap (contains_key d) (request-pending (worker r.1.committee target r.1.id) r.0 r.1)
            ∙ f.pending d;
      },
      subst (λ o'. Sent o r.0 s (request o' r.0 r.1).sent) (sym same)
          (Sent-same o r.0 s r.1 _ f.sent f.name (request-Sent o r.0 r.1)),
    )
