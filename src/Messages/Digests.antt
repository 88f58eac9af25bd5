-- ===== src/Messages/Digests.antt =====
-- What the digests and the checks of primary/src/messages.rs cover.
use sailfish_test.Prelude.{
  ℕ, ◌<◌, ◌≡◌, refl, List, [], ◌∷◌, All, add32, set_insert, arith, keys, values, true,
}
use sailfish_test.Crypto.{Digest, PublicKey, Primitives, verify}
use sailfish_test.Config
use sailfish_test.Config.{Committee, WorkerAddresses, WorkerId, stake, worker}
use sailfish_test.Messages.{
  ok, Round, Signed, Header, TimeoutCert, NoVoteCert, header_digest, new_header, new_timeout,
  new_no_vote, new_vote, timeout_digest, no_vote_digest, vote_digest,
}
use sailfish_test.Messages.Checks.{
  tally, check_quorum, verify_timeout_cert, verify_no_vote_cert, verify_header, verify_timeout,
  verify_no_vote, verify_vote, check_workers,
}

-- The signing service of the authority `name`: it signs with the key that others verify against.
abbrev pub SignsFor : Primitives → PublicKey → Type 0
SignsFor p name = (d : Digest) → verify p (p.sign d) d name ≡ true

-- The authority has a worker with the id.
abbrev pub IsWorkerOf : Committee → PublicKey → WorkerId → Type 0
IsWorkerOf c name id = (w : WorkerAddresses) × (worker c name id ≡ Config.ConfigResult.ok w)

check_workers-own :
    (c : Committee) (h : Header) (ids : List WorkerId)
    → All (IsWorkerOf c h.author) ids
    → check_workers c h ids ≡ ok tt
unfolding check_workers
check_workers-own c h [] a = refl
check_workers-own c h (id ∷ ids) a = ground (arith, a.0.1, check_workers-own c h ids a.1)

check_workers-certs :
    (c : Committee) (h : Header) (t : TimeoutCert) (n : NoVoteCert) (ids : List WorkerId)
    → check_workers c (record h { timeout_cert = t; no_vote_cert = n }) ids ≡ check_workers c h ids
unfolding check_workers
check_workers-certs c h t n [] = refl
check_workers-certs c h t n (id ∷ ids) = ground (arith, check_workers-certs c h t n ids)

-- A header that an authority with voting rights makes, whose signatures verify under its own key
-- and whose payload names workers of its own, passes `Header::verify`.
pub verify-new_header :
    (p : Primitives) (c : Committee) (name : PublicKey) (round : Round)
    (payload : List (Digest × WorkerId)) (parents : List Digest) (t : TimeoutCert) (n : NoVoteCert)
    → SignsFor p name
    → 0 < stake c name
    → All (IsWorkerOf c name) (values payload)
    → verify_header p c (new_header p name round payload parents t n) ≡ ok tt
unfolding verify_header new_header header_digest
verify-new_header p c name round payload parents t n signs rights workers = ground (
  arith,
  check_workers-own c (new_header p name round payload parents t n) (values payload) workers,
  signs (header_digest p (new_header p name round payload parents t n)),
)

-- A vote, a timeout and a no-vote message that an authority with voting rights makes, whose
-- signatures verify under its own key, pass their checks.
pub verify-new_messages :
    (p : Primitives) (c : Committee) (name : PublicKey) (h : Header) (round : Round)
    → SignsFor p name
    → 0 < stake c name
    → (verify_vote p c (new_vote p h name) ≡ ok tt)
      × (verify_timeout p c (new_timeout p round name) ≡ ok tt)
      × (verify_no_vote p c (new_no_vote p round name) ≡ ok tt)
unfolding verify_vote verify_timeout verify_no_vote new_vote new_timeout new_no_vote vote_digest
    timeout_digest no_vote_digest
verify-new_messages p c name h round signs rights = ground (
  arith,
  signs (vote_digest p (new_vote p h name)),
  signs (timeout_digest p (new_timeout p round name)),
  signs (no_vote_digest p (new_no_vote p round name)),
)

-- The result of `Header::verify` stays the same when the timeout certificate and the no-vote
-- certificate in the header are exchanged for any others.
pub verify_header-certs :
    (p : Primitives) (c : Committee) (h : Header) (t : TimeoutCert) (n : NoVoteCert)
    → verify_header p c (record h { timeout_cert = t; no_vote_cert = n }) ≡ verify_header p c h
unfolding verify_header header_digest
verify_header-certs p c h t n = rw (check_workers-certs c h t n (values h.payload))

tally-names :
    (c : Committee) (used : List PublicKey) (w : ℕ) (a b : Signed)
    → keys a ≡ keys b
    → tally c used w a ≡ tally c used w b
unfolding tally
tally-names c used w [] [] h = refl
tally-names c used w [] ((y, t) ∷ b) h = cc
tally-names c used w ((x, s) ∷ a) [] h = cc
tally-names c used w ((x, s) ∷ a) ((y, t) ∷ b) h =
    ground (arith, tally-names c (set_insert x used) (add32 w (stake c x)) a b)

check_quorum-names :
    (c : Committee) (a b : Signed) → keys a ≡ keys b → check_quorum c a ≡ check_quorum c b
unfolding check_quorum
check_quorum-names c a b h = rw (tally-names c [] 0 a b h)

-- Two timeout certificates with the same names in the same order pass or fail verification alike,
-- whatever their rounds and signatures are, and so do two no-vote certificates.
pub verify_certs-names_only :
    (c : Committee) (t u : TimeoutCert) (m n : NoVoteCert)
    → keys t.timeouts ≡ keys u.timeouts
    → keys m.no_votes ≡ keys n.no_votes
    → (verify_timeout_cert c t ≡ verify_timeout_cert c u)
      × (verify_no_vote_cert c m ≡ verify_no_vote_cert c n)
unfolding verify_timeout_cert verify_no_vote_cert
verify_certs-names_only c t u m n ht hn =
    (check_quorum-names c t.timeouts u.timeouts ht, check_quorum-names c m.no_votes n.no_votes hn)
