-- ===== src/Messages.antt =====
-- primary/src/messages.rs and primary/src/error.rs: the messages of the primary, their digests and
-- how each is made. The children check them.
pub mod Checks
pub mod Quorum
pub mod Digests
use sailfish_test.Prelude.{
  ℕ, ◌≡◌, refl, List, [], ◌∷◌, ◌++◌, map, Bool, true, false, ◌&&◌, any, keys, le_bytes,
  if◌then◌else◌, ◌==◌,
}
use sailfish_test.Crypto.{
  Digest, PublicKey, Signature, Primitives, default_digest, default_signature, to_vec,
}
use sailfish_test.Config.{Committee, WorkerId}

abbrev pub Round : Type 0
Round = ℕ

pub data DagError : Type 0 where
  invalid_signature store_error serialization_error invalid_header_id : DagError
  malformed_header : Digest → DagError
  unknown_authority authority_reuse : PublicKey → DagError
  unexpected_vote : Digest → DagError
  certificate_requires_quorum : DagError
  header_requires_quorum : Digest → DagError
  too_old : Digest → Round → DagError

pub data DagResult (A : Type 0) : Type 0 where
  ok : A → DagResult A
  err : DagError → DagResult A

-- The operator `?`: the first error ends the rest.
infixl 5 ◌>>◌ ◌>>=◌
abbrev pub ◌>>=◌ : {A B : Type 0} → DagResult A → (A → DagResult B) → DagResult B
err reason >>= next = err reason
ok result >>= next = next result

abbrev pub ◌>>◌ : {B : Type 0} → DagResult (Unit {0}) → DagResult B → DagResult B
check >> next = check >>= λ _. next

pub >>=-eq-ok :
    {A B : Type 0} {next : A → DagResult B} {y : B} (first : DagResult A)
    → (first >>= next) ≡ ok y
    → (x : A) × (next x ≡ ok y) × (first ≡ ok x)
>>=-eq-ok (err reason) h = cc
>>=-eq-ok (ok x) h = (x, h, refl)

-- The macro `ensure!`.
abbrev pub ensure : Bool → DagError → DagResult (Unit {0})
ensure true e = ok tt
ensure false e = err e

abbrev pub Signed : Type 0
Signed = List (PublicKey × Signature)

pub record TimeoutCert : Type 0 where
  pub round : Round
  pub timeouts : Signed

pub record NoVoteCert : Type 0 where
  pub round : Round
  pub no_votes : Signed

-- The maps and sets are in the order of their keys, as a `BTreeMap` and a `BTreeSet` are read.
pub record Header : Type 0 where
  pub author : PublicKey
  pub round : Round
  pub payload : List (Digest × WorkerId)
  pub parents : List Digest
  pub id : Digest
  pub signature : Signature
  pub timeout_cert : TimeoutCert
  pub no_vote_cert : NoVoteCert

pub record Timeout : Type 0 where
  pub round : Round
  pub author : PublicKey
  pub signature : Signature

pub record NoVoteMsg : Type 0 where
  pub round : Round
  pub author : PublicKey
  pub signature : Signature

pub record Vote : Type 0 where
  pub id : Digest
  pub round : Round
  pub origin : PublicKey
  pub author : PublicKey
  pub signature : Signature

pub record Certificate : Type 0 where
  pub header : Header
  pub votes : Signed

-- `TimeoutCert::new` and `NoVoteCert::new`.
abbrev pub new_timeout_cert : Round → TimeoutCert
new_timeout_cert r = record { round = r; timeouts = [] }

abbrev pub new_no_vote_cert : Round → NoVoteCert
new_no_vote_cert r = record { round = r; no_votes = [] }

abbrev pub default_header : Header
default_header = record {
  author = 0;
  round = 0;
  payload = [];
  parents = [];
  id = default_digest;
  signature = default_signature;
  timeout_cert = new_timeout_cert 0;
  no_vote_cert = new_no_vote_cert 0;
}

abbrev pub round_of : Certificate → Round
round_of c = c.header.round

abbrev pub origin : Certificate → PublicKey
origin c = c.header.author

-- `PartialEq for Certificate`.
abbrev pub same_certificate : Certificate → Certificate → Bool
same_certificate a b =
    a.header.id == b.header.id && round_of a == round_of b && origin a == origin b

unfoldable pub genesis : Committee → List Certificate
genesis c =
    map (λ name. record { header = record default_header { author = name }; votes = [] })
      (keys c.authorities)

-- `add_timeout` and `add_no_vote`: one entry for each authority.
pub add_timeout : TimeoutCert → PublicKey → Signature → DagResult TimeoutCert
add_timeout t author signature =
    if any (λ e. e.0 == author) t.timeouts
    then err (authority_reuse author)
    else ok (record t { timeouts = t.timeouts ++ (author, signature) ∷ [] })

pub add_no_vote : NoVoteCert → PublicKey → Signature → DagResult NoVoteCert
add_no_vote n author signature =
    if any (λ e. e.0 == author) n.no_votes
    then err (authority_reuse author)
    else ok (record n { no_votes = n.no_votes ++ (author, signature) ∷ [] })

-- What the hasher of a header is fed for its payload and for its parents.
unfoldable pub payload_bytes : List (Digest × WorkerId) → List ℕ
payload_bytes [] = []
payload_bytes ((x, y) ∷ rest) = to_vec x ++ (le_bytes 4 y ++ payload_bytes rest)

unfoldable pub parents_bytes : List Digest → List ℕ
parents_bytes [] = []
parents_bytes (x ∷ rest) = to_vec x ++ parents_bytes rest

module _ (p : Primitives) where
  unfoldable pub header_digest : Header → Digest
  header_digest h = p.sha512 (
      to_vec h.author
      ++ (le_bytes 8 h.round ++ (payload_bytes h.payload ++ parents_bytes h.parents)))

  unfoldable pub timeout_digest : Timeout → Digest
  timeout_digest t = p.sha512 (le_bytes 8 t.round ++ to_vec t.author)

  unfoldable pub no_vote_digest : NoVoteMsg → Digest
  no_vote_digest m = p.sha512 (le_bytes 8 m.round ++ to_vec m.author)

  unfoldable pub vote_digest : Vote → Digest
  vote_digest v = p.sha512 (to_vec v.id ++ (le_bytes 8 v.round ++ to_vec v.origin))

  unfoldable pub certificate_digest : Certificate → Digest
  certificate_digest c =
      p.sha512 (to_vec c.header.id ++ (le_bytes 8 (round_of c) ++ to_vec (origin c)))

  -- The constructors sign what they make with the key of this node.
  unfoldable pub new_header :
      PublicKey → Round → List (Digest × WorkerId) → List Digest → TimeoutCert → NoVoteCert → Header
  new_header author round payload parents timeout_cert no_vote_cert =
      let header : Header = record {
        author = author;
        round = round;
        payload = payload;
        parents = parents;
        id = default_digest;
        signature = default_signature;
        timeout_cert = timeout_cert;
        no_vote_cert = no_vote_cert;
      } in
      let id = header_digest header in record header { id = id; signature = p.sign id }

  unfoldable pub new_timeout : Round → PublicKey → Timeout
  new_timeout round author =
      let timeout : Timeout = record {
        round = round;
        author = author;
        signature = default_signature;
      } in
      record timeout { signature = p.sign (timeout_digest timeout) }

  unfoldable pub new_no_vote : Round → PublicKey → NoVoteMsg
  new_no_vote round author =
      let msg : NoVoteMsg = record {
        round = round;
        author = author;
        signature = default_signature;
      } in
      record msg { signature = p.sign (no_vote_digest msg) }

  unfoldable pub new_vote : Header → PublicKey → Vote
  new_vote header author =
      let vote : Vote = record {
        id = header.id;
        round = header.round;
        origin = header.author;
        author = author;
        signature = default_signature;
      } in
      record vote { signature = p.sign (vote_digest vote) }
