-- ===== src/Core.antt =====
-- primary/src/core.rs: the state of the core of a primary, what it sends, and the monad of its
-- handlers. A handler that fails keeps what it has changed and sent. All channels stay open.
pub mod Sync
pub mod Handlers
pub mod Sanitize
pub mod Loop
pub mod Sound
pub mod Frame
pub mod Circle
pub mod Dispatch
pub mod Fuel
pub mod Forwarding
pub mod Cleaning
pub mod Voting
use sailfish_test.Prelude.{
  ℕ, List, [], ◌∷◌, ◌++◌, Bool, true, false, Option, none, some, get, insert, unwrap_or,
}
use sailfish_test.Crypto.{Digest, PublicKey}
use sailfish_test.Config.{Committee, SocketAddr, WorkerId}
use sailfish_test.Messages.{
  DagError, DagResult, Round, Header, Timeout, NoVoteMsg, Vote, TimeoutCert, NoVoteCert,
  Certificate, genesis, default_header,
}
use sailfish_test.Messages
use sailfish_test.Aggregators.{
  VotesAggregator, CertificatesAggregator, TimeoutAggregator, NoVoteAggregator, new_votes,
}

abbrev pub Bytes : Type 0
Bytes = List ℕ

-- `bincode`, a third-party library: the encodings that the store holds.
pub record Codec : Type 0 where
  pub serialize_header : Header → Bytes
  pub serialize_certificate : Certificate → Bytes
  pub deserialize_certificate : Bytes → Option Certificate

-- store/src/lib.rs as the core sees it: the values under digests (keys of 32 bytes), the payload
-- entries under a digest and a worker id (keys of 36 bytes), and whether the database fails.
pub record Store : Type 0 where
  pub entries : List (Digest × Bytes)
  pub batches : List (Digest × WorkerId)
  pub broken : Bool

pub data PrimaryMessage : Type 0 where
  header : Header → PrimaryMessage
  timeout : Timeout → PrimaryMessage
  no_vote_msg : NoVoteMsg → PrimaryMessage
  vote : Vote → PrimaryMessage
  certificate : Certificate → PrimaryMessage
  certificates_request : List Digest → PublicKey → PrimaryMessage

-- What goes out: to the network, to the consensus, to the proposer, and to the two waiters.
pub data Output : Type 0 where
  broadcast : List SocketAddr → PrimaryMessage → Output
  send : SocketAddr → PrimaryMessage → Output
  consensus_header : Header → Output
  consensus : Certificate → Output
  proposer : List Certificate → Round → Output
  proposer_timeout_cert : TimeoutCert → Round → Output
  proposer_no_vote_cert : NoVoteCert → Round → Output
  sync_batches : List (Digest × WorkerId) → Header → Output
  sync_parents : List Digest → Header → Output
  sync_certificate : Certificate → Output

pub record Core : Type 0 where
  pub name : PublicKey
  pub committee : Committee
  pub store : Store
  pub consensus_round : Round
  pub gc_depth : Round
  pub gc_round : Round
  pub last_voted : List (Round × List PublicKey)
  pub processing : List (Round × List Digest)
  pub current_header : Header
  pub votes_aggregator : VotesAggregator
  pub certificates_aggregators : List (Round × CertificatesAggregator)
  pub cancel_handlers : List (Round × List SocketAddr)
  pub timeouts_aggregators : List (Round × TimeoutAggregator)
  pub no_vote_aggregators : List (Round × NoVoteAggregator)
  -- The messages sent so far, the oldest first.
  pub sent : List Output

-- `Core::spawn`.
unfoldable pub spawn : PublicKey → Committee → Store → Round → Core
spawn name c store gc_depth = record {
  name = name;
  committee = c;
  store = store;
  consensus_round = 0;
  gc_depth = gc_depth;
  gc_round = 0;
  last_voted = [];
  processing = [];
  current_header = default_header;
  votes_aggregator = new_votes;
  certificates_aggregators = [];
  cancel_handlers = [];
  timeouts_aggregators = [];
  no_vote_aggregators = [];
  sent = [];
}

-- How a handler ends; `out_of_fuel` is a limit of the model.
pub data Outcome (A : Type 0) : Type 0 where
  done : A → Outcome A
  failed : DagError → Outcome A
  panicked out_of_fuel : Outcome A

abbrev pub Handler : Type 0 → Type 0
Handler A = Core → Outcome A × Core

infixl 5 ◌>>=◌ ◌>>◌
abbrev pub ◌>>=◌ : {A B : Type 0} → Handler A → (A → Handler B) → Handler B
◌>>=◌ m f k =
    let (r, k') = m k in
    elim r [
      | done a ↦ f a k'
      | failed e ↦ (failed e, k')
      | panicked ↦ (panicked, k')
      | out_of_fuel ↦ (out_of_fuel, k')
    ]

abbrev pub ◌>>◌ : {A B : Type 0} → Handler A → Handler B → Handler B
m >> f = m >>= λ _. f

abbrev pub pure : {A : Type 0} → A → Handler A
pure a k = (done a, k)

abbrev pub gets : {A : Type 0} → (Core → A) → Handler A
gets f k = (done (f k), k)

abbrev pub modify : (Core → Core) → Handler (Unit {0})
modify f k = (done tt, f k)

abbrev pub emit : Output → Handler (Unit {0})
emit o k = (done tt, record k { sent = k.sent ++ o ∷ [] })

-- The operator `?` on a `DagResult`, and `expect`.
unfoldable pub try_ : {A : Type 0} → DagResult A → Handler A
try_ (Messages.DagResult.ok a) k = (done a, k)
try_ (Messages.DagResult.err e) k = (failed e, k)

unfoldable pub expect : {A : Type 0} → Option A → Handler A
expect none k = (panicked, k)
expect (some a) k = (done a, k)

abbrev expected : {A : Type 0} → Outcome A → Outcome A
expected (done a) = done a
expected (failed e) = panicked
expected panicked = panicked
expected out_of_fuel = out_of_fuel

unfoldable pub expect_ok : {A : Type 0} → Handler A → Handler A
expect_ok m k = let (r, k') = m k in (expected r, k')

-- `cancel_handlers.entry(round).or_insert_with(Vec::new).extend(handlers)`, a handler for each address.
abbrev pub add_handlers : Round → List SocketAddr → Core → Core
add_handlers r addresses k = record k {
  cancel_handlers =
      insert r (unwrap_or [] (get r k.cancel_handlers) ++ addresses) k.cancel_handlers;
}
