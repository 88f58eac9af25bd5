-- ===== src/Proposer.antt =====
-- primary/src/proposer.rs: the headers, timeouts and no-vote messages that a primary makes. A turn of
-- the main loop is `propose` and then one arm of its `select`, at a time of the clock in
-- milliseconds. `none` is a panic: the leader of an empty committee. All channels stay open.
pub mod Rule
pub mod Timeouts
pub mod Payload
pub mod Certs
pub mod Resolve
pub mod Parents
pub mod Again
use sailfish_test.Prelude.{
  ℕ, ◌+◌, List, [], ◌∷◌, ◌++◌, map, Bool, true, false, not, ◌&&◌, ◌||◌, Option, none, some, add64,
  sub64, ltb, leb, ◌==◌, if◌then◌else◌, find, is_empty,
}
use sailfish_test.Crypto.{Digest, PublicKey, Primitives, size}
use sailfish_test.Config.{Committee, WorkerId, leader}
use sailfish_test.Messages.{
  Round, Header, Timeout, NoVoteMsg, TimeoutCert, NoVoteCert, Certificate, genesis, origin,
  certificate_digest, new_header, new_timeout, new_no_vote, new_timeout_cert, new_no_vote_cert,
}

-- What goes out to the core.
pub data Output : Type 0 where
  header : Header → Output
  timeout : Timeout → Output
  no_vote : NoVoteMsg → Output

pub record Proposer : Type 0 where
  pub name : PublicKey
  pub committee : Committee
  pub header_size : ℕ
  pub max_header_delay : ℕ
  pub round : Round
  pub last_parents : List Certificate
  pub last_leader : Option Certificate
  pub digests : List (Digest × WorkerId)
  pub payload_size : ℕ
  pub last_timeout_cert : TimeoutCert
  pub last_no_vote_cert : NoVoteCert
  -- The local variables of `run`: the timer is the time at which it expires.
  pub advance : Bool
  pub deadline : ℕ
  pub timeout_sent : Bool
  -- The messages sent so far, the oldest first.
  pub sent : List Output

-- What the channels bring, and the timer.
pub data Event : Type 0 where
  parents : List Certificate → Round → Event
  digest : Digest → WorkerId → Event
  timeout_cert : TimeoutCert → Round → Event
  no_vote_cert : NoVoteCert → Round → Event
  timer : Event

-- `Proposer::spawn`, and the start of `run` at a time.
unfoldable pub spawn : PublicKey → Committee → ℕ → ℕ → ℕ → Proposer
spawn name c header_size max_header_delay now = record {
  name = name;
  committee = c;
  header_size = header_size;
  max_header_delay = max_header_delay;
  round = 0;
  last_parents = genesis c;
  last_leader = none;
  digests = [];
  payload_size = 0;
  last_timeout_cert = new_timeout_cert 0;
  last_no_vote_cert = new_no_vote_cert 0;
  advance = true;
  deadline = now + max_header_delay;
  timeout_sent = false;
  sent = [];
}

abbrev pub emit : Output → Proposer → Proposer
emit o s = record s { sent = s.sent ++ o ∷ [] }

-- `BTreeMap::insert`: a later worker id of the same digest takes the place of the earlier.
unfoldable pub insert_entry :
    Digest → WorkerId → List (Digest × WorkerId) → List (Digest × WorkerId)
insert_entry k v [] = (k, v) ∷ []
insert_entry k v ((j, w) ∷ m) =
    let rest = insert_entry k v m in
    if j == k then (k, v) ∷ m else if ltb k j then (k, v) ∷ (j, w) ∷ m else (j, w) ∷ rest

-- `collect` into a `BTreeMap`, over what is already there.
unfoldable pub collect_map :
    List (Digest × WorkerId) → List (Digest × WorkerId) → List (Digest × WorkerId)
collect_map m [] = m
collect_map m ((k, v) ∷ es) = collect_map (insert_entry k v m) es

unfoldable pub insert_digest : Digest → List Digest → List Digest
insert_digest k [] = k ∷ []
insert_digest k (j ∷ m) =
    let rest = insert_digest k m in
    if j == k then j ∷ m else if ltb k j then k ∷ j ∷ m else j ∷ rest

-- `collect` into a `BTreeSet`.
unfoldable pub collect_set : List Digest → List Digest → List Digest
collect_set m [] = m
collect_set m (k ∷ ks) = collect_set (insert_digest k m) ks

abbrev pub is_none : Option Certificate → Bool
is_none none = true
is_none (some x) = false

abbrev pub is_some : Option Certificate → Bool
is_some x = not (is_none x)

-- Whether there is a header to propose: parents, and either a timeout that is certified (with a
-- no-vote certificate if this primary leads the next round), or enough digests and the leader.
unfoldable pub is_ready : Bool → Bool → Proposer → Bool
is_ready timer_expired is_next_leader s =
    let timeout_cert_gathered = s.last_timeout_cert.round == s.round in
    let no_vote_cert_gathered = s.last_no_vote_cert.round == s.round in
    let enough_digests = leb s.header_size s.payload_size in
    (timer_expired && timeout_cert_gathered && (not is_next_leader || no_vote_cert_gathered)
      || enough_digests && s.advance)
    && not (is_empty s.last_parents)

-- The timeout certificate of the round before, or an empty one.
unfoldable pub choose_timeout_cert : Proposer → TimeoutCert
choose_timeout_cert s =
    if s.last_timeout_cert.round == sub64 s.round 1 then s.last_timeout_cert else new_timeout_cert 0

unfoldable pub choose_no_vote_cert : PublicKey → Proposer → NoVoteCert
choose_no_vote_cert lead s =
    if lead == s.name && s.last_no_vote_cert.round == sub64 s.round 1
    then s.last_no_vote_cert
    else new_no_vote_cert 0

unfoldable pub update_leader : Proposer → Option (Bool × Proposer)
update_leader s = elim (leader s.committee s.round) [
  | none ↦ none
  | some lead ↦
      let found = find (λ x. origin x == lead) s.last_parents in
      some (is_some found, record s { last_leader = found })
]

-- The arms of the `select`.
unfoldable pub receive_parents : List Certificate → Round → Proposer → Proposer
receive_parents ps r s =
    if ltb s.round r
    then record s { round = r; last_parents = ps }
    else if r == s.round
    then record s { last_parents = s.last_parents ++ ps }
    else s

unfoldable pub receive_digest : Digest → WorkerId → Proposer → Proposer
receive_digest d w s = record s {
  payload_size = add64 s.payload_size (size d);
  digests = s.digests ++ (d, w) ∷ [];
}

unfoldable pub receive_timeout_cert : TimeoutCert → Round → Proposer → Proposer
receive_timeout_cert t r s =
    if ltb s.last_timeout_cert.round r
    then record s { last_timeout_cert = t; round = r }
    else if r == s.last_timeout_cert.round
    then record s { last_timeout_cert = t }
    else s

unfoldable pub receive_no_vote_cert : NoVoteCert → Round → Proposer → Proposer
receive_no_vote_cert n r s =
    if ltb r s.last_no_vote_cert.round then s else record s { last_no_vote_cert = n }

unfoldable pub receive : Event → Proposer → Option Proposer
unfolding receive_parents
receive (parents ps r) s = elim (update_leader (receive_parents ps r s)) [
  | none ↦ none
  | some (found, s') ↦ some (record s' { advance = found })
]
receive (digest d w) s = some (receive_digest d w s)
receive (timeout_cert t r) s = some (receive_timeout_cert t r s)
receive (no_vote_cert n r) s = some (receive_no_vote_cert n r s)
receive timer s = some s

module _ (p : Primitives) where
  unfoldable pub make_timeout_msg : Proposer → Proposer
  make_timeout_msg s = emit (timeout (new_timeout p s.round s.name)) s

  unfoldable pub make_no_vote_msg : Proposer → Proposer
  make_no_vote_msg s = emit (no_vote (new_no_vote p s.round s.name)) s

  -- The header of the round, with all digests and parents that wait; `lead` leads the round.
  unfoldable pub header_by : PublicKey → Proposer → Header
  header_by lead s =
      new_header p s.name s.round (collect_map [] s.digests)
        (collect_set [] (map (certificate_digest p) s.last_parents)) (choose_timeout_cert s)
        (choose_no_vote_cert lead s)

  unfoldable pub make_header : Proposer → Option Proposer
  make_header s = elim (leader s.committee s.round) [
    | none ↦ none
    | some lead ↦
        some (emit (header (header_by lead s)) (record s { digests = []; last_parents = [] }))
  ]

  -- The timeout goes out once for each time that the timer is set.
  unfoldable pub time_out : Bool → Proposer → Proposer
  unfolding make_timeout_msg
  time_out timer_expired s =
      if timer_expired && not s.timeout_sent
      then record (make_timeout_msg s) { timeout_sent = true }
      else s

  -- Into the next round with a new header, and the timer set again.
  unfoldable pub advance_round : ℕ → Bool → Bool → Proposer → Option Proposer
  unfolding make_no_vote_msg
  advance_round now timer_expired is_next_leader s =
      let s' =
        if timer_expired && is_none s.last_leader && not is_next_leader
        then make_no_vote_msg s
        else s in
      elim (make_header (record s' { round = add64 s.round 1 })) [
        | none ↦ none
        | some s'' ↦ some (record s'' {
          payload_size = 0;
          deadline = now + s.max_header_delay;
          timeout_sent = false;
        })
      ]

  -- The part of a turn before the `select`.
  unfoldable pub propose : ℕ → Proposer → Option Proposer
  unfolding time_out
  propose now s = elim (leader s.committee (add64 s.round 1)) [
    | none ↦ none
    | some next ↦
        let timer_expired = leb s.deadline now in
        let s' = time_out timer_expired s in
        if is_ready timer_expired (next == s.name) s'
        then advance_round now timer_expired (next == s.name) s'
        else some s'
  ]

  unfoldable pub turn : ℕ → Event → Proposer → Option Proposer
  unfolding propose receive
  turn now e s = elim (propose now s) [ none ↦ none | some s' ↦ receive e s' ]

  unfoldable pub run : List (ℕ × Event) → Proposer → Option Proposer
  unfolding turn
  run [] s = some s
  run ((now, e) ∷ ts) s = elim (turn now e s) [ none ↦ none | some s' ↦ run ts s' ]
