-- ===== src/Core/Frame.antt =====
-- Properties of the state of primary/src/core.rs that the parts of its handlers keep.
use sailfish_test.Prelude.{
  ℕ, ◌≡◌, refl, ◌∙◌, ap, subst, sym, Bool-cases, inl, inr, List, [], ◌∷◌, ◌++◌, Bool, true, false,
  ◌||◌, some, add32, ◌==◌, is_empty, Option-cases, get, insert, unwrap_or,
}
use sailfish_test.Crypto.{Digest, PublicKey, Primitives}
use sailfish_test.Config.{Committee, SocketAddr, stake}
use sailfish_test.Messages.{
  certificate_digest, DagError, DagResult, Round, Header, Vote, Certificate, origin, round_of,
  new_vote,
}
use sailfish_test.Messages
use sailfish_test.Aggregators.{
  CertificatesAggregator, VotesAggregator, append_certificate, new_certificates,
}
use sailfish_test.Aggregators.Votes.{append_vote-header}
use sailfish_test.Core.{Codec, Bytes, Core, Handler, add_handlers, Output, PrimaryMessage}
use sailfish_test.Core.Sync.{missing_payload, get_parents, deliver_certificate}
use sailfish_test.Core.Handlers.{
  store_entry, note_processing, note_voted, broadcast_round, send_round, check_parents,
  check_leaderless, validate_parents, may_vote, cast_vote, vote_once, accept_header,
  process_header_with, is_processing, accept_certificate, process_certificate_with,
  process_vote_with,
}
use sailfish_test.Core.Sound.{
  Sound, Sound-bind, Sound-expected, Sound-try, Sound-expect, Sound-if, Sound-done, expect-done,
  expect-state, try-done,
}
use sailfish_test.Core.{vote, send, consensus_header}

-- The vote of another primary's header goes out by `send`.
abbrev pub is_vote : Output → Bool
is_vote (send to (vote v)) = true
is_vote _ = false

-- A property that the handlers below keep when they send, store, and note what they did.
pub record IsFrame (Q : Core → Type 0) : Type 0 where
  pub sends :
      (k : Core) (o : Output) → is_vote o ≡ false → Q k → Q (record k { sent = k.sent ++ o ∷ [] })
  pub casts :
      (k : Core) (h : Header) (v : Vote) (to : SocketAddr)
      → may_vote h k ≡ true
      → v.round ≡ h.round
      → v.origin ≡ h.author
      → Q k
      → Q (record (note_voted h k) { sent = (note_voted h k).sent ++ send to (vote v) ∷ [] })
  pub handles : (k : Core) (r : Round) (l : List SocketAddr) → Q k → Q (add_handlers r l k)
  pub stores : (k : Core) (d : Digest) (v : Bytes) → Q k → Q (store_entry d v k)
  pub votes : (k : Core) (h : Header) → Q k → Q (note_voted h k)
  pub collects :
      (k : Core) (m : List (Round × CertificatesAggregator))
      → Q k
      → Q (record k { certificates_aggregators = m })
  pub counts : (k : Core) (a : VotesAggregator) → Q k → Q (record k { votes_aggregator = a })

module _ (Q : Core → Type 0) (fr : IsFrame Q) where
  pub broadcast-Sound :
      (r : Round) (m : PrimaryMessage) (k : Core) → Q k → Sound Q (broadcast_round r m k)
  unfolding broadcast_round
  broadcast-Sound r m k q = Sound-done Q _ _ (fr.handles _ r _ (fr.sends _ _ refl q))

  pub send-Sound :
      (r : Round) (to : PublicKey) (m : PrimaryMessage) (k : Core)
      → ((a : SocketAddr) → is_vote (send a m) ≡ false)
      → Q k
      → Sound Q (send_round r to m k)
  unfolding send_round
  send-Sound r to m k other q =
      Sound-bind Q _ _ (Sound-expect Q _ k q)
        (λ a e q'. Sound-done Q _ _ (fr.handles _ r _ (fr.sends _ _ (other a) q')))

  check_parents-Sound :
      (c : Committee) (h : Header) (w : ℕ) (lead : Bool) (xs : List Certificate) (k : Core)
      → Q k
      → Sound Q (check_parents c h w lead xs k)
  unfolding check_parents
  check_parents-Sound c h w lead [] k q = Sound-done Q _ _ q
  check_parents-Sound c h w lead (x ∷ xs) k q = Sound-bind Q _ _ (Sound-try Q _ k q) (λ _ e q1.
      Sound-bind Q _ _ (Sound-expect Q _ _ q1) (λ l e2 q2.
        check_parents-Sound c h (add32 w (stake c (origin x))) (lead || l == origin x) xs _ q2))

  check_leaderless-Sound :
      (c : Committee) (h : Header) (k : Core) → Q k → Sound Q (check_leaderless c h k)
  unfolding check_leaderless
  check_leaderless-Sound c h k q = Sound-bind Q _ _ (Sound-try Q _ k q) (λ _ e q1.
      Sound-bind Q _ _ (Sound-expect Q _ _ q1) (λ l e2 q2.
        Sound-if Q (l == h.author) _ _ _ (λ _. Sound-try Q _ _ q2) (λ _. Sound-done Q _ _ q2)))

  pub validate_parents-Sound :
      (c : Committee) (h : Header) (xs : List Certificate) (k : Core)
      → Q k
      → Sound Q (validate_parents c h xs k)
  unfolding validate_parents
  validate_parents-Sound c h xs k q =
      Sound-bind Q _ _ (check_parents-Sound c h 0 false xs k q) (λ f e q1.
        Sound-bind Q _ _ (Sound-try Q _ _ q1) (λ _ e2 q2.
          Sound-if Q f.1 _ _ _ (λ _. Sound-done Q _ _ q2) (λ _. check_leaderless-Sound c h _ q2)))

  pub missing_payload-Sound : (h : Header) (k : Core) → Q k → Sound Q (missing_payload h k)
  unfolding missing_payload
  missing_payload-Sound h k q =
      Sound-if Q (h.author == k.name) _ _ k (λ _. Sound-done Q _ _ q)
        (λ _. Sound-bind Q _ _ (Sound-try Q _ k q) (λ l e q1.
          Sound-if Q (is_empty l) _ _ _ (λ _. Sound-done Q _ _ q1)
            (λ _. Sound-done Q _ _ (fr.sends _ _ refl q1))))

module _ (Q : Core → Type 0) (fr : IsFrame Q) (p : Primitives) (b : Codec) where
  pub get_parents-Sound : (h : Header) (k : Core) → Q k → Sound Q (get_parents p b h k)
  unfolding get_parents
  get_parents-Sound h k q = Sound-bind Q _ _ (Sound-try Q _ k q) (λ l e q1.
      Sound-if Q (is_empty l.0) _ _ _ (λ _. Sound-done Q _ _ q1)
        (λ _. Sound-done Q _ _ (fr.sends _ _ refl q1)))

  pub deliver_certificate-Sound :
      (x : Certificate) (k : Core) → Q k → Sound Q (deliver_certificate p b x k)
  unfolding deliver_certificate
  deliver_certificate-Sound x k q = Sound-bind Q _ _ (Sound-try Q _ k q) (λ l e q1.
      Sound-if Q l _ _ _ (λ _. Sound-done Q _ _ q1) (λ _. Sound-done Q _ _ (fr.sends _ _ refl q1)))

  module _ (pv : Vote → Handler (Unit {0}))
      (pv_sound : (v : Vote) (k : Core) → Q k → Sound Q (pv v k)) where
    cast_vote-Sound :
        (h : Header) (k : Core)
        → may_vote h k ≡ true
        → Q k
        → Sound Q (cast_vote p b pv h (note_voted h k))
    unfolding cast_vote
    cast_vote-Sound h k may q =
        let v = new_vote p h (note_voted h k).name in
        let made : (v.round ≡ h.round) × (v.origin ≡ h.author) = unfold new_vote in (refl, refl) in
        Sound-if Q (h.author == (note_voted h k).name) _ _ _
          (λ _. Sound-expected Q (pv v) _ (pv_sound v _ (fr.votes k h q)))
          (λ _. Sound-bind Q _ _ (Sound-expect Q _ _ (fr.votes k h q)) (λ a e q'. Sound-done Q _ _ (
            fr.handles _ h.round _ (
              subst (λ (t : Core). Q (record t { sent = t.sent ++ send a (vote v) ∷ [] }))
                (sym (expect-state _ (note_voted h k))) (fr.casts k h v a may made.0 made.1 q)))))

    vote_once-Sound : (h : Header) (k : Core) → Q k → Sound Q (vote_once p b pv h k)
    unfolding vote_once
    vote_once-Sound h k q = elim (Bool-cases (may_vote h k)) [
      | inl may ↦ rw may (cast_vote-Sound h k may q)
      | inr never ↦ rw never (Sound-done Q _ _ (fr.votes k h q))
    ]

    accept_header-Sound :
        (h : Header) (xs : List Certificate) (k : Core)
        → Q k
        → Sound Q (accept_header p b pv h xs k)
    unfolding accept_header
    accept_header-Sound h xs k q =
        Sound-bind Q _ _ (validate_parents-Sound Q fr k.committee h xs k q) (λ _ e q1.
          Sound-bind Q _ _ (missing_payload-Sound Q fr h _ q1) (λ m e2 q2.
            Sound-if Q m _ _ _ (λ _. Sound-done Q _ _ q2)
              (λ _. vote_once-Sound h _ (fr.stores _ h.id (b.serialize_header h) q2))))

    -- A header is noted as being processed first: the property has to hold from there on.
    pub process_header_with-Sound :
        (h : Header) (k : Core)
        → Q (note_processing h (record k { sent = k.sent ++ consensus_header h ∷ [] }))
        → Sound Q (process_header_with p b pv h k)
    unfolding process_header_with
    process_header_with-Sound h k q = Sound-bind Q _ _ (get_parents-Sound h _ q) (λ xs e q1.
        Sound-if Q (is_empty xs) _ _ _ (λ _. Sound-done Q _ _ q1)
          (λ _. accept_header-Sound h xs _ q1))

  accept_certificate-Sound :
      (x : Certificate) (k : Core) → Q k → Sound Q (accept_certificate p b x k)
  unfolding accept_certificate
  accept_certificate-Sound x k q =
      let r =
        append_certificate x k.committee
          (unwrap_or new_certificates (get (round_of x) k.certificates_aggregators)) in
      let q' =
        fr.collects _ (insert (round_of x) r.1 k.certificates_aggregators)
          (fr.stores k (certificate_digest p x) (b.serialize_certificate x) q) in
      elim (Option-cases r.0) [
        | inl e ↦ rw e (Sound-done Q _ _ (fr.sends _ _ refl q'))
        | inr (parents, e) ↦ rw e (Sound-done Q _ _ (fr.sends _ _ refl (fr.sends _ _ refl q')))
      ]

  pub process_certificate_with-Sound :
      (ph : Header → Handler (Unit {0})) (x : Certificate) (k : Core)
      → Q k
      → (is_processing p b x.header k ≡ false → Sound Q (ph x.header k))
      → Sound Q (process_certificate_with p b ph x k)
  unfolding process_certificate_with
  process_certificate_with-Sound ph x k q unknown =
      Sound-bind Q _ _
        (Sound-if Q (is_processing p b x.header k) _ _ k (λ _. Sound-done Q _ _ q) unknown)
        (λ _ e q1. Sound-bind Q _ _ (deliver_certificate-Sound x _ q1) (λ l e2 q2.
          Sound-if Q l _ _ _ (λ _. accept_certificate-Sound x _ q2) (λ _. Sound-done Q _ _ q2)))

  -- A certificate that comes out of the votes is for the current header.
  pub process_vote_with-Sound :
      (pc : Certificate → Handler (Unit {0})) (v : Vote) (k : Core)
      → Q k
      → ((x : Certificate) (k' : Core) → x.header ≡ k.current_header → Q k' → Sound Q (pc x k'))
      → Sound Q (process_vote_with p b pc v k)
  unfolding process_vote_with
  process_vote_with-Sound pc v k q certified = Sound-bind Q _ _ (Sound-expect Q _ k q) (λ r e q1.
      Sound-bind Q _ _ (Sound-try Q r.0 _ (fr.counts _ r.1 q1)) (λ cert e2 q2.
        elim (Option-cases cert) [
          | inl none_yet ↦ rw none_yet (Sound-done Q _ _ q2)
          | inr (x, got) ↦
              let made =
                append_vote-header v k.committee k.current_header k.votes_aggregator r.1 x (
                  expect-done _ k r e
                  ∙ ap (λ t. some (t, r.1))
                      (try-done r.0 _ cert e2 ∙ ap Messages.DagResult.ok got)) in
              rw got (
                Sound-bind Q _ _ (broadcast-Sound Q fr (round_of x) _ _ q2)
                  (λ _ e3 q3. Sound-expected Q (pc x) _ (certified x _ made q3)))
        ]))
