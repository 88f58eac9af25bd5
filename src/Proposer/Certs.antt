-- ===== src/Proposer/Certs.antt =====
-- The headers and the no-vote messages of primary/src/proposer.rs, as others check them.
use sailfish_test.Prelude.{
  ℕ, ◌<◌, ◌≡◌, subst, sym, ap, some_inj, map, ◌∙◌, ◌≢◌, ◌⊎◌, refl, inl, inr, List, [], ◌∷◌, ◌++◌,
  Bool, true, false, ◌&&◌, some, arith, ◌==◌, add64, sub64, All, All-append, values, Bool-cases,
  ==→eq,
}
use sailfish_test.Crypto.{Digest, PublicKey, Primitives}
use sailfish_test.Config.{Committee, WorkerId, leader, stake}
use sailfish_test.Messages.{
  certificate_digest, Header, new_header, new_timeout_cert, new_no_vote_cert, ok, new_no_vote,
}
use sailfish_test.Messages.Checks.{verify_header}
use sailfish_test.Messages.Digests.{SignsFor, IsWorkerOf, verify-new_header}
use sailfish_test.Proposer.{
  Proposer, Event, digest, Output, header, timeout, no_vote, spawn, receive, receive_parents,
  receive_digest, receive_timeout_cert, receive_no_vote_cert, update_leader, run, make_timeout_msg,
  make_no_vote_msg, header_by, choose_timeout_cert, choose_no_vote_cert, insert_entry, collect_map,
  collect_set,
}
use sailfish_test.Proposer.Rule.{Rule, kept-run_where}

-- The certificates in a header are empty, or of the round before; the no-vote certificate is empty
-- unless the author leads the round of the header.
pub record HasCerts (c : Committee) (h : Header) : Type 0 where
  pub timeouts : (h.timeout_cert ≡ new_timeout_cert 0) ⊎ (h.timeout_cert.round ≡ sub64 h.round 1)
  pub no_votes :
      (h.no_vote_cert ≡ new_no_vote_cert 0)
      ⊎ ((h.no_vote_cert.round ≡ sub64 h.round 1) × (leader c h.round ≡ some h.author))

-- What is said of each message: a header of this author passes the check of every receiver, and
-- has such certificates; a no-vote message goes to another primary, the leader of the next round.
pub IsSound : Primitives → PublicKey → Committee → Output → Type 0
IsSound p name c (header h) = (h.author ≡ name) × (verify_header p c h ≡ ok tt) × HasCerts c h
IsSound p name c (timeout t) = Unit {0}
IsSound p name c (no_vote m) =
    (lead : PublicKey) × (leader c (add64 m.round 1) ≡ some lead) × (lead ≢ name)

-- A digest is from a worker of this primary.
abbrev pub IsFromWorker : Committee → PublicKey → Event → Type 0
IsFromWorker c name (digest d w) = IsWorkerOf c name w
IsFromWorker c name _ = Unit {0}

All-insert_entry :
    (P : WorkerId → Type 0) (d : Digest) (w : WorkerId) (m : List (Digest × WorkerId))
    → P w
    → All P (values m)
    → All P (values (insert_entry d w m))
unfolding insert_entry
All-insert_entry P d w [] h a = (h, tt)
All-insert_entry P d w ((j, v) ∷ m) h a = ground (arith, All-insert_entry P d w m)

All-collect_map :
    (P : WorkerId → Type 0) (m es : List (Digest × WorkerId))
    → All P (values m)
    → All P (values es)
    → All P (values (collect_map m es))
unfolding collect_map
All-collect_map P m [] a b = a
All-collect_map P m ((d, w) ∷ es) a b =
    All-collect_map P (insert_entry d w m) es (All-insert_entry P d w m b.0 a) b.1

values-All-append :
    (P : WorkerId → Type 0) (m : List (Digest × WorkerId)) (d : Digest) (w : WorkerId)
    → All P (values m)
    → P w
    → All P (values (m ++ (d, w) ∷ []))
values-All-append P [] d w a h = (h, tt)
values-All-append P ((j, v) ∷ m) d w a h = (a.0, values-All-append P m d w a.1 h)

abbrev is_digest : Event → Bool
is_digest (digest d w) = true
is_digest _ = false

-- What the other events leave as it is.
receive-frame :
    (e : Event) (s s' : Proposer)
    → receive e s ≡ some s'
    → (s'.name ≡ s.name)
      × (s'.committee ≡ s.committee)
      × (s'.sent ≡ s.sent)
      × (is_digest e ≡ false → s'.digests ≡ s.digests)
unfolding receive update_leader receive_parents receive_digest receive_timeout_cert
    receive_no_vote_cert
receive-frame e s s' r = ground arith

module _ (p : Primitives) (name : PublicKey) (c : Committee) where
  record IsHonest (s : Proposer) : Type 0 where
    own : s.name ≡ name
    same : s.committee ≡ c
    workers : All (IsWorkerOf c name) (values s.digests)
    sound : All (IsSound p name c) s.sent

  choose_timeout_cert_lem :
      (s : Proposer)
      → (choose_timeout_cert s ≡ new_timeout_cert 0)
        ⊎ ((choose_timeout_cert s).round ≡ sub64 s.round 1)
  unfolding choose_timeout_cert
  choose_timeout_cert_lem s = elim (Bool-cases (s.last_timeout_cert.round == sub64 s.round 1)) [
    | inl hit ↦ inr (rw hit (==→eq _ _ hit))
    | inr miss ↦ inl (rw miss refl)
  ]

  choose_no_vote_cert_lem :
      (lead : PublicKey) (s : Proposer)
      → (choose_no_vote_cert lead s ≡ new_no_vote_cert 0)
        ⊎ (((choose_no_vote_cert lead s).round ≡ sub64 s.round 1) × (lead ≡ s.name))
  unfolding choose_no_vote_cert
  choose_no_vote_cert_lem lead s =
      elim (Bool-cases (lead == s.name && s.last_no_vote_cert.round == sub64 s.round 1)) [
        | inl hit ↦ inr (rw hit (ground (arith, hit)))
        | inr miss ↦ inl (rw miss refl)
      ]

  module _ (signs : SignsFor p name) (rights : 0 < stake c name) where
    header_by-IsSound :
        (lead : PublicKey) (s : Proposer)
        → IsHonest s
        → leader s.committee s.round ≡ some lead
        → IsSound p name c (header (header_by p lead s))
    unfolding IsSound header_by new_header
    header_by-IsSound lead s h l = (
      h.own,
      subst
          (λ n.
            verify_header p c (
              new_header p n s.round (collect_map [] s.digests)
                (collect_set [] (map (certificate_digest p) s.last_parents)) (choose_timeout_cert s)
                (choose_no_vote_cert lead s))
            ≡ ok tt)
          (sym h.own)
          (verify-new_header p c name s.round _ _ _ _ signs rights
            (All-collect_map (IsWorkerOf c name) [] s.digests tt h.workers)),
      record {
        timeouts = choose_timeout_cert_lem s;
        no_votes = elim (choose_no_vote_cert_lem lead s) [
          | inl empty ↦ inl empty
          | inr (r, own) ↦
              inr (r, subst (λ c. leader c s.round ≡ some s.name) h.same (l ∙ ap some own))
        ];
      },
    )

    IsHonest-frame :
        (s s' : Proposer)
        → IsHonest s
        → (s'.name ≡ s.name)
          × (s'.committee ≡ s.committee)
          × (s'.sent ≡ s.sent)
          × (s'.digests ≡ s.digests)
        → IsHonest s'
    IsHonest-frame s s' h (a, b, d, e) = record {
      own = a ∙ h.own;
      same = b ∙ h.same;
      workers = subst (λ ds. All (IsWorkerOf c name) (values ds)) (sym e) h.workers;
      sound = subst (All (IsSound p name c)) (sym d) h.sound;
    }

    IsHonest-Rule : Rule p IsHonest
    unfolding make_timeout_msg make_no_vote_msg IsSound new_no_vote
    IsHonest-Rule = record {
      timeouts = λ s h e. record {
        own = h.own;
        same = h.same;
        workers = h.workers;
        sound = All-append _ s.sent _ h.sound (tt, tt);
      };
      no_votes = λ lead s h l n. record {
        own = h.own;
        same = h.same;
        workers = h.workers;
        sound = All-append _ s.sent _ h.sound (
          (
            lead,
            subst (λ c. leader c (add64 s.round 1) ≡ some lead) h.same l,
            λ e. ground (arith, n, h.own, e),
          ),
          tt,
        );
      };
      headers = λ now lead s h l r. record {
        own = h.own;
        same = h.same;
        workers = tt;
        sound = All-append _ s.sent _ h.sound (
          header_by-IsSound lead _
              (record { own = h.own; same = h.same; workers = h.workers; sound = h.sound }) l,
          tt,
        );
      };
    }

    receive-IsHonest :
        (e : Event) (s s' : Proposer)
        → IsFromWorker c name e
        → IsHonest s
        → receive e s ≡ some s'
        → IsHonest s'
    unfolding receive update_leader receive_parents receive_digest receive_timeout_cert
        receive_no_vote_cert
    receive-IsHonest (digest d w) s s' q h e = subst IsHonest (some_inj e) (record {
      own = h.own;
      same = h.same;
      sound = h.sound;
      workers = values-All-append (IsWorkerOf c name) s.digests d w h.workers q;
    })
    receive-IsHonest e s s' q h r =
        IsHonest-frame s s' h (let f = receive-frame e s s' r in (f.0, f.1, f.2, f.3 refl))

  -- The headers and the no-vote messages of a proposer whose workers are in the committee: the headers
  -- pass the check of every receiver. Their certificates are empty or of the round before, and a
  -- no-vote certificate is only in a header of the leader of its round. A no-vote message is never
  -- sent by the leader of the next round.
  pub run-IsSound :
      (header_size max_header_delay now : ℕ) (ts : List (ℕ × Event)) (s : Proposer)
      → SignsFor p name
      → 0 < stake c name
      → All (λ t. IsFromWorker c name t.1) ts
      → run p ts (spawn name c header_size max_header_delay now) ≡ some s
      → All (IsSound p name c) s.sent
  unfolding spawn
  run-IsSound n m now ts s signs rights workers e =
      (kept-run_where p IsHonest (IsHonest-Rule signs rights) (IsFromWorker c name)
        (receive-IsHonest signs rights) ts _ s workers
        (record { own = refl; same = refl; workers = tt; sound = tt }) e).sound
