-- ===== src/Proposer/Payload.antt =====
-- The payload of the headers of primary/src/proposer.rs.
use sailfish_test.Prelude.{
  ℕ, ◌≡◌, refl, ◌∙◌, ap, some_inj, inl, inr, List, [], ◌∷◌, ◌++◌, Bool, false, ◌||◌, some, arith,
  ◌==◌, keys, contains, Bool-cases, Option-cases,
}
use sailfish_test.Crypto.{Digest, PublicKey, Primitives}
use sailfish_test.Config.{Committee, WorkerId}
use sailfish_test.Messages.{Header, new_header}
use sailfish_test.Proposer.{
  Proposer, Event, digest, Output, header, timeout, no_vote, spawn, receive, receive_parents,
  receive_digest, receive_timeout_cert, receive_no_vote_cert, update_leader, run, turn, propose,
  make_timeout_msg, make_no_vote_msg, insert_entry, collect_map, header_by,
}
use sailfish_test.Proposer.Rule.{Rule, kept-propose}

-- Whether a digest is in the payload of a header that went out.
abbrev pub is_proposed : Digest → List Output → Bool
is_proposed d [] = false
is_proposed d (header h ∷ os) = contains (keys h.payload) d || is_proposed d os
is_proposed d (_ ∷ os) = is_proposed d os

-- Whether a worker sent a digest.
abbrev pub is_received : Digest → List (ℕ × Event) → Bool
is_received d [] = false
is_received d ((now, digest x w) ∷ ts) = x == d || is_received d ts
is_received d (_ ∷ ts) = is_received d ts

is_proposed-append :
    (d : Digest) (os us : List Output)
    → is_proposed d (os ++ us) ≡ (is_proposed d os || is_proposed d us)
is_proposed-append d [] us = refl
is_proposed-append d (header h ∷ os) us = ground (arith, is_proposed-append d os us)
is_proposed-append d (timeout t ∷ os) us = is_proposed-append d os us
is_proposed-append d (no_vote m ∷ os) us = is_proposed-append d os us

quiet-snoc :
    (d : Digest) (o : Output) (os : List Output)
    → is_proposed d (o ∷ []) ≡ false
    → is_proposed d (os ++ o ∷ []) ≡ is_proposed d os
quiet-snoc d o os h = ground (arith, is_proposed-append d os (o ∷ []))

contains-insert_entry :
    (k d : Digest) (v : WorkerId) (m : List (Digest × WorkerId))
    → contains (keys (insert_entry k v m)) d ≡ (k == d || contains (keys m) d)
unfolding insert_entry
contains-insert_entry k d v [] = refl
contains-insert_entry k d v ((j, w) ∷ m) = elim (Bool-cases (j == k)) [
  | inl same ↦ ground (arith, same)
  | inr other ↦ ground (arith, other, contains-insert_entry k d v m)
]

contains-collect_map :
    (d : Digest) (m es : List (Digest × WorkerId))
    → contains (keys (collect_map m es)) d ≡ (contains (keys m) d || contains (keys es) d)
unfolding collect_map
contains-collect_map d m [] = ground arith
contains-collect_map d m ((k, v) ∷ es) =
    ground (arith, contains-collect_map d (insert_entry k v m) es, contains-insert_entry k d v m)

-- A digest is in a header or waits for one.
abbrev holds : Digest → Proposer → Bool
holds d s = is_proposed d s.sent || contains (keys s.digests) d

contains-keys-append :
    (d : Digest) (m es : List (Digest × WorkerId))
    → contains (keys (m ++ es)) d ≡ (contains (keys m) d || contains (keys es) d)
contains-keys-append d [] es = refl
contains-keys-append d ((j, w) ∷ m) es = ground (arith, contains-keys-append d m es)

drained :
    (d : Digest) (os : List Output) (es : List (Digest × WorkerId)) (h : Header)
    → contains (keys h.payload) d ≡ contains (keys es) d
    → (is_proposed d (os ++ header h ∷ []) || false) ≡ (is_proposed d os || contains (keys es) d)
drained d os es h e = ground (arith, is_proposed-append d os (header h ∷ []))

joined :
    (d : Digest) (now : ℕ) (x : Event) (ts : List (ℕ × Event)) {a b c e : Bool}
    → a ≡ (b || is_received d ts)
    → b ≡ (c || is_received d ((now, x) ∷ []))
    → c ≡ e
    → a ≡ (e || is_received d ((now, x) ∷ ts))
joined d now x ts h k l = ground arith

module _ (p : Primitives) where
  holds-Rule : (d : Digest) (b : Bool) → Rule p (λ s. holds d s ≡ b)
  unfolding make_timeout_msg make_no_vote_msg header_by new_header
  holds-Rule d b = record {
    timeouts = λ s h e.
        ap (λ x. x || contains (keys s.digests) d) (quiet-snoc d (timeout _) s.sent refl) ∙ h;
    no_votes = λ lead s h l n.
        ap (λ x. x || contains (keys s.digests) d) (quiet-snoc d (no_vote _) s.sent refl) ∙ h;
    headers =
        λ now lead s h l r. drained d s.sent s.digests _ (contains-collect_map d [] s.digests) ∙ h;
  }

  receive-holds :
      (d : Digest) (now : ℕ) (e : Event) (s s' : Proposer)
      → receive e s ≡ some s'
      → holds d s' ≡ (holds d s || is_received d ((now, e) ∷ []))
  unfolding receive update_leader receive_parents receive_digest receive_timeout_cert
      receive_no_vote_cert
  receive-holds d now (digest x w) s s' e =
      ground (arith, some_inj e, contains-keys-append d s.digests ((x, w) ∷ []))
  receive-holds d now _ s s' e = ground arith

  holds-run :
      (d : Digest) (ts : List (ℕ × Event)) (s s' : Proposer)
      → run p ts s ≡ some s'
      → holds d s' ≡ (holds d s || is_received d ts)
  unfolding run turn
  holds-run d [] s s' e = ground arith
  holds-run d ((now, x) ∷ ts) s s' e = elim (Option-cases (propose p now s)) [
    | inl panics ↦ cc
    | inr (t, et) ↦ elim (Option-cases (receive x t)) [
      | inl panics ↦ cc
      | inr (u, eu) ↦
          let kept : holds d t ≡ holds d s =
            kept-propose p (λ t. holds d t ≡ holds d s) (holds-Rule d (holds d s)) now s t refl
              et in
          let rest : holds d s' ≡ (holds d u || is_received d ts) =
            holds-run d ts u s' (ground (arith, et, eu)) in
          joined d now x ts rest (receive-holds d now x t u eu) kept
    ]
  ]

  -- The digests in the headers that a proposer has sent, and those that still wait, are the digests
  -- that its workers sent: none is lost and none is made up.
  pub payload_complete :
      (name : PublicKey) (c : Committee) (header_size max_header_delay now : ℕ)
      (ts : List (ℕ × Event)) (s : Proposer) (d : Digest)
      → run p ts (spawn name c header_size max_header_delay now) ≡ some s
      → (is_proposed d s.sent || contains (keys s.digests) d) ≡ is_received d ts
  unfolding spawn
  payload_complete name c n m now ts s d e = holds-run d ts _ s e
