-- ===== src/Proposer/Again.antt =====
-- What a late timeout certificate does to primary/src/proposer.rs.
use sailfish_test.Prelude.{
  ℕ, ◌+◌, ◌<◌, ◌≤◌, ◌≡◌, refl, ◌∙◌, ap, inl, inr, List, [], ◌∷◌, ◌++◌, Bool, true, false, not, ◌&&◌,
  some, arith, ◌==◌, leb, find, add64, Bool-cases, u64_mod, is_empty, if◌then◌else◌, ==_refl,
  le→leb, lt→ltb,
}
use sailfish_test.Crypto.{PublicKey, Primitives}
use sailfish_test.Config.{leader, committee_size}
use sailfish_test.Config.Stakes.{IsValid}
use sailfish_test.Config.Leaders.{leader-some}
use sailfish_test.Messages.{Round, Certificate, TimeoutCert, new_header, origin}
use sailfish_test.Proposer.{
  Proposer, parents, timeout_cert, Output, header, timeout, no_vote, receive, receive_parents,
  receive_timeout_cert, update_leader, run, turn, propose, time_out, advance_round, make_header,
  make_timeout_msg, make_no_vote_msg, header_by, is_ready, is_none, is_some,
}
use sailfish_test.Proposer.Rule.{proposed, timed_out}

-- How many headers of a round went out.
abbrev pub headers_in : Round → List Output → ℕ
headers_in r [] = 0
headers_in r (header h ∷ os) = (if h.round == r then 1 else 0) + headers_in r os
headers_in r (_ ∷ os) = headers_in r os

headers_in-append :
    (r : Round) (os us : List Output) → headers_in r (os ++ us) ≡ headers_in r os + headers_in r us
headers_in-append r [] us = omega arith
headers_in-append r (header h ∷ os) us = omega (arith, headers_in-append r os us)
headers_in-append r (timeout t ∷ os) us = headers_in-append r os us
headers_in-append r (no_vote m ∷ os) us = headers_in-append r os us

module _ (p : Primitives) where
  -- Without parents, and before the timer expires, nothing is proposed.
  propose-idle :
      (now : ℕ) (next : PublicKey) (s : Proposer)
      → leader s.committee (add64 s.round 1) ≡ some next
      → leb s.deadline now ≡ false
      → is_empty s.last_parents ≡ true
      → propose p now s ≡ some s
  unfolding propose time_out is_ready
  propose-idle now next s l early e = ground (arith, l, early, e)

  headers_in-proposed :
      (now : ℕ) (next : PublicKey) (s : Proposer) (os : List Output)
      → headers_in (add64 s.round 1) s.sent ≡ headers_in (add64 s.round 1) os
      → headers_in (add64 s.round 1) (proposed p now next s).sent
        ≡ headers_in (add64 s.round 1) os + 1
  unfolding header_by new_header
  headers_in-proposed now next s os h =
      headers_in-append (add64 s.round 1) s.sent
        (header (header_by p next (record s { round = add64 s.round 1 })) ∷ [])
      ∙ rw (h, ==_refl (add64 s.round 1)) refl

  advance-late :
      (now : ℕ) (b : Bool) (next : PublicKey) (s : Proposer)
      → leader s.committee (add64 s.round 1) ≡ some next
      → (u : Proposer) × (advance_round p now b (next == s.name) s ≡ some u)
        × (headers_in (add64 s.round 1) u.sent ≡ headers_in (add64 s.round 1) s.sent + 1)
  unfolding advance_round make_header make_no_vote_msg
  advance-late now b next s l =
      elim (Bool-cases (b && is_none s.last_leader && not (next == s.name))) [
        | inl silent ↦ (
          proposed p now next (make_no_vote_msg p s),
          ground (arith, silent, l),
          headers_in-proposed now next (make_no_vote_msg p s) s.sent
              (headers_in-append (add64 s.round 1) s.sent (no_vote _ ∷ []) ∙ omega arith),
        )
        | inr voted ↦ (
          proposed p now next s,
          ground (arith, voted, l),
          headers_in-proposed now next s s.sent refl,
        )
      ]

  -- With the timer expired, the round certified as timed out, and parents, a primary that does not
  -- lead the next round proposes one header of it.
  pub propose-late :
      (now : ℕ) (next : PublicKey) (s : Proposer)
      → leader s.committee (add64 s.round 1) ≡ some next
      → (next == s.name) ≡ false
      → s.deadline ≤ now
      → s.last_timeout_cert.round ≡ s.round
      → is_empty s.last_parents ≡ false
      → (u : Proposer) × (propose p now s ≡ some u)
        × (headers_in (add64 s.round 1) u.sent ≡ headers_in (add64 s.round 1) s.sent + 1)
  unfolding propose is_ready make_timeout_msg time_out
  propose-late now next s l other late t e = elim (Bool-cases s.timeout_sent) [
    | inl old ↦
        let (u, eu, h) = advance-late now true next s l in
        (u, ground (arith, l, other, le→leb _ _ late, t, e, old, eu), h)
    | inr new ↦
        let (u, eu, h) = advance-late now true next (timed_out p s) l in
        (
          u,
          ground (arith, l, other, le→leb _ _ late, t, e, new, eu),
          h
              ∙ ap (λ n. n + 1)
                  (headers_in-append (add64 s.round 1) s.sent (timeout _ ∷ []) ∙ omega arith),
        )
  ]

  -- The state after parents of the current round have come to a proposer that has none.
  abbrev with_parents : PublicKey → List Certificate → Proposer → Proposer
  with_parents lead ps s =
      let found = find (λ x. origin x == lead) ps in
      record s { last_parents = ps; last_leader = found; advance = is_some found }

  turn-parents :
      (now : ℕ) (next lead : PublicKey) (ps : List Certificate) (s : Proposer)
      → leader s.committee (add64 s.round 1) ≡ some next
      → leader s.committee s.round ≡ some lead
      → leb s.deadline now ≡ false
      → turn p now (parents ps s.round) (record s { last_parents = [] })
        ≡ some (with_parents lead ps s)
  unfolding turn receive receive_parents update_leader
  turn-parents now next lead ps s l l' early =
      ground (arith, propose-idle now next (record s { last_parents = [] }) l early refl, l')

  turn-timeout_cert :
      (now : ℕ) (next : PublicKey) (t : TimeoutCert) (r : Round) (s : Proposer)
      → leader s.committee (add64 s.round 1) ≡ some next
      → leb s.deadline now ≡ false
      → is_empty s.last_parents ≡ true
      → s.last_timeout_cert.round < r
      → turn p now (timeout_cert t r) s ≡ some (record s { last_timeout_cert = t; round = r })
  unfolding turn receive receive_timeout_cert
  turn-timeout_cert now next t r s l early e late =
      ground (arith, propose-idle now next s l early e, lt→ltb _ _ late)

  -- A proposer has made a header of the round after `s.round`, without a timeout certificate. Before
  -- its timer expires, a timeout certificate of the round arrives, and then further parents of it.
  -- When the timer expires, and it does not lead the round, it makes a second header of the same round.
  pub proposes_again :
      (e1 e2 now now' : ℕ) (next : PublicKey) (t : TimeoutCert) (x : Certificate)
      (xs : List Certificate) (s : Proposer)
      → IsValid s.committee
      → 0 < committee_size s.committee
      → s.round + 2 < u64_mod
      → leader s.committee (add64 s.round 1) ≡ some next
      → (next == s.name) ≡ false
      → s.last_timeout_cert.round < s.round
      → t.round ≡ s.round
      → e1 < now + s.max_header_delay
      → e2 < now + s.max_header_delay
      → now + s.max_header_delay ≤ now'
      → (u v : Proposer) × (run p
            ((e1, timeout_cert t s.round) ∷ (e2, parents (x ∷ xs) s.round) ∷ [])
            (proposed p now next s)
          ≡ some u)
        × (propose p now' u ≡ some v)
        × (headers_in (add64 s.round 1) v.sent ≡ headers_in (add64 s.round 1) s.sent + 2)
  unfolding run
  proposes_again e1 e2 now now' next t x xs s valid pos small l other late et b1 b2 b3 =
      let (next', l2, _) = leader-some s.committee (add64 (add64 s.round 1) 1) valid pos in
      let (lead, l0, _) = leader-some s.committee s.round valid pos in
      let first : Proposer = proposed p now next s in
      let moved : Proposer = record first { last_timeout_cert = t; round = s.round } in
      let u = with_parents lead (x ∷ xs) moved in
      let (v, ev, hv) = propose-late now' next u l other b3 et refl in
      (
        u,
        v,
        ground (
          arith,
          turn-timeout_cert e1 next' t s.round first l2 (ground (arith, b1)) refl late,
          turn-parents e2 next lead (x ∷ xs) moved l l0 (ground (arith, b2)),
        ),
        ev,
        hv ∙ omega (arith, headers_in-proposed now next s s.sent refl),
      )
