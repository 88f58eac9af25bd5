-- ===== src/Proposer/Rule.antt =====
-- What every turn of primary/src/proposer.rs keeps, from what its parts keep.
use sailfish_test.Prelude.{
  ℕ, ◌+◌, ◌≡◌, refl, inl, inr, List, [], ◌∷◌, Bool, true, false, not, ◌&&◌, some, add64, leb, ◌==◌,
  Bool-cases, Option-cases, subst, some_inj, arith, ap, ◌⊎◌, All, if◌then◌else◌,
}
use sailfish_test.Crypto.{PublicKey, Primitives}
use sailfish_test.Config.{leader}
use sailfish_test.Proposer.{
  Proposer, Event, header, emit, is_ready, header_by, make_header, make_no_vote_msg, time_out,
  advance_round, propose, receive, turn, run, make_timeout_msg, is_none,
}

All-trivial : (ts : List (ℕ × Event)) → All (λ t. Unit {0}) ts
All-trivial [] = tt
All-trivial (t ∷ ts) = (tt, All-trivial ts)

module _ (p : Primitives) where
  -- The state after a header of the next round, which `lead` leads, at a time.
  abbrev pub proposed : ℕ → PublicKey → Proposer → Proposer
  proposed now lead s =
      let t : Proposer = record s { round = add64 s.round 1 } in
      record (emit (header (header_by p lead t)) (record t { digests = []; last_parents = [] })) {
        payload_size = 0;
        deadline = now + s.max_header_delay;
        timeout_sent = false;
      }

  abbrev pub timed_out : Proposer → Proposer
  timed_out s = record (make_timeout_msg p s) { timeout_sent = true }

  time_out-cases :
      (b : Bool) (s : Proposer)
      → (time_out p b s ≡ s) ⊎ ((s.timeout_sent ≡ false) × (time_out p b s ≡ timed_out s))
  unfolding time_out
  time_out-cases false s = inl refl
  time_out-cases true s = elim (Bool-cases s.timeout_sent) [
    | inl old ↦ inl (go true old)
    | inr new ↦ inr (new, go false new)
  ]
    where
      go :
          (c : Bool)
          → s.timeout_sent ≡ c
          → (if not s.timeout_sent then timed_out s else s) ≡ (if not c then timed_out s else s)
      go c e = ap (λ c. if not c then timed_out s else s) e

  -- A predicate that the timeout, the no-vote message, the header and the arms of the `select` keep.
  pub record Rule (P : Proposer → Type 0) : Type 0 where
    pub timeouts : (s : Proposer) → P s → s.timeout_sent ≡ false → P (timed_out s)
    pub no_votes :
        (lead : PublicKey) (s : Proposer)
        → P s
        → leader s.committee (add64 s.round 1) ≡ some lead
        → (lead == s.name) ≡ false
        → P (make_no_vote_msg p s)
    pub headers :
        (now : ℕ) (lead : PublicKey) (s : Proposer)
        → P s
        → leader s.committee (add64 s.round 1) ≡ some lead
        → is_ready (leb s.deadline now) (lead == s.name) s ≡ true
        → P (proposed now lead s)

  module _ (P : Proposer → Type 0) (rule : Rule P) where
    kept-advance_round :
        (now : ℕ) (lead : PublicKey) (s s' : Proposer)
        → P s
        → leader s.committee (add64 s.round 1) ≡ some lead
        → is_ready (leb s.deadline now) (lead == s.name) s ≡ true
        → advance_round p now (leb s.deadline now) (lead == s.name) s ≡ some s'
        → P s'
    unfolding advance_round make_header is_ready make_no_vote_msg
    kept-advance_round now lead s s' h l r e =
        elim (Bool-cases (leb s.deadline now && is_none s.last_leader && not (lead == s.name))) [
          | inl silent ↦
              let e' : some (proposed now lead (make_no_vote_msg p s)) ≡ some s' =
                ground (arith, silent, l) in
              subst P (some_inj e') (
                rule.headers now lead (make_no_vote_msg p s)
                  (rule.no_votes lead s h l (ground (arith, silent))) l r)
          | inr voted ↦
              let e' : some (proposed now lead s) ≡ some s' = ground (arith, voted, l) in
              subst P (some_inj e') (rule.headers now lead s h l r)
        ]

    kept-settled :
        (now : ℕ) (lead : PublicKey) (b : Bool) (s s' : Proposer)
        → b ≡ leb s.deadline now
        → P s
        → leader s.committee (add64 s.round 1) ≡ some lead
        → (if is_ready b (lead == s.name) s
            then advance_round p now b (lead == s.name) s
            else some s)
          ≡ some s'
        → P s'
    kept-settled now lead b s s' eb h l e = elim (Bool-cases (is_ready b (lead == s.name) s)) [
      | inl ready ↦
          kept-advance_round now lead s s' h l (rw (← eb) ready) (rw (← eb) (ground (arith, ready)))
      | inr waits ↦ subst P (some_inj (ground (arith, waits))) h
    ]

    pub kept-propose : (now : ℕ) (s s' : Proposer) → P s → propose p now s ≡ some s' → P s'
    unfolding propose make_timeout_msg
    kept-propose now s s' h e = elim (Option-cases (leader s.committee (add64 s.round 1))) [
      | inl empty ↦ cc
      | inr (lead, l) ↦ elim (time_out-cases (leb s.deadline now) s) [
        | inl same ↦
            kept-settled now lead (leb s.deadline now) s s' refl h l (ground (arith, l, same))
        | inr (new, late) ↦
            kept-settled now lead (leb s.deadline now) (timed_out s) s' refl (rule.timeouts s h new)
              l (ground (arith, l, late))
      ]
    ]

    -- Where the events are as said.
    pub kept-run_where :
        (Q : Event → Type 0)
        → ((e : Event) (s s' : Proposer) → Q e → P s → receive e s ≡ some s' → P s')
        → (ts : List (ℕ × Event)) (s s' : Proposer) → All (λ t. Q t.1) ts
        → P s
        → run p ts s ≡ some s'
        → P s'
    unfolding run turn
    kept-run_where Q keep [] s s' q h e = subst P (some_inj e) h
    kept-run_where Q keep ((now, x) ∷ ts) s s' q h e = elim (Option-cases (propose p now s)) [
      | inl panics ↦ cc
      | inr (t, et) ↦ elim (Option-cases (receive x t)) [
        | inl panics ↦ cc
        | inr (u, eu) ↦
            kept-run_where Q keep ts u s' q.1 (keep x t u q.0 (kept-propose now s t h et) eu)
              (ground (arith, et, eu))
      ]
    ]

    pub kept-run :
        ((e : Event) (s s' : Proposer) → P s → receive e s ≡ some s' → P s')
        → (ts : List (ℕ × Event)) (s s' : Proposer) → P s
        → run p ts s ≡ some s'
        → P s'
    kept-run keep ts s s' h e =
        kept-run_where (λ e. Unit {0}) (λ e s s' q. keep e s s') ts s s' (All-trivial ts) h e
