-- ===== src/Core/Circle.antt =====
-- The circle of calls between `process_vote`, `process_certificate` and `process_header` in
-- primary/src/core.rs, for a property that all handlers keep.
use sailfish_test.Prelude.{
  List, ℕ, suc, ◌≡◌, refl, sym, ◌∙◌, subst, [], ◌∷◌, ◌++◌, true, arith, set_insert, get, get-insert,
  unwrap_or, ==_refl, contains-set_insert,
}
use sailfish_test.Crypto.{Primitives}
use sailfish_test.Messages.{Header, Timeout, NoVoteMsg, Vote, Certificate}
use sailfish_test.Messages
use sailfish_test.Aggregators.{new_votes, TimeoutAggregator, NoVoteAggregator}
use sailfish_test.Core.{consensus_header, Codec, Core}
use sailfish_test.Core.Handlers.{
  store_entry, note_processing, note_voted, is_processing, process_header_with, process_vote_fuel,
  process_vote,
}
use sailfish_test.Core.Sound.{Sound, Sound-mono}
use sailfish_test.Core.Frame.{
  IsFrame, process_header_with-Sound, process_certificate_with-Sound, process_vote_with-Sound,
}

-- A property that all handlers keep.
pub record IsKept (Q : Core → Type 0) : Type 0 where
  pub frame : IsFrame Q
  pub notes : (k : Core) (h : Header) → Q k → Q (note_processing h k)
  pub proposes :
      (k : Core) (h : Header)
      → Q k
      → Q (record k { current_header = h; votes_aggregator = new_votes })
  pub times_out :
      (k : Core) (m : List (Messages.Round × TimeoutAggregator))
      → Q k
      → Q (record k { timeouts_aggregators = m })
  pub abstains :
      (k : Core) (m : List (Messages.Round × NoVoteAggregator))
      → Q k
      → Q (record k { no_vote_aggregators = m })

module _ (Q : Core → Type 0) (kept : IsKept Q) (p : Primitives) (b : Codec) where
  -- The current header, and that it is being processed.
  abbrev Circling : Header → Core → Type 0
  Circling h k = Q k × ((k.current_header ≡ h) × (is_processing p b h k ≡ true))

  Circling-IsFrame : (h : Header) → IsFrame (Circling h)
  unfolding store_entry note_voted
  Circling-IsFrame h = record {
    sends = λ k o e q. (kept.frame.sends k o e q.0, q.1);
    casts = λ k g v to may r a q. (unfold note_voted in kept.frame.casts k g v to may r a q.0, q.1);
    handles = λ k r l q. (kept.frame.handles k r l q.0, q.1);
    stores = λ k d v q. (kept.frame.stores k d v q.0, q.1);
    votes = λ k g q. (kept.frame.votes k g q.0, q.1);
    collects = λ k m q. (kept.frame.collects k m q.0, q.1);
    counts = λ k a q. (kept.frame.counts k a q.0, q.1);
  }

  abbrev Proposing : Header → Core → Type 0
  Proposing h k = Q k × (k.current_header ≡ h)

  Proposing-IsFrame : (h : Header) → IsFrame (Proposing h)
  unfolding store_entry note_voted
  Proposing-IsFrame h = record {
    sends = λ k o e q. (kept.frame.sends k o e q.0, q.1);
    casts = λ k g v to may r a q. (kept.frame.casts k g v to may r a q.0, q.1);
    handles = λ k r l q. (kept.frame.handles k r l q.0, q.1);
    stores = λ k d v q. (kept.frame.stores k d v q.0, q.1);
    votes = λ k g q. (kept.frame.votes k g q.0, q.1);
    collects = λ k m q. (kept.frame.collects k m q.0, q.1);
    counts = λ k a q. (kept.frame.counts k a q.0, q.1);
  }

  -- With the current header being processed, a vote goes no further than its certificate.
  vote-Circling :
      (n : ℕ) (h : Header) (v : Vote) (k : Core)
      → Circling h k
      → Sound (Circling h) (process_vote_fuel p b (suc n) v k)
  unfolding process_vote_fuel
  vote-Circling n h v k q =
      process_vote_with-Sound (Circling h) (Circling-IsFrame h) p b _ v k q (λ x k' made q'.
        process_certificate_with-Sound (Circling h) (Circling-IsFrame h) p b _ x k' q' (λ unknown.
          let known = subst (λ g. is_processing p b g k' ≡ true) (sym (made ∙ q.1.0)) q'.1.1 in
          absurd (cc (known, unknown))))

  noted : (h : Header) (k : Core) → is_processing p b h (note_processing h k) ≡ true
  unfolding note_processing
  noted h k =
      rw
        (get-insert h.round h.round (set_insert h.id (unwrap_or [] (get h.round k.processing)))
          k.processing)
        (rw (==_refl h.round)
          (ground (arith, contains-set_insert h.id h.id (unwrap_or [] (get h.round k.processing)))))

  header-Circling :
      (h : Header) (k : Core)
      → Q k
      → k.current_header ≡ h
      → Sound (Circling h) (process_header_with p b (process_vote_fuel p b 1) h k)
  header-Circling h k q e =
      process_header_with-Sound (Circling h) (Circling-IsFrame h) p b (process_vote_fuel p b 1)
        (vote-Circling 0 h) h k
        (
          kept.notes _ h (kept.frame.sends k _ refl q),
          (
            unfold note_processing in e,
            noted h (record k { sent = k.sent ++ consensus_header h ∷ [] }),
          ),
        )

  pub vote-Proposing :
      (h : Header) (v : Vote) (k : Core)
      → Proposing h k
      → Sound (Proposing h) (process_vote p b v k)
  unfolding process_vote process_vote_fuel
  vote-Proposing h v k q =
      process_vote_with-Sound (Proposing h) (Proposing-IsFrame h) p b _ v k q (λ x k' made q'.
        process_certificate_with-Sound (Proposing h) (Proposing-IsFrame h) p b _ x k' q' (λ unknown.
          Sound-mono (Circling x.header) (Proposing h) _ (λ k1 c. (c.0, c.1.0 ∙ made ∙ q.1))
            (header-Circling x.header k' q'.0 (q'.1 ∙ sym q.1 ∙ sym made))))
