-- ===== src/Consensus/Steps/Runs.antt =====
-- The runs of the main loop of consensus/src/lib.rs from its start.
use sailfish_test.Prelude.{
  ◌≡◌, refl, List, [], ◌∷◌, map, some, All, Distinct-keys-insert, All-insert, insert, keys,
}
use sailfish_test.Crypto.{PublicKey, Primitives}
use sailfish_test.Config.{Committee}
use sailfish_test.Messages.{
  Round, Header, Certificate, origin, certificate_digest, genesis, default_header,
}
use sailfish_test.Consensus.State.{Authors, collect, new_state}
use sailfish_test.Consensus.Steps.{Consensus, spawn, receive_header, receive_certificate}
use sailfish_test.Consensus.Steps.Keyed.{
  IsEntry, IsRow, IsKeyed, receive_certificate-IsKeyed, receive_header-IsKeyed,
}

module _ (p : Primitives) where
  collect-IsRow :
      (r : Round) (m l : Authors) → IsRow p r m → All (IsEntry p r) l → IsRow p r (collect m l)
  collect-IsRow r m [] i a = i
  collect-IsRow r m ((n, e) ∷ l) i a =
      collect-IsRow r (insert n e m) l
        (record {
          distinct = Distinct-keys-insert n e m i.distinct;
          entries = All-insert (IsEntry p r) n e m a.0 i.entries;
        })
        a.1

  genesis-entries :
      (names : List PublicKey)
      → All (IsEntry p 0) (
          map
            (λ x. (origin x, (certificate_digest p x, x)))
            (map
              (λ name. record { header = record default_header { author = name }; votes = [] })
              names))
  genesis-entries [] = tt
  genesis-entries (n ∷ names) = ((refl, refl, refl), genesis-entries names)

  spawn-IsKeyed : (c : Committee) (gc_depth : Round) → IsKeyed p (spawn p c gc_depth).state.dag
  unfolding spawn new_state genesis
  spawn-IsKeyed c gc_depth = (
    collect-IsRow 0 [] _ (record { distinct = tt; entries = tt })
        (genesis-entries (keys c.authorities)),
    tt,
  )

-- The runs of the main loop: certificates and headers in any order. A panic ends a run.
pub data Run (p : Primitives) (k : Consensus) : Consensus → Type 0 where
  start : Run p k k
  certificate :
      {k1 k2 : Consensus} (x : Certificate) (out : List Certificate)
      → Run p k k1
      → receive_certificate p x k1 ≡ some (k2, out)
      → Run p k k2
  header :
      {k1 k2 : Consensus} (h : Header) (out : List Certificate)
      → Run p k k1
      → receive_header h k1 ≡ some (k2, out)
      → Run p k k2

Run-keeps :
    (p : Primitives) (k : Consensus) {k' : Consensus}
    → IsKeyed p k.state.dag
    → Run p k k'
    → IsKeyed p k'.state.dag
Run-keeps p k i start = i
Run-keeps p k i (certificate x out r e) =
    receive_certificate-IsKeyed p x _ _ out (Run-keeps p k i r) e
Run-keeps p k i (header h out r e) = receive_header-IsKeyed p h _ _ out (Run-keeps p k i r) e

-- After any run of the main loop from its start, each round of the DAG has at most one certificate
-- of each author, under the key of its author and its own round, with the digest of the
-- certificate.
pub Run-IsKeyed :
    (p : Primitives) (c : Committee) (gc_depth : Round) (k : Consensus)
    → Run p (spawn p c gc_depth) k
    → IsKeyed p k.state.dag
Run-IsKeyed p c gc_depth k r = Run-keeps p (spawn p c gc_depth) (spawn-IsKeyed p c gc_depth) r
