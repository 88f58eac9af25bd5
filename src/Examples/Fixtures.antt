-- ===== src/Examples/Fixtures.antt =====
-- A committee of four authorities with one vote each, primitives that can be computed, and a small
-- DAG over both.
use sailfish_test.Prelude.{
  ℕ, ◌+◌, ◌*◌, ◌%◌, ◌≡◌, refl, List, [], ◌∷◌, ◌++◌, Bool, true, false, ◌&&◌, ◌==◌, ==_refl, u64_mod,
}
use sailfish_test.Crypto.{Digest, PublicKey, Primitives, to_vec, default_signature, verify}
use sailfish_test.Config.{Authority, Committee}
use sailfish_test.Messages.{Round, Header, Certificate, new_timeout_cert, new_no_vote_cert}
use sailfish_test.Messages.Digests.{SignsFor}

abbrev authority : ℕ → Authority
authority n = record {
  stake = 1;
  primary = record { primary_to_primary = n; worker_to_primary = 100 + n };
  workers =
      (
        0,
        record { transactions = 200 + n; worker_to_worker = 300 + n; primary_to_worker = 400 + n },
      )
      ∷ [];
}

abbrev pub committee : Committee
committee = record {
  authorities = (1, authority 1) ∷ (2, authority 2) ∷ (3, authority 3) ∷ (4, authority 4) ∷ [];
}

-- A hash that spells the bytes in base 31, modulo a word.
abbrev spell : ℕ → List ℕ → Digest
spell acc [] = acc
spell acc (x ∷ xs) = spell ((acc * 31 + x + 1) % u64_mod) xs

abbrev pub starts_with : List ℕ → List ℕ → Bool
starts_with xs [] = true
starts_with [] (y ∷ ys) = false
starts_with (x ∷ xs) (y ∷ ys) = x == y && starts_with xs ys

abbrev all_start : List (List ℕ) → List (List ℕ) → Bool
all_start [] ds = true
all_start (s ∷ ss) [] = false
all_start (s ∷ ss) (d ∷ ds) = starts_with s d && all_start ss ds

-- A signature repeats the digest in its first half, and both checks look at that.
abbrev pub primitives : Primitives
primitives = record {
  sha512 = spell 7;
  sign = λ d. record { part1 = d; part2 = 0 };
  signature_from_bytes = λ bytes. true;
  key_from_bytes = λ bytes. true;
  verify_strict = λ key digest signature. starts_with signature digest;
  dalek_verify_batch = λ digests signatures keys. all_start signatures digests;
}

starts_with-append : (xs ys : List ℕ) → starts_with (xs ++ ys) xs ≡ true
starts_with-append [] ys = refl
starts_with-append (x ∷ xs) ys = rw (==_refl x, starts_with-append xs ys)

pub signs : (name : PublicKey) → SignsFor primitives name
unfolding verify
signs name d = starts_with-append (to_vec d) (to_vec 0)

abbrev pub header_of : PublicKey → Round → Digest → List Digest → Header
header_of author round id parents = record {
  author = author;
  round = round;
  payload = [];
  parents = parents;
  id = id;
  signature = default_signature;
  timeout_cert = new_timeout_cert 0;
  no_vote_cert = new_no_vote_cert 0;
}

-- A certificate that stands in a DAG: its votes are not looked at there.
abbrev pub certificate_of : PublicKey → Round → Digest → List Digest → Certificate
certificate_of author round id parents = record {
  header = header_of author round id parents;
  votes = [];
}
