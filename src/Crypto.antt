-- ===== src/Crypto.antt =====
-- crypto/src/lib.rs. A digest or a public key is an array of 32 bytes, modelled as the number that
-- the bytes spell with the most significant first, so that the derived order is that of numbers.
-- SHA-512 and ed25519 are third-party code: the fields of `Primitives`.
use sailfish_test.Prelude.{ℕ, List, [], ◌∷◌, ◌++◌, map, Bool, true, ◌&&◌, be_bytes}

abbrev pub Digest : Type 0
Digest = ℕ

abbrev pub PublicKey : Type 0
PublicKey = ℕ

pub record Signature : Type 0 where
  pub part1 : ℕ
  pub part2 : ℕ

-- `Default` of each type: arrays of zeros.
abbrev pub default_digest : Digest
default_digest = 0

abbrev pub default_signature : Signature
default_signature = record { part1 = 0; part2 = 0 }

-- `to_vec`, `as_ref`: the bytes.
abbrev pub to_vec : ℕ → List ℕ
to_vec = be_bytes 32

abbrev pub size : Digest → ℕ
size d = 32

abbrev pub flatten : Signature → List ℕ
flatten s = be_bytes 32 s.part1 ++ be_bytes 32 s.part2

-- What the program takes from its libraries, over bytes: the first half of SHA-512; the signature of
-- a digest by this node's secret key; whether a signature and a key decode; and the two checks.
pub record Primitives : Type 0 where
  pub sha512 : List ℕ → Digest
  pub sign : Digest → Signature
  pub signature_from_bytes : List ℕ → Bool
  pub key_from_bytes : List ℕ → Bool
  pub verify_strict : List ℕ → List ℕ → List ℕ → Bool
  pub dalek_verify_batch : List (List ℕ) → List (List ℕ) → List (List ℕ) → Bool

module _ (p : Primitives) where
  -- `Signature::verify`: `true` for `Ok`.
  unfoldable pub verify : Signature → Digest → PublicKey → Bool
  verify s digest key =
      p.signature_from_bytes (flatten s)
      && p.key_from_bytes (to_vec key)
      && p.verify_strict (to_vec key) (to_vec digest) (flatten s)

  -- The loop of `verify_batch` stops at the first signature or key that does not decode.
  unfoldable pub decodes : List (PublicKey × Signature) → Bool
  decodes [] = true
  decodes ((key, s) ∷ votes) =
      p.signature_from_bytes (flatten s) && p.key_from_bytes (to_vec key) && decodes votes

  -- `Signature::verify_batch`: every vote signs the same digest.
  unfoldable pub verify_batch : Digest → List (PublicKey × Signature) → Bool
  unfolding decodes
  verify_batch digest votes =
      decodes votes
      && p.dalek_verify_batch (map (λ v. to_vec digest) votes) (map (λ v. flatten v.1) votes)
          (map (λ v. to_vec v.0) votes)
