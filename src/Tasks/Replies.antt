-- ===== src/Tasks/Replies.antt =====
-- What primary/src/helper.rs sends for a request.
use sailfish_test.Prelude.{◌≡◌, List, false, some, get}
use sailfish_test.Crypto.{Digest}
use sailfish_test.Config
use sailfish_test.Messages.{Certificate}
use sailfish_test.Core.{Codec, Bytes, Store}

module _ (b : Codec) where
  -- The store holds the certificate under the digest.
  abbrev pub Holds : Store → Digest → Certificate → Type 0
  Holds s d x =
      (s.broken ≡ false)
      × (bytes : Bytes) × (get d s.entries ≡ some bytes)
      × (b.deserialize_certificate bytes ≡ some x)
