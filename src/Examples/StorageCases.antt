-- ===== src/Examples/StorageCases.antt =====
-- The store of store/src/lib.rs over an association list, and the certificate waiter over it.
use sailfish_test.Prelude.{
  ◌≡◌, refl, List, [], ◌∷◌, ◌++◌, some, get, insert, get-insert, ==_refl, inr,
}
use sailfish_test.Messages.{Certificate}
use sailfish_test.Storage.{
  Key, Value, Database, StoreResult, StoreCommand, write, notify_read, Store, new_store, run,
}
use sailfish_test.Storage.Pending.{Keeps}
use sailfish_test.Storage.Resolves.{answers_to, answer_of, first_written, notify_read-resolves}
use sailfish_test.CertificateWaiter.{CertificateWaiter, receive, others, next}
use sailfish_test.CertificateWaiter.Delivery.{certificate_delivered}
use sailfish_test.Examples.Fixtures.{certificate_of}

abbrev database : Database
database = record { Db = List (Key × Value); put = insert; read = λ k d. StoreResult.ok (get k d) }

database-Keeps : Keeps database
database-Keeps = record {
  read_put = λ k v d. rw (get-insert k k v d, ==_refl k) refl;
  read_put_other = λ k j v d e. rw (get-insert k j v d, e) refl;
}

abbrev empty : Store database
empty = new_store database []

abbrev commands : List StoreCommand
commands = write 7 (2 ∷ []) ∷ write 5 (1 ∷ []) ∷ write 5 (3 ∷ []) ∷ []

notify_read-resolves_example :
    answers_to 0 (run database (notify_read 5 0 ∷ commands) empty).answers
    ≡ answers_to 0 empty.answers ++ answer_of (first_written 5 commands)
unfolding new_store
notify_read-resolves_example =
    notify_read-resolves database 0 5 commands empty (λ j. refl) refl refl

abbrev idle : CertificateWaiter database
idle = record { store = empty; next_channel = 0; waiting = []; sent = [] }

-- A certificate of round 2 whose only parent has the digest 5.
abbrev child : Certificate
child = certificate_of 1 2 30 (5 ∷ [])

certificate_delivered_example :
    (w : CertificateWaiter database) × (next database 0
        (others database commands (receive database child idle))
      ≡ some w)
    × (w.sent ≡ child ∷ [])
unfolding new_store
certificate_delivered_example =
    certificate_delivered database child commands idle
      (record { silent = λ s b. refl; idle = λ s b j. refl }) (λ s b. refl)
      (inr (refl, 1 ∷ [], refl), tt)
