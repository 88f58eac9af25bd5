-- ===== src/Storage.antt =====
-- store/src/lib.rs: the task that owns the database. Keys are numbers that stand for their bytes.
-- RocksDB is third-party code: the fields of `Database`. The channels of the store stay open.
pub mod Resolves
pub mod Pending
use sailfish_test.Prelude.{
  ℕ, List, [], ◌∷◌, ◌++◌, map, not, Option, none, some, ◌==◌, retain, get, insert, unwrap_or,
}

abbrev pub Key : Type 0
Key = ℕ

abbrev pub Value : Type 0
Value = List ℕ

-- `StoreResult`; what a failure says is not modelled.
pub data StoreResult (A : Type 0) : Type 0 where
  ok : A → StoreResult A
  err : StoreResult A

pub record Database : Type 1 where
  pub Db : Type 0
  -- The result of `put` is thrown away.
  pub put : Key → Value → Db → Db
  pub read : Key → Db → StoreResult (Option Value)

-- The end of a oneshot channel on which the answer is awaited.
abbrev pub Sender : Type 0
Sender = ℕ

pub data StoreCommand : Type 0 where
  write : Key → Value → StoreCommand
  read : Key → Sender → StoreCommand
  notify_read : Key → Sender → StoreCommand

pub data Answer : Type 0 where
  to_read : StoreResult (Option Value) → Answer
  to_notify_read : StoreResult Value → Answer

module _ (D : Database) where
  pub record Store : Type 0 where
    pub db : D.Db
    pub obligations : List (Key × List Sender)
    -- The answers given so far, the oldest first.
    pub answers : List (Sender × Answer)

  -- `Store::new` with a database that is open.
  unfoldable pub new_store : D.Db → Store
  new_store db = record { db = db; obligations = []; answers = [] }

  abbrev answer : Sender → Answer → Store → Store
  answer s a st = record st { answers = st.answers ++ (s, a) ∷ [] }

  -- The `while let` over the senders of a key, from the front.
  unfoldable pub answer_all : List Sender → Value → Store → Store
  answer_all [] v st = st
  answer_all (s ∷ senders) v st =
      answer_all senders v (answer s (to_notify_read (StoreResult.ok v)) st)

  -- The obligations of a key are removed, and met with its value.
  unfoldable pub serve : Option (List Sender) → Key → Value → Store → Store
  unfolding answer_all
  serve none k v st = st
  serve (some senders) k v st =
      answer_all senders v (record st { obligations = retain (λ e. not (e.0 == k)) st.obligations })

  unfoldable pub on_write : Key → Value → Store → Store
  unfolding serve
  on_write k v st = serve (get k st.obligations) k v (record st { db = D.put k v st.db })

  -- An answer at once, or an obligation.
  unfoldable pub oblige : StoreResult (Option Value) → Key → Sender → Store → Store
  oblige (StoreResult.ok none) k s st = record st {
    obligations = insert k (unwrap_or [] (get k st.obligations) ++ s ∷ []) st.obligations;
  }
  oblige (StoreResult.ok (some v)) k s st = answer s (to_notify_read (StoreResult.ok v)) st
  oblige StoreResult.err k s st = answer s (to_notify_read StoreResult.err) st

  unfoldable pub on_notify_read : Key → Sender → Store → Store
  unfolding oblige
  on_notify_read k s st = oblige (D.read k st.db) k s st

  unfoldable pub step : StoreCommand → Store → Store
  unfolding on_write on_notify_read
  step (write k v) st = on_write k v st
  step (read k s) st = answer s (to_read (D.read k st.db)) st
  step (notify_read k s) st = on_notify_read k s st

  unfoldable pub run : List StoreCommand → Store → Store
  unfolding step
  run [] st = st
  run (c ∷ cs) st = run cs (step c st)
