-- ===== src/Consensus/Order.antt =====
-- `leader`, `linked`, `order_leaders` and `order_dag` of consensus/src/lib.rs.
pub mod Links
pub mod Support
pub mod Search
pub mod SubDag
use sailfish_test.Prelude.{
  ℕ, zero, suc, ◌+◌, ◌-◌, List, [], ◌∷◌, ◌++◌, map, Bool, true, false, ◌||◌, Option, none, some,
  add64, sub64, ◌==◌, leb, if◌then◌else◌, any, find, retain, length, contains, get, values,
}
use sailfish_test.Crypto.{Digest, PublicKey}
use sailfish_test.Config.{Committee}
use sailfish_test.Config
use sailfish_test.Messages.{Round, Certificate, round_of, origin, same_certificate}
use sailfish_test.Consensus.State.{Authors, Dag, State}

infixl 5 ◌>>=◌
abbrev pub ◌>>=◌ {ℓ κ} : {A : Type ℓ} {B : Type κ} → Option A → (A → Option B) → Option B
none >>= f = none
some a >>= f = f a

-- The entry of the leader of a round, if there is one. The outer `none` is the panic of an empty
-- committee.
unfoldable pub leader : Committee → Round → Dag → Option (Option (Digest × Certificate))
leader c round dag = do name ← Config.leader c round; some (get round dag >>= get name)

-- `n` rounds from `hi` downwards.
abbrev pub rounds_down : ℕ → Round → List Round
rounds_down zero hi = []
rounds_down (suc n) hi = hi ∷ rounds_down n (hi - 1)

-- The entries that some certificate of the list has as a parent.
abbrev pub is_parent_of : List Certificate → Digest → Bool
is_parent_of children d = any (λ x. contains x.header.parents d) children

abbrev pub referenced : List Certificate → Authors → List Certificate
referenced children authors =
    map (λ e. e.1) (retain (λ e. is_parent_of children e.0) (values authors))

unfoldable pub linked_loop : Dag → List Certificate → List Round → Option (List Certificate)
linked_loop dag parents [] = some parents
linked_loop dag parents (r ∷ rs) =
    get r dag >>= λ authors. linked_loop dag (referenced parents authors) rs

-- Whether there is a path between two leaders; a missing round is a panic.
unfoldable pub linked : Certificate → Certificate → Dag → Option Bool
linked top prev dag = do
  let hi = round_of top
  parents ← linked_loop dag (top ∷ []) (rounds_down (hi - round_of prev) (hi - 1))
  some (any (λ x. same_certificate x prev) parents)

unfoldable pub order_leaders_loop :
    Committee → Dag → Certificate → List Certificate → List Round → Option (List Certificate)
order_leaders_loop c dag top to_commit [] = some to_commit
order_leaders_loop c dag top to_commit (r ∷ rs) = leader c r dag >>= elim [
  | none ↦ order_leaders_loop c dag top to_commit rs
  | some (_, prev) ↦ linked top prev dag >>= elim [
    | true ↦ order_leaders_loop c dag prev (to_commit ++ prev ∷ []) rs
    | false ↦ order_leaders_loop c dag top to_commit rs
  ]
]

-- The past leaders that are not committed yet, the newest first.
unfoldable pub order_leaders : Committee → Certificate → State → Option (List Certificate)
order_leaders c top s =
    let lo = add64 s.last_committed_round 1 in
    let hi = sub64 (round_of top) 1 in
    order_leaders_loop c s.dag top (top ∷ []) (rounds_down (hi + 1 - lo) hi)

-- The entry with a digest among the certificates of a round.
abbrev pub find_digest : Digest → Option Authors → Option (Digest × Certificate)
find_digest d none = none
find_digest d (some authors) = find (λ e. e.0 == d) (values authors)

abbrev pub committed_at : Option Round → Round → Bool
committed_at none r = false
committed_at (some last) r = last == r

-- The buffer, its last element first, and the digests that were put into it.
pub record Walk : Type 0 where
  pub buffer : List Certificate
  pub already_ordered : List Digest

unfoldable pub visit_parent : State → Option (Digest × Certificate) → Walk → Walk
visit_parent s none w = w
visit_parent s (some (d, x)) w =
    if contains w.already_ordered d || committed_at (get (origin x) s.last_committed) (round_of x)
    then w
    else record { buffer = x ∷ w.buffer; already_ordered = d ∷ w.already_ordered }

unfoldable pub visit_parents : State → Round → List Digest → Walk → Walk
visit_parents s r [] w = w
visit_parents s r (d ∷ ds) w = visit_parents s r ds (visit_parent s (find_digest d (get r s.dag)) w)

-- The search, depth first; `none` if the fuel runs out.
unfoldable pub order_dag_loop :
    ℕ → State → List Certificate → List Digest → List Certificate → Option (List Certificate)
order_dag_loop fuel s [] seen ordered = some ordered
order_dag_loop zero s (x ∷ buffer) seen ordered = none
order_dag_loop (suc fuel) s (x ∷ buffer) seen ordered =
    let w =
      visit_parents s (sub64 (round_of x) 1) x.header.parents
        (record { buffer = buffer; already_ordered = seen }) in
    order_dag_loop fuel s w.buffer w.already_ordered (ordered ++ x ∷ [])

-- `sort_by_key` by the round, which is stable.
unfoldable pub insert_by_round : Certificate → List Certificate → List Certificate
insert_by_round x [] = x ∷ []
insert_by_round x (y ∷ ys) =
    let rest = insert_by_round x ys in
    if leb (round_of x) (round_of y) then x ∷ y ∷ ys else y ∷ rest

unfoldable pub sort_by_round : List Certificate → List Certificate
sort_by_round [] = []
sort_by_round (x ∷ xs) = insert_by_round x (sort_by_round xs)

-- The number of certificates in the DAG.
abbrev pub dag_size : Dag → ℕ
dag_size [] = 0
dag_size ((_, authors) ∷ rest) = length authors + dag_size rest

-- The sub-DAG of a leader, oldest round first, without what is garbage collected.
unfoldable pub order_dag : ℕ → Certificate → State → Option (List Certificate)
order_dag gc_depth top s = do
  ordered ← order_dag_loop (dag_size s.dag + 1) s (top ∷ []) [] []
  some (
      sort_by_round
        (retain (λ x. leb s.last_committed_round (add64 (round_of x) gc_depth)) ordered))
