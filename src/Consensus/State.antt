-- ===== src/Consensus/State.antt =====
-- The state of consensus/src/lib.rs, `State::new` and `State::update`.
pub mod Sweep
pub mod Cleanup
use mathlib.Core.Option.{Option, none, some}
use Prim.Native.Nat.{max}
use sailfish_test.Prelude.{
  ℕ, List, [], ◌∷◌, map, Bool, not, ◌&&◌, ◌||◌, add64, ◌==◌, leb, unwrap_or, get, insert, values,
  retain, is_empty,
}
use sailfish_test.Crypto.{Digest, PublicKey, Primitives}
use sailfish_test.Messages.{Round, Certificate, round_of, origin, certificate_digest}

-- The certificates of a round, by their origin.
abbrev pub Authors : Type 0
Authors = List (PublicKey × (Digest × Certificate))

abbrev pub Dag : Type 0
Dag = List (Round × Authors)

pub record State : Type 0 where
  pub last_committed_round : Round
  pub last_committed : List (PublicKey × Round)
  pub dag : Dag

-- `collect` into a map: later entries replace earlier ones.
abbrev pub collect :
    {V : Type 0} → List (PublicKey × V) → List (PublicKey × V) → List (PublicKey × V)
collect m [] = m
collect m ((k, v) ∷ rest) = collect (insert k v m) rest

unfoldable pub new_state : Primitives → List Certificate → State
new_state p genesis =
    let authors : Authors =
      collect [] (map (λ x. (origin x, (certificate_digest p x, x))) genesis) in
    record {
      last_committed_round = 0;
      last_committed = collect [] (map (λ e. (e.0, round_of e.1.1)) authors);
      dag = (0, authors) ∷ [];
    }

-- The highest committed round of the author, or that of the certificate if it is higher.
abbrev pub raised : Option Round → Round → Round
raised none r = r
raised (some old) r = max old r

unfoldable pub note_commit : Certificate → List (PublicKey × Round) → List (PublicKey × Round)
note_commit x m = insert (origin x) (raised (get (origin x) m) (round_of x)) m

unfoldable pub max_value : List (PublicKey × Round) → Round
max_value [] = 0
max_value ((_, r) ∷ rest) = max r (max_value rest)

-- One round of the cleanup loop: what `name` made below `round` goes, and so do the rounds that are
-- empty or older than the garbage collection depth.
unfoldable pub sweep_authors : PublicKey → Round → Round → Authors → Authors
sweep_authors name round r authors = retain (λ e. not (e.0 == name) || leb round r) authors

unfoldable pub sweep : Round → Round → PublicKey → Round → Dag → Dag
unfolding sweep_authors
sweep gc_depth last name round dag =
    retain (λ e. not (is_empty e.1) && leb last (add64 e.0 gc_depth))
      (map (λ e. (e.0, sweep_authors name round e.0 e.1)) dag)

unfoldable pub cleanup : Round → Round → List (PublicKey × Round) → Dag → Dag
cleanup gc_depth last [] dag = dag
cleanup gc_depth last ((name, round) ∷ rest) dag =
    cleanup gc_depth last rest (sweep gc_depth last name round dag)

unfoldable pub update : Round → Certificate → State → State
update gc_depth x s =
    let last_committed = note_commit x s.last_committed in
    let last = max_value last_committed in
    record {
      last_committed_round = last;
      last_committed = last_committed;
      dag = cleanup gc_depth last last_committed s.dag;
    }
