-- ===== src/Config.antt =====
-- config/src/lib.rs: the committee, its stakes, thresholds, leaders and addresses. `SocketAddr` is a
-- number that stands for the address. Reading and writing the configuration files is not modelled.
pub mod Stakes
pub mod Overlap
pub mod Leaders
use sailfish_test.Prelude.{
  ℕ, ◌+◌, ◌*◌, ◌/◌, ◌%◌, List, [], ◌∷◌, map, Bool, true, false, not, Option, none, some, u32_mod,
  add32, ◌==◌, if◌then◌else◌, length, get_elem?, find, retain, get, keys, values, leb,
}
use sailfish_test.Crypto.{PublicKey}

abbrev pub Stake : Type 0
Stake = ℕ

abbrev pub WorkerId : Type 0
WorkerId = ℕ

abbrev pub SocketAddr : Type 0
SocketAddr = ℕ

pub data ConfigError : Type 0 where
  not_in_committee : PublicKey → ConfigError
  unknown_worker : WorkerId → ConfigError

pub data ConfigResult (A : Type 0) : Type 0 where
  ok : A → ConfigResult A
  err : ConfigError → ConfigResult A

pub record PrimaryAddresses : Type 0 where
  pub primary_to_primary : SocketAddr
  pub worker_to_primary : SocketAddr

pub record WorkerAddresses : Type 0 where
  pub transactions : SocketAddr
  pub worker_to_worker : SocketAddr
  pub primary_to_worker : SocketAddr

pub record Authority : Type 0 where
  pub stake : Stake
  pub primary : PrimaryAddresses
  pub workers : List (WorkerId × WorkerAddresses)

-- The authorities in the order of their keys, as the `BTreeMap` holds them.
pub record Committee : Type 0 where
  pub authorities : List (PublicKey × Authority)

abbrev pub cft : Bool
cft = false

infixl 5 ◌>>=◌
abbrev ◌>>=◌ : {A B : Type 0} → ConfigResult A → (A → ConfigResult B) → ConfigResult B
ok a >>= f = f a
err e >>= f = err e

abbrev ok_or : {A : Type 0} → Option A → ConfigError → ConfigResult A
ok_or none e = err e
ok_or (some a) e = ok a

unfoldable pub committee_size : Committee → ℕ
committee_size c = length c.authorities

abbrev stake_of : Option Authority → Stake
stake_of none = 0
stake_of (some a) = a.stake

-- The voting power of an authority; 0 for a stranger.
unfoldable pub stake : Committee → PublicKey → Stake
stake c name = stake_of (get name c.authorities)

abbrev others : Committee → PublicKey → List (PublicKey × Authority)
others c myself = retain (λ e. not (e.0 == myself)) c.authorities

pub others_stake : Committee → PublicKey → List (PublicKey × Stake)
others_stake c myself = map (λ e. (e.0, e.1.stake)) (others c myself)

-- `Iterator::sum` over `u32`.
unfoldable pub sum32 : List ℕ → ℕ
sum32 [] = 0
sum32 (x ∷ xs) = add32 x (sum32 xs)

unfoldable pub total_votes : Committee → Stake
unfolding sum32
total_votes c = sum32 (map (λ a. a.stake) (values c.authorities))

-- 2f + 1 out of 3f + 1; the branch for crash faults is compiled out by the constant.
unfoldable pub quorum_threshold : Committee → Stake
quorum_threshold c =
    if cft then add32 (total_votes c) 2 / 2 else add32 (2 * total_votes c % u32_mod / 3) 1

-- f + 1 out of 3f + 1.
unfoldable pub validity_threshold : Committee → Stake
validity_threshold c = if cft then add32 (total_votes c) 2 / 2 else add32 (total_votes c) 2 / 3

unfoldable pub insert_sorted : PublicKey → List PublicKey → List PublicKey
insert_sorted a [] = a ∷ []
insert_sorted a (x ∷ xs) = let rest = insert_sorted a xs in if leb a x then a ∷ x ∷ xs else x ∷ rest

unfoldable pub sort : List PublicKey → List PublicKey
unfolding insert_sorted
sort [] = []
sort (x ∷ xs) = insert_sorted x (sort xs)

-- The leader in a round-robin over the sorted keys. `none` is the panic of an empty committee,
-- where the remainder by `size()` is a division by zero.
unfoldable pub leader : Committee → ℕ → Option PublicKey
unfolding sort committee_size
leader c seed =
    if committee_size c == 0
    then none
    else get_elem? (sort (keys c.authorities)) (seed % committee_size c)

unfoldable pub primary : Committee → PublicKey → ConfigResult PrimaryAddresses
primary c to = do a ← ok_or (get to c.authorities) (not_in_committee to); ok a.primary

pub others_primaries : Committee → PublicKey → List (PublicKey × PrimaryAddresses)
others_primaries c myself = map (λ e. (e.0, e.1.primary)) (others c myself)

unfoldable pub worker : Committee → PublicKey → WorkerId → ConfigResult WorkerAddresses
worker c to id = do
  a ← ok_or (find (λ e. e.0 == to) c.authorities) (not_in_committee to)
  w ← ok_or (find (λ e. e.0 == id) a.1.workers) (not_in_committee to)
  ok w.1

unfoldable pub our_workers : Committee → PublicKey → ConfigResult (List WorkerAddresses)
our_workers c myself = do
  a ← ok_or (find (λ e. e.0 == myself) c.authorities) (not_in_committee myself)
  ok (values a.1.workers)

with_id : WorkerId → List (PublicKey × Authority) → List (PublicKey × WorkerAddresses)
with_id id [] = []
with_id id ((name, a) ∷ rest) = elim (find (λ e. e.0 == id) a.workers) [
  | none ↦ with_id id rest
  | some w ↦ (name, w.1) ∷ with_id id rest
]

pub others_workers : Committee → PublicKey → WorkerId → List (PublicKey × WorkerAddresses)
unfolding with_id
others_workers c myself id = with_id id (others c myself)
