-- ===== src/Worker/Synchronizer/Found.antt =====
-- What the loop of worker/src/synchronizer.rs over the digests of a request finds.
use sailfish_test.Prelude.{
  contains_key-insert, ℕ, ◌≡◌, refl, ◌∙◌, sym, ap, subst, inl, inr, List, [], ◌∷◌, Bool, true,
  false, not, ◌&&◌, ◌||◌, Option, none, some, arith, ◌==◌, if◌then◌else◌, contains, contains_key,
  Bool-cases, ==→eq, contains-append, Distinct, Distinct-snoc,
}
use sailfish_test.Crypto.{Digest}
use sailfish_test.Worker.{Bytes, Store, read}
use sailfish_test.Worker.Synchronizer.{Synchronizer, add_waiter, look, find_missing}

-- What the database says of a batch: that it has none, and that it answers at all.
abbrev pub says_absent : Option (Option Bytes) → Bool
says_absent none = false
says_absent (some none) = true
says_absent (some (some bytes)) = false

abbrev pub says_anything : Option (Option Bytes) → Bool
says_anything none = false
says_anything (some found) = true

abbrev pub is_absent : Store → Digest → Bool
is_absent s d = says_absent (read s d)

abbrev pub is_readable : Store → Digest → Bool
is_readable s d = says_anything (read s d)

-- What the loop over the digests leaves as it is, what it marks as pending, and what it finds missing.
pub record IsFound (ds missing : List Digest) (s : Synchronizer) (r : List Digest × Synchronizer)
    : Type 0 where
  pub store : r.1.store ≡ s.store
  pub committee : r.1.committee ≡ s.committee
  pub id : r.1.id ≡ s.id
  pub name : r.1.name ≡ s.name
  pub sent : r.1.sent ≡ s.sent
  pub pending :
      (d : Digest)
      → contains_key d r.1.pending
        ≡ (contains_key d s.pending || contains ds d && is_readable s.store d)
  pub asked :
      (d : Digest)
      → contains r.0 d ≡ (
          contains missing d
          || contains ds d && not (contains_key d s.pending) && is_absent s.store d)
  pub once :
      Distinct missing
      → ((d : Digest) → contains_key d s.pending ≡ false → contains missing d ≡ false)
      → Distinct r.0

pub nothing-IsFound : (missing : List Digest) (s : Synchronizer) → IsFound [] missing s (missing, s)
nothing-IsFound missing s = record {
  store = refl;
  committee = refl;
  id = refl;
  name = refl;
  sent = refl;
  pending = λ d. ground arith;
  asked = λ d. ground arith;
  once = λ u n. u;
}

pub old-IsFound :
    (x : Digest) (missing : List Digest) (s : Synchronizer)
    → contains_key x s.pending ≡ true
    → IsFound (x ∷ []) missing s (missing, s)
old-IsFound x missing s old = record {
  store = refl;
  committee = refl;
  id = refl;
  name = refl;
  sent = refl;
  pending = λ d. elim (Bool-cases (x == d)) [
    | inl same ↦ ground (arith, subst (λ i. contains_key i s.pending ≡ true) (==→eq x d same) old)
    | inr other ↦ ground (arith, other)
  ];
  asked = λ d. elim (Bool-cases (x == d)) [
    | inl same ↦ ground (arith, subst (λ i. contains_key i s.pending ≡ true) (==→eq x d same) old)
    | inr other ↦ ground (arith, other)
  ];
  once = λ u n. u;
}

-- The digest looked at, of which the database has said `r`.
pub Looked : Digest → Option (Option Bytes) → Synchronizer → Digest → Type 0
Looked x r s d = (x == d) ≡ true → (contains_key d s.pending ≡ false) × (read s.store d ≡ r)

pub looked :
    (x : Digest) (r : Option (Option Bytes)) (s : Synchronizer)
    → contains_key x s.pending ≡ false
    → read s.store x ≡ r
    → (d : Digest) → Looked x r s d
unfolding Looked
looked x r s new e d same =
    subst (λ i. (contains_key i s.pending ≡ false) × (read s.store i ≡ r)) (==→eq x d same) (new, e)

pub look-IsFound :
    (r : Option (Option Bytes)) (now : ℕ) (x : Digest) (missing : List Digest) (s : Synchronizer)
    → contains_key x s.pending ≡ false
    → read s.store x ≡ r
    → IsFound (x ∷ []) missing s (look r now x (missing, s))
unfolding look add_waiter Looked
look-IsFound none now x missing s new e = record {
  store = refl;
  committee = refl;
  id = refl;
  name = refl;
  sent = refl;
  pending = λ d. ground (arith, looked x none s new e d);
  asked = λ d. ground (arith, looked x none s new e d);
  once = λ u n. u;
}
look-IsFound (some none) now x missing s new e = record {
  store = refl;
  committee = refl;
  id = refl;
  name = refl;
  sent = refl;
  pending = λ d.
      ground
        (arith, looked x (some none) s new e d, contains_key-insert x d (s.round, now) s.pending);
  asked = λ d. ground (arith, looked x (some none) s new e d, contains-append missing (x ∷ []) d);
  once = λ u n. Distinct-snoc missing x u (n x new);
}
look-IsFound (some (some bytes)) now x missing s new e = record {
  store = refl;
  committee = refl;
  id = refl;
  name = refl;
  sent = refl;
  pending = λ d. ground (
    arith,
    looked x (some (some bytes)) s new e d,
    contains_key-insert x d (s.round, now) s.pending,
  );
  asked = λ d. ground (arith, looked x (some (some bytes)) s new e d);
  once = λ u n. u;
}

pub IsFound-first :
    (now : ℕ) (x : Digest) (missing : List Digest) (s : Synchronizer)
    → IsFound (x ∷ []) missing s (
        if contains_key x s.pending then (missing, s) else look (read s.store x) now x (missing, s))
IsFound-first now x missing s = elim (Bool-cases (contains_key x s.pending)) [
  | inl old ↦
      subst
        (λ b.
          IsFound (x ∷ []) missing s
            (if b then (missing, s) else look (read s.store x) now x (missing, s)))
        (sym old) (old-IsFound x missing s old)
  | inr new ↦
      subst
        (λ b.
          IsFound (x ∷ []) missing s
            (if b then (missing, s) else look (read s.store x) now x (missing, s)))
        (sym new) (look-IsFound (read s.store x) now x missing s new refl)
]

pub absent-readable : (o : Option (Option Bytes)) → says_absent o ≡ true → says_anything o ≡ true
absent-readable none h = cc
absent-readable (some found) h = refl

pub IsFound-then :
    (x : Digest) (ds missing : List Digest) (s : Synchronizer) (r r' : List Digest × Synchronizer)
    → IsFound (x ∷ []) missing s r
    → IsFound ds r.0 r.1 r'
    → IsFound (x ∷ ds) missing s r'
IsFound-then x ds missing s r r' f g = record {
  store = g.store ∙ f.store;
  committee = g.committee ∙ f.committee;
  id = g.id ∙ f.id;
  name = g.name ∙ f.name;
  sent = g.sent ∙ f.sent;
  pending = λ d. ground (arith, g.pending d, f.pending d, ap (λ t. is_readable t d) f.store);
  asked = λ d. ground (
    arith,
    g.asked d,
    f.asked d,
    f.pending d,
    ap (λ t. is_absent t d) f.store,
    absent-readable (read s.store d),
  );
  once = λ u n.
      g.once (f.once u n)
        (λ d h. ground (arith, h, f.asked d, f.pending d, n d, absent-readable (read s.store d)));
}

pub find_missing_lem :
    (now : ℕ) (ds missing : List Digest) (s : Synchronizer)
    → IsFound ds missing s (find_missing now ds (missing, s))
unfolding find_missing
find_missing_lem now [] missing s = nothing-IsFound missing s
find_missing_lem now (x ∷ ds) missing s =
    let r =
      if contains_key x s.pending then (missing, s) else look (read s.store x) now x (missing, s) in
    IsFound-then x ds missing s r (find_missing now ds r) (IsFound-first now x missing s)
      (find_missing_lem now ds r.0 r.1)
