-- ===== src/Consensus/State/Sweep.antt =====
-- The cleanup loop in `State::update` of consensus/src/lib.rs.
use mathlib.Core.List.{Memᴰ}
use sailfish_test.Prelude.{
  ◌≡◌, refl, sym, subst, ap, inl, inr, List, [], ◌∷◌, map, Bool, true, false, not, ◌&&◌, ◌||◌,
  add64, ◌==◌, leb, All, retain, retain-All, All-retain, retain-Memᴰ, is_empty, Bool-cases,
}
use sailfish_test.Crypto.{Digest, PublicKey}
use sailfish_test.Messages.{Round, Certificate}
use sailfish_test.Consensus.State.{Authors, Dag, sweep_authors, sweep, cleanup}

abbrev pub Entry : Type 0
Entry = PublicKey × (Digest × Certificate)

-- An entry of a round is not below the committed round of its author.
abbrev pub is_open : PublicKey × Round → Round → PublicKey × (Digest × Certificate) → Bool
is_open c r e = not (e.0 == c.0) || leb c.1 r

abbrev pub AllOpen : PublicKey × Round → Dag → Type 0
AllOpen c dag = All (λ row. All (λ e. is_open c row.0 e ≡ true) row.1) dag

-- A round is neither empty nor past the garbage collection depth.
abbrev pub IsLive : Round → Round → Round × Authors → Type 0
IsLive gc_depth last row = (is_empty row.1 ≡ false) × (leb last (add64 row.0 gc_depth) ≡ true)

nonempty_of_Memᴰ : {A : Type 0} (x : A) (xs : List A) → Memᴰ x xs → is_empty xs ≡ false
nonempty_of_Memᴰ x [] m = elim m [ ]
nonempty_of_Memᴰ x (y ∷ xs) m = refl

Memᴰ-either :
    {A : Type 0} (x y : A) (xs ys : List A)
    → (Memᴰ x xs → Memᴰ x ys)
    → Memᴰ x (y ∷ xs)
    → Memᴰ x (y ∷ ys)
Memᴰ-either x y xs ys f (Memᴰ.head e) = Memᴰ.head e
Memᴰ-either x y xs ys f (Memᴰ.tail m) = Memᴰ.tail (f m)

Memᴰ_of_retain :
    {A : Type 0} (t : A → Bool) (xs : List A) (x : A) → Memᴰ x (retain t xs) → Memᴰ x xs
Memᴰ_of_retain t [] x m = m
Memᴰ_of_retain t (y ∷ xs) x m =
    let rest = Memᴰ_of_retain t xs x in
    elim (Bool-cases (t y)) [
      | inl keep ↦ Memᴰ-either x y (retain t xs) xs rest (rw keep at m)
      | inr drop ↦ Memᴰ.tail (rest (rw drop at m))
    ]

-- The entry is in the DAG.
abbrev pub Holds : Round → PublicKey × (Digest × Certificate) → Dag → Type 0
Holds r e dag = (es : Authors) × Memᴰ (r, es) dag × Memᴰ e es

module _ (gc_depth last : Round) where
  swept_rows : PublicKey → Round → Dag → Dag
  swept_rows name round dag = map (λ e. (e.0, sweep_authors name round e.0 e.1)) dag

  swept-AllOpen :
      (name : PublicKey) (round : Round) (dag : Dag)
      → AllOpen (name, round) (swept_rows name round dag)
  unfolding swept_rows sweep_authors
  swept-AllOpen name round [] = tt
  swept-AllOpen name round ((r, es) ∷ dag) =
      (retain-All (is_open (name, round) r) es, swept-AllOpen name round dag)

  swept-keeps :
      (c : PublicKey × Round) (name : PublicKey) (round : Round) (dag : Dag)
      → AllOpen c dag
      → AllOpen c (swept_rows name round dag)
  unfolding swept_rows sweep_authors
  swept-keeps c name round [] a = tt
  swept-keeps c name round ((r, es) ∷ dag) a = (
    All-retain (λ e. is_open c r e ≡ true) (is_open (name, round) r) es a.0,
    swept-keeps c name round dag a.1,
  )

  sweep-AllOpen :
      (name : PublicKey) (round : Round) (dag : Dag)
      → AllOpen (name, round) (sweep gc_depth last name round dag)
  unfolding sweep swept_rows
  sweep-AllOpen name round dag = All-retain _ _ _ (swept-AllOpen name round dag)

  sweep-keeps :
      (c : PublicKey × Round) (name : PublicKey) (round : Round) (dag : Dag)
      → AllOpen c dag
      → AllOpen c (sweep gc_depth last name round dag)
  unfolding sweep swept_rows
  sweep-keeps c name round dag a = All-retain _ _ _ (swept-keeps c name round dag a)

  pub cleanup-keeps :
      (c : PublicKey × Round) (l : List (PublicKey × Round)) (dag : Dag)
      → AllOpen c dag
      → AllOpen c (cleanup gc_depth last l dag)
  unfolding cleanup
  cleanup-keeps c [] dag a = a
  cleanup-keeps c ((name, round) ∷ l) dag a = cleanup-keeps c l _ (sweep-keeps c name round dag a)

  pub cleanup-AllOpen :
      (c : PublicKey × Round) (l : List (PublicKey × Round)) (dag : Dag)
      → Memᴰ c l
      → AllOpen c (cleanup gc_depth last l dag)
  unfolding cleanup
  cleanup-AllOpen c [] dag m = elim m [ ]
  cleanup-AllOpen c ((name, round) ∷ l) dag (Memᴰ.head e) = cleanup-keeps c l _ (
      subst (λ d. AllOpen d (sweep gc_depth last name round dag)) (sym e)
        (sweep-AllOpen name round dag))
  cleanup-AllOpen c ((name, round) ∷ l) dag (Memᴰ.tail m) = cleanup-AllOpen c l _ m

  retained-IsLive :
      (rows : Dag)
      → All
          (IsLive gc_depth last)
          (retain (λ e. not (is_empty e.1) && leb last (add64 e.0 gc_depth)) rows)
  retained-IsLive [] = tt
  retained-IsLive (row ∷ rows) = elim (Bool-cases (is_empty row.1)) [
    | inl gone ↦ rw gone (retained-IsLive rows)
    | inr full ↦ elim (Bool-cases (leb last (add64 row.0 gc_depth))) [
      | inl near ↦ rw (full, near) ((full, near), retained-IsLive rows)
      | inr far ↦ rw (full, far) (retained-IsLive rows)
    ]
  ]

  pub cleanup-IsLive :
      (c : PublicKey × Round) (l : List (PublicKey × Round)) (dag : Dag)
      → All (IsLive gc_depth last) (cleanup gc_depth last (c ∷ l) dag)
  unfolding cleanup sweep
  cleanup-IsLive (name, round) [] dag =
      retained-IsLive (map (λ e. (e.0, sweep_authors name round e.0 e.1)) dag)
  cleanup-IsLive (name, round) (d ∷ l) dag = cleanup-IsLive d l (sweep gc_depth last name round dag)

  swept-Holds :
      (name : PublicKey) (round r : Round) (e : Entry) (es : Authors) (dag : Dag)
      → Memᴰ (r, es) dag
      → Memᴰ (r, sweep_authors name round r es) (swept_rows name round dag)
  unfolding swept_rows
  swept-Holds name round r e es [] m = elim m [ ]
  swept-Holds name round r e es (row ∷ dag) (Memᴰ.head h) =
      Memᴰ.head (ap (λ t. (t.0, sweep_authors name round t.0 t.1)) h)
  swept-Holds name round r e es (row ∷ dag) (Memᴰ.tail m) =
      Memᴰ.tail (swept-Holds name round r e es dag m)

  sweep-Holds :
      (name : PublicKey) (round r : Round) (e : Entry) (dag : Dag)
      → is_open (name, round) r e ≡ true
      → leb last (add64 r gc_depth) ≡ true
      → Holds r e dag
      → Holds r e (sweep gc_depth last name round dag)
  unfolding sweep swept_rows
  sweep-Holds name round r e dag spared near (es, m, me) =
      let kept : Memᴰ e (sweep_authors name round r es) =
        unfold sweep_authors in retain-Memᴰ (is_open (name, round) r) es e me spared in
      (
        sweep_authors name round r es,
        retain-Memᴰ _ (swept_rows name round dag) (r, sweep_authors name round r es)
            (swept-Holds name round r e es dag m) (rw (nonempty_of_Memᴰ e _ kept, near)),
        kept,
      )

  pub cleanup-Holds :
      (l : List (PublicKey × Round)) (r : Round) (e : Entry) (dag : Dag)
      → All (λ c. is_open c r e ≡ true) l
      → leb last (add64 r gc_depth) ≡ true
      → Holds r e dag
      → Holds r e (cleanup gc_depth last l dag)
  unfolding cleanup
  cleanup-Holds [] r e dag a near h = h
  cleanup-Holds ((name, round) ∷ l) r e dag a near h =
      cleanup-Holds l r e _ a.1 near (sweep-Holds name round r e dag a.0 near h)

  Holds-of_swept :
      (name : PublicKey) (round r : Round) (e : Entry) (dag : Dag)
      → Holds r e (swept_rows name round dag)
      → Holds r e dag
  unfolding swept_rows sweep_authors
  Holds-of_swept name round r e [] (es, m, me) = elim m [ ]
  Holds-of_swept name round r e ((q, fs) ∷ dag) (es, Memᴰ.head h, me) = (
    fs,
    Memᴰ.head (ap (λ t. (t.0, fs)) h),
    Memᴰ_of_retain (is_open (name, round) q) fs e (subst (Memᴰ e) (ap (λ t. t.1) h) me),
  )
  Holds-of_swept name round r e (row ∷ dag) (es, Memᴰ.tail m, me) =
      let (gs, mg, meg) = Holds-of_swept name round r e dag (es, m, me) in (gs, Memᴰ.tail mg, meg)

  Holds-of_sweep :
      (name : PublicKey) (round r : Round) (e : Entry) (dag : Dag)
      → Holds r e (sweep gc_depth last name round dag)
      → Holds r e dag
  unfolding sweep swept_rows
  Holds-of_sweep name round r e dag (es, m, me) =
      Holds-of_swept name round r e dag (es, Memᴰ_of_retain _ _ (r, es) m, me)

  -- The cleanup adds nothing.
  pub Holds-of_cleanup :
      (l : List (PublicKey × Round)) (r : Round) (e : Entry) (dag : Dag)
      → Holds r e (cleanup gc_depth last l dag)
      → Holds r e dag
  unfolding cleanup
  Holds-of_cleanup [] r e dag h = h
  Holds-of_cleanup ((name, round) ∷ l) r e dag h =
      Holds-of_sweep name round r e dag
        (Holds-of_cleanup l r e (sweep gc_depth last name round dag) h)
