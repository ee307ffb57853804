-- ===== src/Staticlint/Laws.antt =====
-- No analyzer is run twice.
use go_metrics.Common.{
  ℕ, Bool, true, false, ◌||◌, ◌≡◌, ◌≢◌, inl, inr, List, [], ◌∷◌, ◌++◌, All, Bool-cases, arith,
}
use go_metrics.Retry.Text.{codes, is_prefix}
use go_metrics.Staticlint.{Analyzers, has_class, append_if, fixed, main}

module _ {A : Type 0} (x : Analyzers A) where
  -- The names of a list of analyzers differ from each other.
  abbrev pub Unique : List A → Type 0
  Unique [] = Unit
  Unique (a ∷ l) = All (λ b. x.name a ≢ x.name b) l × Unique l

  All-append : (P : A → Type 0) (l m : List A) → All P l → All P m → All P (l ++ m)
  All-append P [] m p q = q
  All-append P (a ∷ l) m (h, p) q = (h, All-append P l m p q)

  All-append_if :
      (P : A → Type 0) (test : A → Bool) (l : List A) → All P l → All P (append_if x test l)
  All-append_if P test [] p = tt
  All-append_if P test (a ∷ l) (h, p) = elim (Bool-cases (test a)) [
    | inl e ↦ rw (append_if, e) (h, All-append_if P test l p)
    | inr e ↦ rw (append_if, e) (All-append_if P test l p)
  ]

  append_if-tested : (test : A → Bool) (l : List A) → All (λ a. test a ≡ true) (append_if x test l)
  append_if-tested test [] = tt
  append_if-tested test (a ∷ l) = elim (Bool-cases (test a)) [
    | inl e ↦ rw (append_if, e) (e, append_if-tested test l)
    | inr e ↦ rw (append_if, e) (append_if-tested test l)
  ]

  append_if-Unique : (test : A → Bool) (l : List A) → Unique l → Unique (append_if x test l)
  append_if-Unique test [] u = tt
  append_if-Unique test (a ∷ l) (h, u) = elim (Bool-cases (test a)) [
    | inl e ↦ rw (append_if, e) (All-append_if _ test l h, append_if-Unique test l u)
    | inr e ↦ rw (append_if, e) (append_if-Unique test l u)
  ]

  -- Every name of the first list differs from every name of the second.
  abbrev Apart : List A → List A → Type 0
  Apart l m = All (λ a. All (λ b. x.name a ≢ x.name b) m) l

  append-Unique : (l m : List A) → Unique l → Unique m → Apart l m → Unique (l ++ m)
  append-Unique [] m u v p = v
  append-Unique (a ∷ l) m (h, u) v (q, p) = (All-append _ l m h q, append-Unique l m u v p)

  -- No name is of the class SA and of another class that main adds.
  other_class :
      (letters : List ℕ)
      → is_prefix (codes "SA") letters ≡ true
      → (is_prefix (codes "S1") letters || is_prefix (codes "ST") letters) ≡ false
  unfolding is_prefix codes
  other_class [] e = cc
  other_class (c ∷ []) e = ground arith
  other_class (c ∷ d ∷ l) e = ground arith

  names_differ :
      (a b : A)
      → has_class x "SA" a ≡ true
      → (has_class x "S1" b || has_class x "ST" b) ≡ true
      → x.name a ≢ x.name b
  unfolding has_class
  names_differ a b p q e = cc (other_class (codes (x.name b)) (rw (← e) p), q)

  classes-Apart :
      (l m : List A)
      → All (λ a. has_class x "SA" a ≡ true) l
      → All (λ b. (has_class x "S1" b || has_class x "ST" b) ≡ true) m
      → Apart l m
  classes-Apart [] m p q = tt
  classes-Apart (a ∷ l) m (h, p) q = (all_differ m q, classes-Apart l m p q)
    where
      all_differ :
          (m : List A)
          → All (λ b. (has_class x "S1" b || has_class x "ST" b) ≡ true) m
          → All (λ b. x.name a ≢ x.name b) m
      all_differ [] q = tt
      all_differ (b ∷ m) (k, q) = (names_differ a b h k, all_differ m q)

  Apart-append_if : (test : A → Bool) (l m : List A) → Apart l m → Apart l (append_if x test m)
  Apart-append_if test [] m p = tt
  Apart-append_if test (a ∷ l) m (h, p) = (All-append_if _ test m h, Apart-append_if test l m p)

  Apart-append : (l m n : List A) → Apart l m → Apart l n → Apart l (m ++ n)
  Apart-append [] m n p q = tt
  Apart-append (a ∷ l) m n (h, p) (k, q) = (All-append _ m n h k, Apart-append l m n p q)

  -- The analyzers of staticcheck have names of their own, and so have the six others.
  pub record Named : Type 0 where
    pub fixed_names : Unique (fixed x)
    pub staticcheck_names : Unique x.staticcheck
    pub no_clash : Apart (fixed x) x.staticcheck

  -- If the six analyzers that are named and those of staticcheck have different names, no two of the
  -- analyzers that the tool runs have the same name, though it goes through those of staticcheck
  -- twice.
  pub main-Unique : Named → Unique (main x)
  unfolding main
  main-Unique n =
      let other : A → Bool = λ a. has_class x "S1" a || has_class x "ST" a in
      append-Unique (fixed x)
        (append_if x (has_class x "SA") x.staticcheck ++ append_if x other x.staticcheck)
        n.fixed_names
        (append-Unique (append_if x (has_class x "SA") x.staticcheck)
          (append_if x other x.staticcheck)
          (append_if-Unique (has_class x "SA") x.staticcheck n.staticcheck_names)
          (append_if-Unique other x.staticcheck n.staticcheck_names)
          (classes-Apart _ _ (append_if-tested (has_class x "SA") x.staticcheck)
            (append_if-tested other x.staticcheck)))
        (Apart-append (fixed x) _ _
          (Apart-append_if (has_class x "SA") (fixed x) x.staticcheck n.no_clash)
          (Apart-append_if other (fixed x) x.staticcheck n.no_clash))
