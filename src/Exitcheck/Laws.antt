-- ===== src/Exitcheck/Laws.antt =====
-- exitcheck.go: what is reported, by the structure of the tree and not by positions.
use go_metrics.Common.{
  ℕ, ◌≤◌, ◌<◌, ◌≡◌, refl, ap, ◌∙◌, inl, inr, true, false, List, [], ◌∷◌, ◌++◌, All, ◌==◌,
  if◌then◌else◌, arith, Bool-cases,
}
use go_metrics.Exitcheck.{
  Decl, File, Call, calls_below, decl_calls, is_os_exit_call, is_main, is_in_main_function, report,
  run,
}

-- The calls lie in their declaration, and declarations follow each other.
abbrev pub IsPlaced : List Decl → Type 0
IsPlaced [] = Unit
IsPlaced (d ∷ ds) =
    All (λ (c : Call). (d.pos ≤ c.pos) × (c.pos ≤ d.end)) (calls_below d.nodes)
    × All (λ (e : Decl). d.end < e.pos) ds
    × IsPlaced ds

-- The positions of the calls of os.Exit among some calls, and in the declarations named main.
abbrev pub exits : List Call → List ℕ
exits [] = []
exits (c ∷ cs) = if is_os_exit_call c.callee then c.pos ∷ exits cs else exits cs

abbrev pub exits_in_main : List Decl → List ℕ
exits_in_main [] = []
exits_in_main (d ∷ ds) =
    if is_main d then exits (calls_below d.nodes) ++ exits_in_main ds else exits_in_main ds

abbrev pub exits_in_files : List File → List ℕ
exits_in_files [] = []
exits_in_files (f ∷ fs) =
    if f.package_name == "main"
    then exits_in_main f.decls ++ exits_in_files fs
    else exits_in_files fs

-- A position in `d` is in a function main exactly if `d` is one.
abbrev Locates : List Decl → Decl → Type 0
Locates all d = (p : ℕ) → d.pos ≤ p → p ≤ d.end → is_in_main_function all p ≡ is_main d

no_main_before :
    (ds : List Decl) (p : ℕ) → All (λ (e : Decl). p < e.pos) ds → is_in_main_function ds p ≡ false
unfolding is_in_main_function
no_main_before [] p h = refl
no_main_before (d ∷ ds) p (h, hs) = ground (arith, no_main_before ds p hs)

All-map {ℓ κ μ} :
    {A : Type ℓ} {P : A → Type κ} {Q : A → Type μ}
    → ((a : A) → P a → Q a)
    → (l : List A) → All P l
    → All Q l
All-map f [] h = tt
All-map f (a ∷ l) (h, hs) = (f a h, All-map f l hs)

Locates-head :
    (d : Decl) (ds : List Decl) → All (λ (e : Decl). d.end < e.pos) ds → Locates (d ∷ ds) d
unfolding is_in_main_function
Locates-head d ds h p low high =
    let rest : is_in_main_function ds p ≡ false =
      no_main_before ds p (All-map (λ e below. omega (arith, below, high)) ds h) in
    ground (arith, rest, low, high)

Locates-tail : (d e : Decl) (ds : List Decl) → d.end < e.pos → Locates ds e → Locates (d ∷ ds) e
unfolding is_in_main_function
Locates-tail d e ds h locates p low high = ground (arith, locates p low high, h, low)

Locates-tails :
    (d : Decl) (ds es : List Decl)
    → All (λ (e : Decl). d.end < e.pos) es
    → All (Locates ds) es
    → All (Locates (d ∷ ds)) es
Locates-tails d ds [] h ls = tt
Locates-tails d ds (e ∷ es) (h, hs) (l, ls) = (Locates-tail d e ds h l, Locates-tails d ds es hs ls)

Locates-decls : (ds : List Decl) → IsPlaced ds → All (Locates ds) ds
Locates-decls [] h = tt
Locates-decls (d ∷ ds) (_, after, placed) =
    (Locates-head d ds after, Locates-tails d ds ds after (Locates-decls ds placed))

report-append :
    (ds : List Decl) (cs es : List Call) → report ds (cs ++ es) ≡ report ds cs ++ report ds es
unfolding report
report-append ds [] es = refl
report-append ds (c ∷ cs) es = elim (Bool-cases (is_os_exit_call c.callee)) [
  | inr other_call ↦ rw (report, other_call) (report-append ds cs es)
  | inl exit ↦ elim (Bool-cases (is_in_main_function ds c.pos)) [
    | inr outside ↦ rw (report, exit, outside) (report-append ds cs es)
    | inl inside ↦ rw (report, exit, inside) (ap (λ l. c.pos ∷ l) (report-append ds cs es))
  ]
]

module _ (all : List Decl) (d : Decl) (locates : Locates all d) where
  abbrev Inside : Call → Type 0
  Inside c = (d.pos ≤ c.pos) × (c.pos ≤ d.end)

  report-main : (cs : List Call) → is_main d ≡ true → All Inside cs → report all cs ≡ exits cs
  unfolding report
  report-main [] m h = refl
  report-main (c ∷ cs) m ((low, high), hs) = elim (Bool-cases (is_os_exit_call c.callee)) [
    | inr other_call ↦ rw (report, other_call) (report-main cs m hs)
    | inl exit ↦
        rw (report, exit, locates c.pos low high, m) (ap (λ l. c.pos ∷ l) (report-main cs m hs))
  ]

  report-other : (cs : List Call) → is_main d ≡ false → All Inside cs → report all cs ≡ []
  unfolding report
  report-other [] m h = refl
  report-other (c ∷ cs) m ((low, high), hs) = elim (Bool-cases (is_os_exit_call c.callee)) [
    | inr other_call ↦ rw (report, other_call) (report-other cs m hs)
    | inl exit ↦ rw (report, exit, locates c.pos low high, m) (report-other cs m hs)
  ]

report_decls :
    (all ds : List Decl)
    → All (Locates all) ds
    → IsPlaced ds
    → report all (decl_calls ds) ≡ exits_in_main ds
unfolding report
report_decls all [] ls h = refl
report_decls all (d ∷ ds) (l, ls) (inside, _, placed) =
    let rest = report_decls all ds ls placed in
    report-append all (calls_below d.nodes) (decl_calls ds) ∙ elim (Bool-cases (is_main d)) [
      | inl m ↦ rw (m, report-main all d l (calls_below d.nodes) m inside, rest) refl
      | inr m ↦ rw (m, report-other all d l (calls_below d.nodes) m inside, rest) refl
    ]

-- In files whose declarations follow each other and have their calls in them, what is reported are
-- the calls that are taken for os.Exit in the declarations of functions and methods named main, in
-- the files of packages named main, each once and in the order of the files.
pub run-exits_in_files :
    (fs : List File) → All (λ (f : File). IsPlaced f.decls) fs → run fs ≡ exits_in_files fs
unfolding run
run-exits_in_files [] h = refl
run-exits_in_files (f ∷ fs) (h, hs) =
    let here = report_decls f.decls f.decls (Locates-decls f.decls h) h in
    elim (Bool-cases (f.package_name == "main")) [
      | inl m ↦ rw (run, m, here, run-exits_in_files fs hs) refl
      | inr m ↦ rw (run, m) (run-exits_in_files fs hs)
    ]
