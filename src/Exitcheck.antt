-- ===== src/Exitcheck.antt =====
-- cmd/staticlint/exitcheck.go: the analyzer that reports os.Exit in the function main of a package
-- main, over the part of a syntax tree of go/ast that it looks at.
pub mod Laws
use go_metrics.Common.{
  ℕ, String, Bool, true, false, Option, none, some, List, [], ◌∷◌, ◌++◌, leb, ◌==◌, ◌&&◌,
  if◌then◌else◌,
}

-- A called function: an identifier with a selector, or anything else. `object_package` is the path of
-- `TypesInfo.Uses[ident].Pkg()`, `none` where one of them is nil.
pub data Callee : Type 0 where
  selector : String → Option String → String → Callee
  other_callee : Callee

-- A node with its position and the nodes below it, in the order of ast.Inspect.
mutual
  pub data Node : Type 0 where
    call : Callee → ℕ → Nodes → Node
    other : Nodes → Node

  pub data Nodes : Type 0 where
    no_nodes : Nodes
    more_nodes : Node → Nodes → Nodes

-- A declaration: its name if it is that of a function or a method, where it begins and ends, and the
-- nodes in it.
pub record Decl : Type 0 where
  pub func_name : Option String
  pub pos : ℕ
  pub end : ℕ
  pub nodes : Nodes

pub record File : Type 0 where
  pub package_name : String
  pub decls : List Decl

pub record Call : Type 0 where
  pub callee : Callee
  pub pos : ℕ

-- The calls that ast.Inspect visits, in its order.
abbrev mutual
  pub calls_of : Node → List Call
  calls_of (call f pos below) = record { callee = f; pos = pos } ∷ calls_below below
  calls_of (other below) = calls_below below

  pub calls_below : Nodes → List Call
  calls_below no_nodes = []
  calls_below (more_nodes n ns) = calls_of n ++ calls_below ns

abbrev pub decl_calls : List Decl → List Call
decl_calls [] = []
decl_calls (d ∷ ds) = calls_below d.nodes ++ decl_calls ds

abbrev is_package_os : Option String → Bool
is_package_os none = false
is_package_os (some path) = path == "os"

unfoldable pub is_os_exit_call : Callee → Bool
is_os_exit_call other_callee = false
is_os_exit_call (selector ident object_package sel) =
    if is_package_os object_package && (sel == "Exit")
    then true
    else (ident == "os") && (sel == "Exit")

abbrev pub is_main : Decl → Bool
is_main d = elim d.func_name [ none ↦ false | some name ↦ name == "main" ]

unfoldable pub is_in_main_function : List Decl → ℕ → Bool
is_in_main_function [] pos = false
is_in_main_function (d ∷ ds) pos =
    let rest = is_in_main_function ds pos in
    if is_main d then if leb d.pos pos && leb pos d.end then true else rest else rest

-- The function that ast.Inspect calls on every node, and what is reported.
unfoldable pub report : List Decl → List Call → List ℕ
report ds [] = []
report ds (c ∷ cs) =
    let rest = report ds cs in
    if is_os_exit_call c.callee
    then if is_in_main_function ds c.pos then c.pos ∷ rest else rest
    else rest

unfoldable pub run : List File → List ℕ
run [] = []
run (f ∷ fs) =
    let rest = run fs in
    if f.package_name == "main" then report f.decls (decl_calls f.decls) ++ rest else rest
