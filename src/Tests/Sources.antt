-- ===== src/Tests/Sources.antt =====
-- A file with os.Exit in main and in another function.
use go_metrics.Common.{ℕ, String, ◌≡◌, refl, none, some, [], ◌∷◌, arith}
use go_metrics.Exitcheck.{
  selector, call, other, Nodes, no_nodes, more_nodes, Decl, File, is_os_exit_call,
  is_in_main_function, report, run,
}
use go_metrics.Exitcheck.Laws.{exits_in_files, run-exits_in_files}

abbrev exit_at : ℕ → Nodes
exit_at pos =
    more_nodes (other (more_nodes (call (selector "os" none "Exit") pos no_nodes) no_nodes))
      no_nodes

abbrev function : String → ℕ → ℕ → ℕ → Decl
function name pos at end = record {
  func_name = some name;
  pos = pos;
  end = end;
  nodes = exit_at at;
}

abbrev file : File
file = record {
  package_name = "main";
  decls = function "usage" 10 15 20 ∷ function "main" 30 35 40 ∷ [];
}

exit_found : run (file ∷ []) ≡ 35 ∷ []
unfolding run report is_os_exit_call is_in_main_function
exit_found = refl

run-exits_in_files_example : run (file ∷ []) ≡ exits_in_files (file ∷ [])
run-exits_in_files_example = run-exits_in_files (file ∷ []) (
  (((omega arith, omega arith), tt), (omega arith, tt), (((omega arith, omega arith), tt), tt, tt)),
  tt,
)
