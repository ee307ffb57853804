-- ===== src/Tests/Batches.antt =====
-- UpdatesHandler over the storage in memory.
use go_metrics.Common.{ℕ, ◌≡◌, refl, some, List, [], ◌∷◌, inl, All, arith, eq_iff}
use go_metrics.Models.{Metrics}
use go_metrics.Storage.{Result}
use go_metrics.Storage.Updates.{set_gauge, add_counter, Asks, nothing, more, update_of}
use go_metrics.Storage.Mem.{mem_storage, get_counter}
use go_metrics.Storage.Mem.Laws.{mem_storage-IsLawful}
use go_metrics.Http.{write_header}
use go_metrics.Hash.{calculate_hash}
use go_metrics.Strconv.{format_int}
use go_metrics.Handlers.{hash_data, bind, verify_metric_hash}
use go_metrics.Handlers.Updates.{
  updates_handler, update_all, unique_metrics, group_from, accepted_list,
}
use go_metrics.Handlers.Updates.Laws.{
  Carries, HasEffect, updates_handler-HasEffect, IsSigned, updates_handler-IsSigned,
}
use go_metrics.Tests.Setup.{batch, libraries, post, runtime, empty, storage_runs}

pub batch-Asks :
    Asks batch (add_counter "polls" 2 ∷ set_gauge "alloc" 7 ∷ add_counter "polls" 3 ∷ [])
unfolding update_of
batch-Asks = more refl (more refl (more refl nothing))

batch-Carries : Carries libraries "" (post "batch") batch
batch-Carries = record { json = refl; decoded = refl; present = cc; signed = inl refl }

polls_summed :
    get_counter "polls" (updates_handler libraries (mem_storage runtime) "" (post "batch") empty).1
    ≡ Result.ok 5
unfolding storage_runs updates_handler accepted_list update_all unique_metrics group_from
polls_summed = refl

updates_handler-HasEffect_example :
    ((updates_handler libraries (mem_storage runtime) "" (post "batch") empty).0.status ≡ some 200)
    × HasEffect
        (mem_storage runtime)
        (add_counter "polls" 2 ∷ set_gauge "alloc" 7 ∷ add_counter "polls" 3 ∷ [])
        empty
        (updates_handler libraries (mem_storage runtime) "" (post "batch") empty).1
updates_handler-HasEffect_example =
    updates_handler-HasEffect libraries (mem_storage runtime) "" (post "batch") empty batch _
      (mem_storage-IsLawful runtime) batch-Carries batch-Asks

signed_accepted :
    (updates_handler libraries (mem_storage runtime) "k" (post "signed") empty).0.status ≡ some 200
unfolding storage_runs updates_handler accepted_list update_all unique_metrics group_from
    verify_metric_hash hash_data format_int calculate_hash write_header
signed_accepted = refl

updates_handler-IsSigned_example :
    (ms : List (Metrics ℕ)) × (bind (post "signed").body libraries.decode_list ≡ some ms)
    × All (IsSigned libraries "k") ms
updates_handler-IsSigned_example =
    updates_handler-IsSigned libraries (mem_storage runtime) "k" (post "signed") empty
      (ground (arith, eq_iff "k" "")) (λ e. ground (arith, signed_accepted, e))
