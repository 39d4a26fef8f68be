-- ===== src/RunStore/Listing/Examples.antt =====
-- The theorem about listings, for a sort by insertion and a map ranged over backwards.
use mathlib.Core.List.{Perm, reverse}
use mathlib.Core.List.Perm
use simulation_core.Base.{
  ℕ, ◌≤◌, ◌≡◌, refl, Bool, false, true, String, List, [], ◌∷◌, some, All, if◌then◌else◌, leb,
}
use simulation_core.Base.Int.{pos}
use simulation_core.RunStore.{RunStore}
use simulation_core.RunStore.Record.{Kinds, RunStatus, RunRecord, completed, running}
use simulation_core.RunStore.Start.{new_record}
use simulation_core.RunStore.Listing.{list_filtered}

abbrev kinds : Kinds
kinds = record { Input = Bool; Metrics = ℕ; Collector = ℕ; Step = ℕ; Config = ℕ; Score = ℕ }

abbrev insert_record : RunRecord kinds → List (RunRecord kinds) → List (RunRecord kinds)
insert_record x [] = x ∷ []
insert_record x (y ∷ ys) =
    let later = insert_record x ys in
    if leb y.run.created_at x.run.created_at then x ∷ y ∷ ys else y ∷ later

abbrev newest_sort : List (RunRecord kinds) → List (RunRecord kinds)
newest_sort [] = []
newest_sort (x ∷ xs) = insert_record x (newest_sort xs)

abbrev UpTo : ℕ → List (RunRecord kinds) → Type 0
UpTo t = All (λ (rec : RunRecord kinds). rec.run.created_at ≤ t)

abbrev record_of : String → ℕ → RunStatus → RunRecord kinds
record_of id created status =
    let rec : RunRecord kinds = new_record {k = kinds} id created false (some true) in
    record rec { run = record rec.run { status = status } }

abbrev store : RunStore kinds
store = record {
  runs =
      ("a", record_of "a" 2 completed)
      ∷ ("b", record_of "b" 3 running)
      ∷ ("c", record_of "c" 9 completed)
      ∷ ("d", record_of "d" 5 completed)
      ∷ [];
  max_concurrent_online_runs = 1;
  lifecycle = record {
    ttl = 5000000;
    cleanup_interval = 60000000000;
    max_terminal_runs = 1;
    max_optimization_candidates = 2;
    keep_collector_after_completion = false;
    keep_candidate_input_after_cleanup = false;
  };
}

-- The second of the three completed runs, by age.
shown_example :
    list_filtered (λ runs. reverse runs) newest_sort store (pos 1) (pos 1) completed
    ≡ record_of "d" 5 completed ∷ []
unfolding list_filtered
shown_example = refl
