-- ===== src/RunStore/Frame.antt =====
-- What finalizing the storage of a run leaves alone.
use simulation_core.Base.{◌≡◌, refl, ◌∙◌, Bool, true, false}
use simulation_core.RunStore.Record.{Kinds, RunRecord, LifecycleConfig}
use simulation_core.RunStore.{without_collector, without_candidate_data, finalize_run_storage}

module _ {k : Kinds} where
  without_collector-run : (b : Bool) (rec : RunRecord k) → (without_collector b rec).run ≡ rec.run
  without_collector-run true rec = refl
  without_collector-run false rec = refl

  without_candidate_data-run :
      (b : Bool) (rec : RunRecord k) → (without_candidate_data b rec).run ≡ rec.run
  without_candidate_data-run true rec = refl
  without_candidate_data-run false rec = refl

  pub finalize_run_storage-run :
      (cfg : LifecycleConfig) (rec : RunRecord k) → (finalize_run_storage cfg rec).run ≡ rec.run
  unfolding finalize_run_storage
  finalize_run_storage-run cfg rec =
      without_candidate_data-run _ (without_collector cfg.keep_collector_after_completion rec)
      ∙ without_collector-run cfg.keep_collector_after_completion rec
