-- ===== src/Tests/Managers.antt =====
-- The theorems on the manager, at a manager of two new bunkers.
use lumenos_hiper_v.Prelude.{false, ◌⊎◌, ◌≢◌, Ensures, some, [], ◌∷◌, ◌≡◌}
use lumenos_hiper_v.Types.{active}
use lumenos_hiper_v.Manager.{
  bunker_at, retire, DualBunkerManager, first, second, new_manager, start_session,
}
use lumenos_hiper_v.Manager.OneActive.{start, end, shutdown, after_calls, at_most_one_active}
use lumenos_hiper_v.Manager.Serving.{Serving, start_session-Serving, retire_outcome}
use lumenos_hiper_v.Tests.Fixtures.{test_env, test_config}

at_most_one_active_example :
    let m =
      (after_calls test_env
        (start ∷ start ∷ end ∷ shutdown "escape" ∷ [])
        (new_manager test_config "key1" "key2", 0)).0 in
    ¬ ((m.bunker1.state ≡ active) × (m.bunker2.state ≡ active))
at_most_one_active_example =
    at_most_one_active test_env test_config "key1" "key2"
      (start ∷ start ∷ end ∷ shutdown "escape" ∷ []) 0

abbrev serving : DualBunkerManager
serving =
    let m = new_manager test_config "key1" "key2" in
    record m {
      bunker1 = record m.bunker1 { state = active };
      active_bunker = some first;
      inactive_bunker = some second;
    }

start_session-Serving_example :
    Ensures
      (λ r t. (r ≡ false) ⊎ Serving test_env t.0)
      (λ _ _. Unit)
      (start_session test_env (new_manager test_config "key1" "key2", 0))
start_session-Serving_example =
    start_session-Serving test_env (new_manager test_config "key1" "key2") 0

retire_outcome_example :
    Ensures
      (λ r t. (r ≡ false) ⊎ ((bunker_at first t.0).state ≢ active))
      (λ _ _. ⊥)
      (retire test_env first (serving, 0))
retire_outcome_example = retire_outcome test_env first serving 0
