-- ===== src/Tests/Runs.antt =====
-- Whole lives of a bunker, computed.
use lumenos_hiper_v.Prelude.{true, none, ◌≡◌, refl, ok, ◌>>◌, lookup, insert}
use lumenos_hiper_v.Types.{ready}
use lumenos_hiper_v.Hypervisor.Mock.{mock_backend}
use lumenos_hiper_v.Layers
use lumenos_hiper_v.Monitoring.Integrity.{verify_all, set_baseline}
use lumenos_hiper_v.Decontamination.{
  run, sign_report, decontamination_steps, current_component_hashes,
}
use lumenos_hiper_v.Bunker.{new_bunker}
use lumenos_hiper_v.Bunker.Init.{initialize}
use lumenos_hiper_v.Bunker.Session.{activate, terminate}
use lumenos_hiper_v.Tests.Fixtures.{test_env, fresh}

initialized : (initialize test_env none (fresh, 0)).1.0.state ≡ ready
unfolding initialize new_bunker mock_backend
initialized = refl

lived :
    ((initialize test_env none >> activate test_env >> terminate test_env) (fresh, 0)).0 ≡ ok true
unfolding initialize activate terminate new_bunker mock_backend Layers.activate run sign_report
    decontamination_steps verify_all lookup current_component_hashes set_baseline insert
lived = refl
