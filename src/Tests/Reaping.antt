-- ===== src/Tests/Reaping.antt =====
-- The theorems on the reaper, over a store with one abandoned bunker.
use lumenos_hiper_v.Prelude.{
  ℕ, Bool, true, false, some, none, [], ◌∷◌, ◌≡◌, refl, ◌⊎◌, err, Ensures, All,
}
use lumenos_hiper_v.Hypervisor.Mock.{mock_backend}
use lumenos_hiper_v.State.{Row, StateStore, Entry, list_all}
use lumenos_hiper_v.Reaper.{select_states}
use lumenos_hiper_v.Reaper.Pass.{Setup, reap}
use lumenos_hiper_v.Reaper.Pass.Reaped.{Spares, reap-Spares}
use lumenos_hiper_v.Reaper.Pass.DryRun.{Untouched, reap-dry}
use lumenos_hiper_v.Tests.Fixtures.{test_host}
use lumenos_hiper_v.Tests.Stores.{test_storage}

abbrev setup : Bool → Setup ℕ
setup execute = record {
  host = test_host;
  backend = mock_backend;
  storage = test_storage;
  file_name = λ path. path;
  repr = λ text. text;
  fromisoformat = λ text. some 10;
  execute = execute;
  states = [];
  older_than = 24;
  keep_on_failure = false;
  now = 100;
}

abbrev row : Row
row = record {
  config = "4096";
  state = "ERROR";
  vm_name = some "bunker_b";
  switch_name = none;
  signing_key = none;
  created_at = none;
  activated_at = none;
  terminated_at = none;
  updated_at = "2026-01-01T00:00:00";
}

abbrev abandoned : StateStore × ℕ
abandoned = (record { encryption_key = "00"; bunkers = ("b", row) ∷ [] }, 0)

abbrev entry : Entry
entry = record { bunker_id = "b"; state = "ERROR"; updated_at = "2026-01-01T00:00:00" }

reap-Spares_example :
    Ensures
      (λ _. Spares (setup true) abandoned)
      (λ _. Spares (setup true) abandoned)
      (reap (setup true) abandoned)
reap-Spares_example = reap-Spares (setup true) abandoned

reap-dry_example :
    Ensures
      (λ r t. (t ≡ (list_all test_storage abandoned).1) × All Untouched r.candidates)
      (λ e t.
        ((select_states (setup false).repr [] ≡ err e) × (t ≡ abandoned))
        ⊎ (list_all test_storage abandoned ≡ (err e, t)))
      (reap (setup false) abandoned)
reap-dry_example = reap-dry (setup false) refl abandoned
