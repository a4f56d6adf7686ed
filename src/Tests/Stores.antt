-- ===== src/Tests/Stores.antt =====
-- The theorems on the state store, over a table of one bunker and a clock that ticks.
use lumenos_hiper_v.Prelude.{ℕ, String, Option, some, none, [], ◌∷◌, ◌⊎◌, ok, Dict, lookup, Ensures}
use lumenos_hiper_v.Types.{layer_key, text_key, layer_value, network}
use lumenos_hiper_v.State.{
  ConfigValue, a_text, by_layer, other, StoreData, StateStore, Storage, save,
}
use lumenos_hiper_v.State.Refinement.{Same, Saved, CommitRaised, save_refines}
use lumenos_hiper_v.Tests.Fixtures.{tick}

abbrev text_of : Option ConfigValue → String
text_of (some (other text)) = text
text_of _ = "{}"

-- The probability of one layer, as it is given and as it is stored.
abbrev pub given : ConfigValue
given = by_layer ((layer_key network, "1e-06") ∷ [])

abbrev stored : ConfigValue
stored = by_layer ((text_key (layer_value network), "1e-06") ∷ [])

-- A table that takes every statement, and a JSON that knows one key.
abbrev pub test_storage : Storage ℕ
test_storage = record {
  now = λ w. ("2026-01-01T00:00:00", (tick w).1);
  execute = λ w. (ok tt, w);
  commit = λ w. (ok tt, w);
  dumps = λ config. text_of (lookup "memory" config);
  loads = λ text. ok (("memory", other text) ∷ ("failure_probabilities", stored) ∷ []);
  encrypt = λ text key. ok text;
  decrypt = λ cipher key. ok cipher;
  newest_first = λ entries. entries;
}

abbrev test_data : StoreData
test_data = record {
  config =
      ("memory", other "4096")
      ∷ ("failure_probabilities", given)
      ∷ ("guest_password", a_text "pw")
      ∷ [];
  state = some "READY";
  vm_name = some "bunker_b";
  switch_name = none;
  signing_key = some "key";
  created_at = none;
  activated_at = none;
  terminated_at = none;
}

abbrev pub empty_store : StateStore
empty_store = record { encryption_key = "00"; bunkers = [] }

abbrev pub stored_config : Dict ConfigValue
stored_config = ("memory", other "4096") ∷ ("failure_probabilities", stored) ∷ []

abbrev store : StateStore × ℕ
store = (save test_storage "b" test_data (empty_store, 0)).1

save_refines_example :
    Ensures
      (λ _. Saved test_storage "b" test_data store)
      (λ e t.
        Same test_storage store t
        ⊎ (Saved test_storage "b" test_data store t × CommitRaised test_storage e t))
      (save test_storage "b" test_data store)
save_refines_example = save_refines test_storage "b" test_data store
