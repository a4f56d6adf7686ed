-- ===== src/Tests/Restores.antt =====
-- A bunker that is saved in the state store and made again from its row.
use lumenos_hiper_v.Prelude.{
  ℕ, suc, zero, String, Option, none, some, true, ok, [], ◌∷◌, Dict, lookup,
}
use lumenos_hiper_v.Types.{BunkerConfig, Probabilities, active, network, layer_key}
use lumenos_hiper_v.Host.{Host, Env}
use lumenos_hiper_v.Hypervisor.Mock.{mock_backend}
use lumenos_hiper_v.State.{ConfigValue, a_text, by_layer, other, StateStore, save, load}
use lumenos_hiper_v.Bunker.{Bunker, new_bunker}
use lumenos_hiper_v.Bunker.Restore.{Source}
use lumenos_hiper_v.Bunker.Recovered.{saved_dict}
use lumenos_hiper_v.Tests.Fixtures.{test_config}
use lumenos_hiper_v.Tests.Stores.{test_storage, stored_config}

-- Times as texts: a text of `t + 1` characters.
unfoldable strokes : ℕ → String
strokes zero = "|"
strokes (suc t) = String.◌∷◌ "|" (strokes t)

unfoldable after_first : String → ℕ
after_first String.[] = 0
after_first (String.◌∷◌ c String.[]) = 0
after_first (String.◌∷◌ c (String.◌∷◌ d s)) = suc (after_first (String.◌∷◌ d s))

abbrev vars : BunkerConfig → Dict ConfigValue
vars config =
    ("memory", other "4096")
    ∷ ("failure_probabilities", by_layer config.failure_probabilities)
    ∷ ("guest_password", a_text config.guest_password)
    ∷ []

abbrev host : Host (StateStore × ℕ)
host = record {
  monotonic = λ w. (0, w);
  now = λ w. (0, w);
  isoformat = strokes;
  show_time = strokes;
  file_stamp = strokes;
  get_secret = λ name w. (none, w);
  save_state = λ id saved w. save test_storage id (saved_dict vars saved) w;
  make_dir = λ path w. (ok tt, w);
  join = λ a b. a;
  resolve = λ path w. ok path;
  parent = λ path. path;
  path_exists = λ path w. (ok true, w);
  sha512 = λ text. text;
  hmac_sha256 = λ key text. ok text;
  save_report = λ report w. w;
}

abbrev env : Env (StateStore × ℕ)
env = record { host = host; own = mock_backend; shared = mock_backend }

abbrev with_probabilities : Probabilities → BunkerConfig
with_probabilities fp = record test_config { failure_probabilities = fp }

abbrev config_of : Option ConfigValue → BunkerConfig
config_of (some (by_layer fp)) = with_probabilities fp
config_of _ = with_probabilities []

abbrev source : Source (StateStore × ℕ)
source = record {
  load = load test_storage;
  token_hex = λ w. ("fresh", w);
  store_secret = λ name value w. (ok tt, w);
  bunker_config = λ d. ok (config_of (lookup "failure_probabilities" d));
  fromisoformat = λ text. ok (after_first text);
}

-- An ACTIVE bunker that was made and activated, and the config that it comes back with.
abbrev running : Bunker
running = record (new_bunker (with_probabilities ((layer_key network, "1e-06") ∷ [])) "key") {
  state = active;
  vm_name = some "bunker_b";
  created_at = some 3;
  activated_at = some 5;
}

abbrev back : BunkerConfig
back = config_of (lookup "failure_probabilities" stored_config)
