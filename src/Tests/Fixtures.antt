-- ===== src/Tests/Fixtures.antt =====
-- A host and its backend, over a clock that ticks when it is read.
use lumenos_hiper_v.Prelude.{ℕ, suc, some, [], ◌∷◌, format, ok, true}
use lumenos_hiper_v.Types.{BunkerState, BunkerConfig, default_config}
use lumenos_hiper_v.Hypervisor.Mock.{mock_backend}
use lumenos_hiper_v.Host.{Host, Env}
use lumenos_hiper_v.Bunker.{Bunker, new_bunker}

abbrev pub tick : ℕ → ℕ × ℕ
tick w = (w, suc w)

abbrev pub test_host : Host ℕ
test_host = record {
  monotonic = tick;
  now = tick;
  isoformat = λ t. "t";
  show_time = λ t. "t";
  file_stamp = λ t. "t";
  get_secret = λ name w. (some "secret", w);
  save_state = λ id record_of w. (ok tt, w);
  make_dir = λ path w. (ok tt, w);
  join = λ a b. format (a ∷ "/" ∷ b ∷ []);
  resolve = λ path w. ok path;
  parent = λ path. path;
  path_exists = λ path w. (ok true, w);
  sha512 = λ text. text;
  hmac_sha256 = λ key text. ok (format (key ∷ text ∷ []));
  save_report = λ report w. w;
}

abbrev pub test_env : Env ℕ
test_env = record { host = test_host; own = mock_backend; shared = mock_backend }

abbrev pub test_config : BunkerConfig
test_config = default_config "b" "Bunker"

abbrev pub fresh : Bunker
fresh = new_bunker test_config "key"

abbrev pub in_state : BunkerState → Bunker
in_state state = record fresh { state = state; vm_name = some "bunker_b" }

-- The same, at the start of the clock.
abbrev pub started_in : BunkerState → Bunker × ℕ
started_in state = (in_state state, 0)
