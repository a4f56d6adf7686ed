-- ===== src/Host.antt =====
-- What the lifecycle of a bunker uses of its host besides the hypervisor: clocks, paths, digests,
-- the credential store, the state store and the report files.
use lumenos_hiper_v.Prelude.{ℕ, Bool, String, [], ◌∷◌, Option, Outcome, format}
use lumenos_hiper_v.Hypervisor.{HypervisorBackend}
use lumenos_hiper_v.Types.{BunkerConfig, DecontaminationReport}

-- The dict that `Bunker._persist_state` builds.
pub record StateData : Type 0 where
  pub config : BunkerConfig
  pub state : String
  pub vm_name : Option String
  pub switch_name : Option String
  pub signing_key : String
  pub created_at : Option String
  pub activated_at : Option String
  pub terminated_at : Option String

pub record Host (W : Type 0) : Type 0 where
  -- `time.monotonic()` and `datetime.now()`, counted in ticks
  pub monotonic : W → ℕ × W
  pub now : W → ℕ × W
  -- `t.isoformat()` and `str(t)`
  pub isoformat : ℕ → String
  pub show_time : ℕ → String
  -- `t.strftime("%Y%m%d_%H%M%S")`
  pub file_stamp : ℕ → String
  -- `SecretManager.get_secret`, which catches whatever the credential store raises
  pub get_secret : String → W → Option String × W
  -- `get_state_store().save(bunker_id, data)`
  pub save_state : String → StateData → W → Outcome (Unit {0}) × W
  -- `Path.mkdir`, `a / b`, `p.resolve()`, `p.parent` and `p.exists()` of pathlib
  pub make_dir : String → W → Outcome (Unit {0}) × W
  pub join : String → String → String
  pub resolve : String → W → Outcome String
  pub parent : String → String
  pub path_exists : String → W → Outcome Bool × W
  -- `hashlib.sha512(text.encode()).hexdigest()`
  pub sha512 : String → String
  -- `hmac.new(bytes.fromhex(key), text.encode(), hashlib.sha256).hexdigest()`, which may raise on
  -- a key that is not hexadecimal
  pub hmac_sha256 : String → String → Outcome String
  -- writing a report under logs/, whose failures are caught
  pub save_report : DecontaminationReport → W → W

-- `_component_baseline_digest`
unfoldable pub component_baseline_digest : {W : Type 0} → Host W → String → String
component_baseline_digest host component =
    host.sha512 (format ("lumenos-baseline:" ∷ component ∷ []))

-- The surroundings of a bunker: its host, the backend that it was given, and the backend of
-- `get_backend()`, which its layers and its decontamination call.
pub record Env (W : Type 0) : Type 0 where
  pub host : Host W
  pub own : HypervisorBackend W
  pub shared : HypervisorBackend W
