-- ===== src/Api/Routes.antt =====
-- The routes of lumenos_sandbox/api.py that manage bunkers, and their registry `_bunkers`. The state
-- store, `secrets.token_hex(32)`, the call `BunkerConfig(**fields)` and the environment of a bunker
-- are arguments. Requests are handled one at a time; an object in the registry is the one that a
-- handler works on, so what a method wrote stays also when it raises.
use lumenos_hiper_v.Prelude.{
  ℕ, Bool, true, false, not, String, Option, none, some, List, [], ◌∷◌, any, str_eq, is_some, Dict,
  lookup, insert, Outcome, ok, err, if◌then◌else◌, format,
}
use lumenos_hiper_v.Types.{
  BunkerState, ready, active, destroyed, state_eq, state_name, BunkerConfig,
}
use lumenos_hiper_v.Monitoring.Patterns.{codes}
use lumenos_hiper_v.State.{ConfigValue, LoadedState, Entry}
use lumenos_hiper_v.Reaper.{state_of_name}
use lumenos_hiper_v.Host.{Env}
use lumenos_hiper_v.Bunker.{Bunker, Method}
use lumenos_hiper_v.Bunker.Restore.{made_bunker, state_named}
use lumenos_hiper_v.Bunker.Init.{initialize}
use lumenos_hiper_v.Bunker.Session.{activate, terminate}
use lumenos_hiper_v.Forensics.{Disk, EvidenceChain, collect_evidence}
use lumenos_hiper_v.Api.{Reply, reply, refuse, crash, from_outcome}
use lumenos_hiper_v.Api.Ids.{valid_bunker_id}

pub record Store (W : Type 0) : Type 0 where
  pub load : String → W → Outcome (Option LoadedState) × W
  pub delete : String → W → Outcome Bool × W
  pub list_all : W → Outcome (List Entry) × W
  pub token_hex : W → String × W
  -- `SecretManager.store_secret`
  pub store_secret : String → String → W → Outcome (Unit {0}) × W
  pub bunker_config : Dict ConfigValue → Outcome BunkerConfig

pub record Server (W : Type 0) : Type 0 where
  pub bunkers : Dict Bunker
  pub world : W

abbrev pub Route : Type 0 → Type 0 → Type 0
Route W A = Server W → Reply A × Server W

module _ {W A B : Type 0} where
  infixl 5 ◌>>=◌
  abbrev pub continue : Reply A → (A → Route W B) → Route W B
  continue (reply a) f s = f a s
  continue (refuse status detail) f s = (refuse status detail, s)
  continue (crash e) f s = (crash e, s)

  abbrev pub ◌>>=◌ : Route W A → (A → Route W B) → Route W B
  ◌>>=◌ m f s = let (r, s') = m s in continue r f s'

module _ {W A : Type 0} where
  abbrev pub answer : A → Route W A
  answer a s = (reply a, s)

  abbrev pub abort : ℕ → String → Route W A
  abort status detail s = (refuse status detail, s)

  -- A call that works on the world.
  abbrev pub call : (W → Outcome A × W) → Route W A
  call f s = let (r, w) = f s.world in (from_outcome r, record s { world = w })

-- `{f.name for f in BunkerConfig.__dataclass_fields__.values()}`
abbrev pub valid_fields : List String
valid_fields =
    "id" ∷ "name" ∷ "memory_mb" ∷ "cpu_cores" ∷ "disk_gb" ∷ "max_session_hours"
    ∷ "decontamination_minutes" ∷ "snapshot_interval_minutes" ∷ "enable_network_isolation"
    ∷ "enable_memory_encryption" ∷ "enable_secure_boot" ∷ "log_level" ∷ "guest_username"
    ∷ "guest_password" ∷ "sysmon_installed" ∷ "sysmon_path" ∷ "monitor_interval_seconds"
    ∷ "failure_probabilities" ∷ []

unfoldable pub filtered : Dict ConfigValue → Dict ConfigValue
filtered [] = []
filtered ((k, v) ∷ d) =
    let rest = filtered d in if any (λ f. str_eq f k) valid_fields then (k, v) ∷ rest else rest

-- The bunker of a stored state, with a fresh signing key.
abbrev pub restored : LoadedState → Bunker → BunkerState → Bunker
restored state bunker at = record bunker {
  state = at;
  vm_name = state.vm_name;
  switch_name = state.switch_name;
}

module _ {W : Type 0} (store : Store W) (env : Env W) where
  open store use {load, delete, list_all, token_hex, store_secret, bunker_config}

  -- `Bunker(config)`
  abbrev pub make_bunker : BunkerConfig → Route W Bunker
  make_bunker config = call (made_bunker token_hex store_secret config)

  -- `_bunkers[bunker_id] = bunker`
  abbrev pub register : String → Bunker → Route W (Unit {0})
  register bunker_id bunker s = (reply tt, record s { bunkers = insert bunker_id bunker s.bunkers })

  unfoldable pub restore : String → Option LoadedState → Route W Bunker
  unfolding filtered state_of_name
  restore bunker_id none = abort 404 (format ("Bunker not found: " ∷ bunker_id ∷ []))
  restore bunker_id (some state) =
      call (λ w. (bunker_config (filtered state.config), w)) >>= λ config.
      make_bunker config >>= λ bunker.
      call (λ w. (state_named (state_of_name (codes state.state)) state.state, w)) >>= λ at.
      register bunker_id (restored state bunker at) >>= λ u. answer (restored state bunker at)

  abbrev pub known_or_restored : String → Option Bunker → Route W Bunker
  known_or_restored bunker_id (some bunker) = answer bunker
  known_or_restored bunker_id none = call (load bunker_id) >>= restore bunker_id

  -- `_get_bunker`
  unfoldable pub get_bunker : String → Route W Bunker
  unfolding restore
  get_bunker bunker_id s = known_or_restored bunker_id (lookup bunker_id s.bunkers) s

  -- A method of the bunker that the registry has under an id.
  unfoldable pub run_method : {A : Type 0} → String → Method W A → Bunker → Route W A
  run_method bunker_id m bunker s =
      let (r, (bunker', w)) = m (bunker, s.world) in
      (from_outcome r, record s { bunkers = insert bunker_id bunker' s.bunkers; world = w })

  -- `if not …: raise HTTPException(500, …)`
  abbrev pub done_or_500 : String → String → Bool → Route W String
  done_or_500 detail message r = if not r then abort 500 detail else answer message

  -- What `start_bunker`, `stop_bunker` and `activate_bunker` share: the state that is expected, the
  -- method, and the texts of a failure and a success.
  abbrev pub in_state :
      BunkerState → Method W Bool → String → String → String → Bunker → Route W String
  in_state expected m detail message bunker_id bunker =
      if not (state_eq bunker.state expected)
      then abort 409 (
          format (
            "Bunker is in state "
            ∷ state_name bunker.state
            ∷ ", expected "
            ∷ state_name expected
            ∷ []))
      else run_method bunker_id m bunker >>= done_or_500 detail message

  unfoldable pub managed : BunkerState → Method W Bool → String → String → String → Route W String
  unfolding get_bunker run_method
  managed expected m detail message bunker_id =
      get_bunker bunker_id >>= in_state expected m detail message bunker_id

  unfoldable pub start_bunker : String → Route W String
  unfolding managed
  start_bunker bunker_id =
      managed destroyed (initialize env none) "Failed to initialize bunker"
        (format ("Bunker " ∷ bunker_id ∷ " initialized" ∷ [])) bunker_id

  unfoldable pub stop_bunker : String → Route W String
  unfolding managed
  stop_bunker bunker_id =
      managed active (terminate env) "Termination failed"
        (format ("Bunker " ∷ bunker_id ∷ " terminated" ∷ [])) bunker_id

  unfoldable pub activate_bunker : String → Route W String
  unfolding managed
  activate_bunker bunker_id =
      managed ready (activate env) "Activation failed"
        (format ("Bunker " ∷ bunker_id ∷ " activated" ∷ [])) bunker_id

  -- The roll-back of a create that failed, whose own failure is only logged.
  abbrev pub rolled_back : {A : Type 0} → String → Reply A → Server W → Reply A × Server W
  rolled_back bunker_id r s = (r, record s { world = (delete bunker_id s.world).1 })

  -- The `try` of `create_bunker`, on what `initialize` came to.
  abbrev pub created : String → Outcome Bool × (Bunker × W) → Route W String
  created bunker_id (ok true, (bunker, w)) s =
      (register bunker_id bunker >>= λ u. answer (format ("Bunker " ∷ bunker_id ∷ " created" ∷ [])))
        (record s { world = w })
  created bunker_id (ok false, (bunker, w)) s =
      rolled_back bunker_id (refuse 500 "Failed to initialize bunker") (record s { world = w })
  created bunker_id (err e, (bunker, w)) s =
      rolled_back bunker_id (crash e) (record s { world = w })

  abbrev pub brought_up : String → Bunker → Route W String
  brought_up bunker_id bunker s = created bunker_id (initialize env none (bunker, s.world)) s

  abbrev pub unless_stored : BunkerConfig → Option LoadedState → Route W String
  unless_stored config state =
      if is_some state
      then abort 409 (format ("Bunker already exists: " ∷ config.id ∷ []))
      else make_bunker config >>= brought_up config.id

  -- `create_bunker`, for the config that its payload makes, without the status in its answer
  unfoldable pub create_bunker : BunkerConfig → Route W String
  create_bunker config = call (load config.id) >>= unless_stored config

  unfoldable pub list_bunkers : Route W (List Entry)
  list_bunkers = call list_all

  unfoldable pub analyze_sample : String → Route W (String × Option String)
  unfolding get_bunker
  analyze_sample bunker_id = get_bunker bunker_id >>= λ bunker.
      if not (state_eq bunker.state active)
      then abort 409
          (format ("Bunker is in state " ∷ state_name bunker.state ∷ ", expected ACTIVE" ∷ []))
      else answer (format ("Sample deployment queued for " ∷ bunker_id ∷ []), bunker.vm_name)

  -- `get_evidence`, for `repr` and the disk that the evidence is collected from
  unfoldable pub get_evidence : (String → String) → Disk → String → Route W EvidenceChain
  unfolding get_bunker valid_bunker_id
  get_evidence repr disk bunker_id =
      if not (valid_bunker_id bunker_id)
      then abort 400 (format ("Invalid bunker id: " ∷ repr bunker_id ∷ []))
      else get_bunker bunker_id >>= λ bunker. call (λ w. (collect_evidence disk bunker_id, w))
