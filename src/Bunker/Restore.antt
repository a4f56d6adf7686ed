-- ===== src/Bunker/Restore.antt =====
-- `Bunker.load_from_store` of lumenos_sandbox/bunker.py: a bunker made again from its row. The state store,
-- `secrets.token_hex(32)`, the call `BunkerConfig(**config)` and `datetime.fromisoformat` are arguments.
use lumenos_hiper_v.Prelude.{
  ℕ, String, Option, none, some, is_given, is_nonempty, get_or, Dict, Exec, key_error, Outcome, ok,
  err, pure, again, ◌>>=◌, if◌then◌else◌,
}
use lumenos_hiper_v.Types.{BunkerState, BunkerConfig}
use lumenos_hiper_v.Monitoring.Patterns.{codes}
use lumenos_hiper_v.State.{ConfigValue, LoadedState}
use lumenos_hiper_v.Reaper.{state_of_name}
use lumenos_hiper_v.Bunker.{Bunker, new_bunker}

pub record Source (W : Type 0) : Type 0 where
  pub load : String → W → Outcome (Option LoadedState) × W
  pub token_hex : W → String × W
  -- `SecretManager.store_secret`
  pub store_secret : String → String → W → Outcome (Unit {0}) × W
  pub bunker_config : Dict ConfigValue → Outcome BunkerConfig
  pub fromisoformat : String → Outcome ℕ

-- `Bunker(config)`: a password in the config goes to the entry of the credential store that all bunkers
-- share, which may raise.
abbrev pub made_bunker :
    {W : Type 0}
    → (W → String × W)
    → (String → String → W → Outcome (Unit {0}) × W)
    → BunkerConfig
    → Exec W Bunker
made_bunker token_hex store_secret config w =
    let (key, w') = token_hex w in
    ((if is_nonempty config.guest_password
          then store_secret "guest_password" config.guest_password
          else pure tt)
        >>= λ u. pure (new_bunker config key))
      w'

-- `BunkerState[name]`
abbrev pub state_named : Option BunkerState → String → Outcome BunkerState
state_named none name = err (record { kind = key_error; message = name })
state_named (some state) name = ok state

module _ {W : Type 0} where
  abbrev pub lift : {A : Type 0} → Outcome A → Exec W A
  lift (ok a) = pure a
  lift (err e) = again e

  module _ (source : Source W) where
    open source use {load, token_hex, store_secret, bunker_config, fromisoformat}

    abbrev pub some_time : Outcome ℕ → Outcome (Option ℕ)
    some_time (ok t) = ok (some t)
    some_time (err e) = err e

    -- `if data.get(…): … = datetime.fromisoformat(data[…])`
    abbrev pub time_of : Option String → Outcome (Option ℕ)
    time_of none = ok none
    time_of (some text) = if is_nonempty text then some_time (fromisoformat text) else ok none

    -- `if data.get("signing_key"): …`
    abbrev pub key_or : Option String → String → String
    key_or stored key = if is_given stored then get_or stored key else key

    unfoldable pub revive : Option LoadedState → Exec W (Option Bunker)
    unfolding state_of_name
    revive none = pure none
    revive (some data_) = do
      config ← lift (bunker_config data_.config)
      bunker ← made_bunker token_hex store_secret config
      state ← lift (state_named (state_of_name (codes data_.state)) data_.state)
      created_at ← lift (time_of data_.created_at)
      activated_at ← lift (time_of data_.activated_at)
      terminated_at ← lift (time_of data_.terminated_at)
      pure (
          some (record bunker {
            state = state;
            vm_name = data_.vm_name;
            switch_name = data_.switch_name;
            created_at = created_at;
            activated_at = activated_at;
            terminated_at = terminated_at;
            signing_key = key_or data_.signing_key bunker.signing_key;
          }))

    unfoldable pub load_from_store : String → Exec W (Option Bunker)
    unfolding revive
    load_from_store bunker_id = load bunker_id >>= revive
