-- ===== src/Bunker/Recovered.antt =====
-- What `Bunker.load_from_store` of lumenos_sandbox/bunker.py gives back of a bunker that `_persist_state`
-- saved, over the state store of lumenos_sandbox/state.py.
use lumenos_hiper_v.Prelude.{ℕ, true, String, Option, some, ◌≡◌, is_nonempty, Dict, ok}
use mathlib.Core.Option
use lumenos_hiper_v.Types.{BunkerConfig}
use lumenos_hiper_v.Host.{Env, StateData}
use lumenos_hiper_v.State.{ConfigValue, StoreData, StateStore, Storage, save, load}
use lumenos_hiper_v.Bunker.{Bunker, new_bunker}
use lumenos_hiper_v.Bunker.Restore.{Source}

-- The dict of `_persist_state`, with `vars(config)` as an argument.
abbrev pub saved_dict : (BunkerConfig → Dict ConfigValue) → StateData → StoreData
saved_dict vars saved = record {
  config = vars saved.config;
  state = some saved.state;
  vm_name = saved.vm_name;
  switch_name = saved.switch_name;
  signing_key = some saved.signing_key;
  created_at = saved.created_at;
  activated_at = saved.activated_at;
  terminated_at = saved.terminated_at;
}

-- The bunker that was saved, under a given config and without what is not saved: the verifier, the
-- monitor and the layers are new, no session is active and there is no report.
abbrev pub again_of : BunkerConfig → Bunker → Bunker
again_of config b = record (new_bunker config b.signing_key) {
  state = b.state;
  vm_name = b.vm_name;
  switch_name = b.switch_name;
  created_at = b.created_at;
  activated_at = b.activated_at;
  terminated_at = b.terminated_at;
}

module _ {V : Type 0} (storage : Storage V) (vars : BunkerConfig → Dict ConfigValue)
    (env : Env (StateStore × V)) (source : Source (StateStore × V)) where
  -- `get_state_store().save` and `get_state_store().load` are those of the modelled store, and a time
  -- is read back from its text, as `datetime` documents.
  pub record Wired : Type 0 where
    pub saves :
        (bunker_id : String) (saved : StateData) (w : StateStore × V)
        → env.host.save_state bunker_id saved w ≡ save storage bunker_id (saved_dict vars saved) w
    pub loads :
        (bunker_id : String) (w : StateStore × V)
        → source.load bunker_id w ≡ load storage bunker_id w
    pub is_text : (t : ℕ) → is_nonempty (env.host.isoformat t) ≡ true
    pub read_back : (t : ℕ) → source.fromisoformat (env.host.isoformat t) ≡ ok t
