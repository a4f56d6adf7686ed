-- ===== src/State/Recovery.antt =====
-- What the state store of lumenos_sandbox/state.py gives back of what was saved.
use lumenos_hiper_v.Prelude.{true, String, none, ◌≡◌, Dict, ok, is_nonempty, get_or}
use lumenos_hiper_v.State.{ConfigValue, StoreData, Storage, LoadedState}

-- The dict that comes back of `data`, with the config that was stored.
abbrev pub restored : String → StoreData → Dict ConfigValue → String → LoadedState
restored bunker_id data_ config stamp = record {
  bunker_id = bunker_id;
  config = config;
  state = get_or data_.state "UNKNOWN";
  vm_name = data_.vm_name;
  switch_name = data_.switch_name;
  signing_key = data_.signing_key;
  created_at = data_.created_at;
  activated_at = data_.activated_at;
  terminated_at = data_.terminated_at;
  updated_at = stamp;
  guest_password = none;
}

-- A storage whose statements are carried out and committed, whose JSON of the stored config can be
-- read back, and whose cipher can be decrypted.
pub record Faithful {W : Type 0} (storage : Storage W) (config : Dict ConfigValue) : Type 0 where
  pub carried_out : (w : W) → (storage.execute w).0 ≡ ok tt
  pub commits : (w : W) → (storage.commit w).0 ≡ ok tt
  pub reads_back : storage.loads (storage.dumps config) ≡ ok config
  pub dumps_text : is_nonempty (storage.dumps config) ≡ true
  pub decrypts :
      (text key : String)
      → is_nonempty text ≡ true
      → (cipher : String) × (storage.encrypt text key ≡ ok cipher)
        × (is_nonempty cipher ≡ true)
        × (storage.decrypt cipher key ≡ ok text)
