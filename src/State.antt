-- ===== src/State.antt =====
-- `class BunkerStateStore` of lumenos_sandbox/state.py: the table `bunkers` by its primary key, as the
-- connection of the store sees it: a change whose commit raises is in its open transaction. SQLite,
-- the JSON of a dict and the cipher are arguments.
pub mod Refinement
pub mod Recovery
use lumenos_hiper_v.Prelude.{
  ℕ, Bool, true, false, String, Option, none, some, List, [], ◌∷◌, map, is_some, is_given, get_or,
  Dict, lookup, insert, erase, Exc, other_error, Exec, Outcome, ok, err, pure, again, ◌>>=◌, ◌>>◌,
  try_except, if◌then◌else◌,
}
use lumenos_hiper_v.Types.{LayerKey, layer_key, text_key, Probabilities, layer_value}

-- A value of a config: a text, a dict by layers, or another value by its JSON.
pub data ConfigValue : Type 0 where
  a_text : String → ConfigValue
  by_layer : Probabilities → ConfigValue
  other : String → ConfigValue

-- `k.value if hasattr(k, "value") else str(k)`
abbrev pub key_text : LayerKey → LayerKey
key_text (layer_key layer) = text_key (layer_value layer)
key_text (text_key t) = text_key t

-- The dict with its keys as texts; those of a config have different texts.
unfoldable pub keyed_by_text : Probabilities → Probabilities
keyed_by_text [] = []
keyed_by_text ((k, v) ∷ fp) = (key_text k, v) ∷ keyed_by_text fp

-- `fp.items()` raises unless `fp` is a dict.
abbrev pub converted : Option ConfigValue → Dict ConfigValue → Outcome (Dict ConfigValue)
converted none config = ok config
converted (some (by_layer fp)) config =
    ok (insert "failure_probabilities" (by_layer (keyed_by_text fp)) config)
converted (some _) config =
    err (record { kind = other_error; message = "object has no attribute 'items'" })

-- The conversion of `failure_probabilities` in `save`.
abbrev pub string_keys : Dict ConfigValue → Outcome (Dict ConfigValue)
string_keys config = converted (lookup "failure_probabilities" config) config

-- A password in a config, which is a text.
abbrev pub password_in : Option ConfigValue → Option String
password_in (some (a_text password)) = some password
password_in _ = none

-- The `data` of `save`: a key that is missing is None.
pub record StoreData : Type 0 where
  pub config : Dict ConfigValue
  pub state : Option String
  pub vm_name : Option String
  pub switch_name : Option String
  pub signing_key : Option String
  pub created_at : Option String
  pub activated_at : Option String
  pub terminated_at : Option String

-- A row of the table, without its key.
pub record Row : Type 0 where
  pub config : String
  pub state : String
  pub vm_name : Option String
  pub switch_name : Option String
  pub signing_key : Option String
  pub created_at : Option String
  pub activated_at : Option String
  pub terminated_at : Option String
  pub updated_at : String

-- The dict that `load` returns.
pub record LoadedState : Type 0 where
  pub bunker_id : String
  pub config : Dict ConfigValue
  pub state : String
  pub vm_name : Option String
  pub switch_name : Option String
  pub signing_key : Option String
  pub created_at : Option String
  pub activated_at : Option String
  pub terminated_at : Option String
  pub updated_at : String
  pub guest_password : Option String

-- A dict of `list_all`.
pub record Entry : Type 0 where
  pub bunker_id : String
  pub state : String
  pub updated_at : String

-- What the store calls: `datetime.now().isoformat()`, SQLite, JSON and `SecretManager`.
pub record Storage (W : Type 0) : Type 0 where
  pub now : W → String × W
  -- `conn.execute(…)`, which raises if the statement is not carried out, and `conn.commit()`
  pub execute : W → Outcome (Unit {0}) × W
  pub commit : W → Outcome (Unit {0}) × W
  pub dumps : Dict ConfigValue → String
  pub loads : String → Outcome (Dict ConfigValue)
  pub encrypt : String → String → Outcome String
  pub decrypt : String → String → Outcome String
  -- `ORDER BY updated_at DESC`
  pub newest_first : List Entry → List Entry

pub record StateStore : Type 0 where
  pub encryption_key : String
  pub bunkers : Dict Row

abbrev pub lift_to : {S A : Type 0} → Outcome A → Exec S A
lift_to (ok a) = pure a
lift_to (err e) = again e

abbrev some_of : Outcome String → Outcome (Option String)
some_of (ok text) = ok (some text)
some_of (err e) = err e

abbrev decrypted_or : String → Outcome String → String
decrypted_or cipher (ok text) = text
decrypted_or cipher (err e) = cipher

abbrev pub of_row : Outcome LoadedState → Outcome (Option LoadedState)
of_row (ok loaded) = ok (some loaded)
of_row (err e) = err e

abbrev pub entry_of : String × Row → Entry
entry_of (bunker_id, row) = record {
  bunker_id = bunker_id;
  state = row.state;
  updated_at = row.updated_at;
}

module _ {W : Type 0} (storage : Storage W) where
  open storage use {now, execute, commit, dumps, loads, encrypt, decrypt, newest_first}

  abbrev pub Action : Type 0 → Type 0
  Action A = Exec (StateStore × W) A

  -- `conn.execute(…)` of a query
  unfoldable pub query : Action (Unit {0})
  query (s, w) = let (r, w') = execute w in (r, (s, w'))

  -- The commit; the change stays in the transaction also where it raises.
  abbrev pub committed : Outcome (Unit {0}) → (Dict Row → Dict Row) → Action (Unit {0})
  committed (ok u) change (s, w) =
      let (r, w') = commit w in (r, (record s { bunkers = change s.bunkers }, w'))
  committed (err e) change (s, w) = (err e, (s, w))

  -- `conn.execute(…); conn.commit()`, with what the statement does to the table.
  unfoldable pub statement : (Dict Row → Dict Row) → Action (Unit {0})
  statement change (s, w) = let (r, w') = execute w in committed r change (s, w')

  -- `if text: text = SecretManager.encrypt(text, key)`
  unfoldable pub encrypt_given : String → Option String → Outcome (Option String)
  encrypt_given key none = ok none
  encrypt_given key (some text) =
      if is_given (some text) then some_of (encrypt text key) else ok (some text)

  -- The row of `data` with its config converted and its key encrypted; the password is not among the
  -- columns.
  abbrev pub row_of : StoreData → Dict ConfigValue → Option String → String → Row
  row_of data_ config signing_key updated_at = record {
    config = dumps config;
    state = get_or data_.state "UNKNOWN";
    vm_name = data_.vm_name;
    switch_name = data_.switch_name;
    signing_key = signing_key;
    created_at = data_.created_at;
    activated_at = data_.activated_at;
    terminated_at = data_.terminated_at;
    updated_at = updated_at;
  }

  unfoldable pub save : String → StoreData → Action (Unit {0})
  unfolding statement encrypt_given keyed_by_text
  save bunker_id data_ (s, w) =
      let (stamp, w') = now w in
      let key = s.encryption_key in
      (do
        config ← lift_to (string_keys (erase "guest_password" data_.config))
        signing_key ← lift_to (encrypt_given key data_.signing_key)
        guest_password ←
            lift_to (encrypt_given key (password_in (lookup "guest_password" data_.config)))
        statement (insert bunker_id (row_of data_ config signing_key stamp)))
        (s, w')

  -- `try: decrypt` with the stored text as it is for a fallback
  unfoldable pub decrypt_given : String → Option String → Option String
  decrypt_given key none = none
  decrypt_given key (some cipher) =
      if is_given (some cipher)
      then some (decrypted_or cipher (decrypt cipher key))
      else some cipher

  -- `if guest_pw: …, else: None`
  abbrev password_of : String → Option String → Option String
  password_of key none = none
  password_of key (some text) = if is_given (some text) then decrypt_given key (some text) else none

  abbrev pub parsed : Row → Outcome (Dict ConfigValue)
  parsed row = if is_given (some row.config) then loads row.config else ok []

  -- A row that was read; an empty config is read twice, and the second time JSON refuses it.
  unfoldable pub read_row : String → String → Row → Outcome LoadedState
  unfolding decrypt_given
  read_row key bunker_id row =
      let first_config = parsed row in
      elim first_config [
        | err e ↦ err e
        | ok config ↦ elim (loads row.config) [
          | err e ↦ err e
          | ok again_config ↦ ok (record {
            bunker_id = bunker_id;
            config = again_config;
            state = row.state;
            vm_name = row.vm_name;
            switch_name = row.switch_name;
            signing_key = decrypt_given key row.signing_key;
            created_at = row.created_at;
            activated_at = row.activated_at;
            terminated_at = row.terminated_at;
            updated_at = row.updated_at;
            guest_password = password_of key (password_in (lookup "guest_password" config));
          })
        ]
      ]

  abbrev pub found_row : String → String → Option Row → Outcome (Option LoadedState)
  found_row key bunker_id none = ok none
  found_row key bunker_id (some row) = of_row (read_row key bunker_id row)

  unfoldable pub load : String → Action (Option LoadedState)
  unfolding query read_row
  load bunker_id = do
    query
    λ (s, w). (found_row s.encryption_key bunker_id (lookup bunker_id s.bunkers), (s, w))

  unfoldable pub list_all : Action (List Entry)
  unfolding query
  list_all = do query; λ (s, w). (ok (newest_first (map entry_of s.bunkers)), (s, w))

  -- `cur.rowcount > 0`
  unfoldable pub delete : String → Action Bool
  unfolding statement
  delete bunker_id (s, w) =
      let known = is_some (lookup bunker_id s.bunkers) in
      (statement (erase bunker_id) >> pure known) (s, w)
