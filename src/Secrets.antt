-- ===== src/Secrets.antt =====
-- `SecretManager` of lumenos_sandbox/secrets.py: the credential store of the system, `keyring`, with a JSON
-- file for a fallback. The methods of `keyring` and the writing of the file are arguments; the
-- directory, the mode of the file and `encrypt`/`decrypt`, which only call Fernet, are left out.
pub mod Recall
use lumenos_hiper_v.Prelude.{
  Bool, true, false, String, Option, none, some, List, [], ◌∷◌, is_some, Dict, lookup, insert,
  erase, format, Outcome, ok, err, Exc, if◌then◌else◌,
}

-- The fallback file: missing, a JSON object, or no JSON. `_file_store` writes objects only, so other
-- JSON values are left out.
pub data Fallback : Type 0 where
  missing : Fallback
  object : Dict String → Fallback
  unreadable : Fallback

pub record Keyring (W : Type 0) : Type 0 where
  -- service, name and value
  pub set_password : String → String → String → W → Outcome (Unit {0}) × W
  pub get_password : String → String → W → Outcome (Option String) × W
  -- PasswordDeleteError and any other exception are treated alike
  pub delete_password : String → String → W → Outcome (Unit {0}) × W
  -- making the directory and writing the file
  pub write_text : W → Outcome (Unit {0}) × W

-- `f"{self.service_name}/{name}"`
abbrev pub entry_name : String → String → String
entry_name service name = format (service ∷ "/" ∷ name ∷ [])

-- What `_file_store` goes on from: an empty dict if the file is missing or cannot be read.
abbrev pub entries : Fallback → Dict String
entries missing = []
entries (object d) = d
entries unreadable = []

-- A file that could be written has the new entries.
abbrev pub after_write : Outcome (Unit {0}) → Dict String → Fallback → Fallback
after_write (ok u) d file = object d
after_write (err e) d file = file

module _ {W : Type 0} (keyring : Keyring W) (service_name : String) where
  open keyring use {set_password, get_password, delete_password, write_text}

  unfoldable pub file_store : String → String → Fallback × W → Outcome (Unit {0}) × (Fallback × W)
  file_store name value (file, w) =
      let (r, w') = write_text w in
      (r, (after_write r (insert (entry_name service_name name) value (entries file)) file, w'))

  unfoldable pub file_get : String → Fallback → Option String
  file_get name missing = none
  file_get name (object d) = lookup (entry_name service_name name) d
  file_get name unreadable = none

  abbrev wrote : Outcome (Unit {0}) → Bool
  wrote (ok u) = true
  wrote (err e) = false

  unfoldable pub file_delete : String → Fallback × W → Bool × (Fallback × W)
  file_delete name (missing, w) = (false, (missing, w))
  file_delete name (unreadable, w) = (false, (unreadable, w))
  file_delete name (object d, w) =
      let key = entry_name service_name name in
      if is_some (lookup key d)
      then (let (r, w') = write_text w in (wrote r, (after_write r (erase key d) (object d), w')))
      else (false, (object d, w))

  abbrev pub stored :
      String → String → Outcome (Unit {0}) × W → Fallback → Outcome (Unit {0}) × (Fallback × W)
  stored name value (ok u, w) file = (ok tt, (file, w))
  stored name value (err e, w) file = file_store name value (file, w)

  unfoldable pub store_secret : String → String → Fallback × W → Outcome (Unit {0}) × (Fallback × W)
  unfolding file_store
  store_secret name value (file, w) =
      stored name value (set_password service_name name value w) file

  abbrev pub looked_up : String → Outcome (Option String) → Fallback → Option String
  looked_up name (ok (some value)) file = some value
  looked_up name (ok none) file = file_get name file
  looked_up name (err e) file = file_get name file

  unfoldable pub get_secret : String → Fallback × W → Option String × (Fallback × W)
  unfolding file_get
  get_secret name (file, w) =
      let (r, w') = get_password service_name name w in (looked_up name r file, (file, w'))

  abbrev pub deleted : String → Outcome (Unit {0}) × W → Fallback → Bool × (Fallback × W)
  deleted name (ok u, w) file = (true, (file, w))
  deleted name (err e, w) file = file_delete name (file, w)

  unfoldable pub delete_secret : String → Fallback × W → Bool × (Fallback × W)
  unfolding file_delete
  delete_secret name (file, w) = deleted name (delete_password service_name name w) file
