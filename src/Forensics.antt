-- ===== src/Forensics.antt =====
-- lumenos_sandbox/forensics.py: the evidence of a bunker and its chain of custody. What the disk answers
-- is an argument, the same for all the calls of a run; `export_evidence`, which writes the chain as
-- JSON, is not modelled.
pub mod Custody
use lumenos_hiper_v.Prelude.{
  Bool, true, false, String, Option, none, some, List, [], ◌∷◌, ◌++◌, is_given, is_nonempty, format,
  str_eq, Dict, lookup, Outcome, ok, err, if◌then◌else◌,
}

pub record EvidenceItem : Type 0 where
  pub evidence_id : String
  pub bunker_id : String
  pub description : String
  pub source : String
  pub sha256 : String
  pub collected_at : String
  pub collector : String
  -- the values as text
  pub metadata : Dict String

pub record EvidenceChain : Type 0 where
  pub bunker_id : String
  pub items : List EvidenceItem
  pub created_at : String

pub record Disk : Type 0 where
  pub exists : String → Bool
  pub is_dir : String → Bool
  pub is_file : String → Bool
  -- `_hash_file`, which raises if the file cannot be read
  pub hash_file : String → Outcome String
  -- `hashlib.sha256(text.encode()).hexdigest()`
  pub hash_text : String → String
  -- the paths in a directory that match a pattern
  pub glob : String → String → List String
  pub stem : String → String
  pub file_name : String → String
  pub size : String → String
  -- the time at which an item was made
  pub stamp : String → String

abbrev pub add : EvidenceItem → EvidenceChain → EvidenceChain
add item chain = record chain { items = chain.items ++ item ∷ [] }

-- `a and then b`, of two checks that may raise
abbrev pub and_then : Outcome Bool → Outcome Bool → Outcome Bool
and_then (ok true) b = b
and_then (ok false) b = ok false
and_then (err e) b = err e

abbrev pub bind : {A B : Type 0} → Outcome A → (A → Outcome B) → Outcome B
bind (ok a) f = f a
bind (err e) f = err e

module _ (disk : Disk) where
  open disk use {exists, is_dir, is_file, hash_file, hash_text, glob, stem, file_name, size, stamp}

  -- `expected != item.sha256`
  abbrev pub compare_hash : EvidenceItem → Outcome String → Outcome Bool
  compare_hash item (ok expected) = ok (str_eq expected item.sha256)
  compare_hash item (err e) = err e

  abbrev pub payload : EvidenceItem → String
  payload item = format (item.evidence_id ∷ ":" ∷ item.description ∷ ":" ∷ item.source ∷ [])

  abbrev pub verify_path : Option String → EvidenceItem → Outcome Bool
  verify_path none item = compare_hash item (ok (hash_text (payload item)))
  verify_path (some path) item =
      if is_nonempty path
      then (if is_file path then compare_hash item (hash_file path) else ok false)
      else compare_hash item (ok (hash_text (payload item)))

  -- One turn of the loop of `verify`: True to go on.
  unfoldable pub verify_item : EvidenceItem → Outcome Bool
  verify_item item = verify_path (lookup "path" item.metadata) item

  unfoldable pub verify_items : List EvidenceItem → Outcome Bool
  unfolding verify_item
  verify_items [] = ok true
  verify_items (item ∷ items) = and_then (verify_item item) (verify_items items)

  unfoldable pub verify : EvidenceChain → Outcome Bool
  unfolding verify_items
  verify chain = verify_items chain.items

  -- An item for a file, whose hash is taken when the item is made.
  abbrev pub item_for : String → String → String → String → Dict String → String → EvidenceItem
  item_for bunker_id evidence_id description source metadata sha256 = record {
    evidence_id = evidence_id;
    bunker_id = bunker_id;
    description = description;
    source = source;
    sha256 = sha256;
    collected_at = stamp evidence_id;
    collector = "lumenos_sandbox";
    metadata = metadata;
  }

  abbrev pub add_file :
      String
      → String
      → String
      → String
      → Dict String
      → String
      → EvidenceChain
      → Outcome EvidenceChain
  add_file bunker_id evidence_id description source metadata path chain =
      bind (hash_file path)
        λ sha256. ok (add (item_for bunker_id evidence_id description source metadata sha256) chain)

  abbrev pub collect_db : String → EvidenceChain → Outcome EvidenceChain
  collect_db bunker_id chain =
      let path : String = "lumenos_state.db" in
      if exists path
      then add_file bunker_id (format (bunker_id ∷ "_statedb" ∷ []))
          "SQLite state database snapshot" "state_db" (("path", path) ∷ ("size", size path) ∷ [])
          path chain
      else ok chain

  unfoldable pub collect_reports : String → List String → EvidenceChain → Outcome EvidenceChain
  collect_reports bunker_id [] chain = ok chain
  collect_reports bunker_id (path ∷ paths) chain =
      bind
        (add_file bunker_id (format (bunker_id ∷ "_decon_" ∷ stem path ∷ []))
          (format ("Decontamination report: " ∷ file_name path ∷ [])) "decontamination_report"
          (("path", path) ∷ []) path chain)
        (collect_reports bunker_id paths)

  abbrev pub collect_snap : String → String → EvidenceChain → Outcome EvidenceChain
  collect_snap bunker_id path chain =
      if is_file path
      then add_file bunker_id (format (bunker_id ∷ "_snap_" ∷ file_name path ∷ []))
          (format ("Snapshot file: " ∷ file_name path ∷ [])) "snapshot"
          (("path", path) ∷ ("size", size path) ∷ []) path chain
      else ok chain

  unfoldable pub collect_snaps : String → List String → EvidenceChain → Outcome EvidenceChain
  collect_snaps bunker_id [] chain = ok chain
  collect_snaps bunker_id (path ∷ paths) chain =
      bind (collect_snap bunker_id path chain) (collect_snaps bunker_id paths)

  -- The files of a bunker in a directory, if the directory is there.
  abbrev pub files_in : String → String → List String
  files_in directory pattern = if is_dir directory then glob directory pattern else []

  abbrev pub no_evidence : String → EvidenceChain
  no_evidence bunker_id = record { bunker_id = bunker_id; items = []; created_at = stamp bunker_id }

  unfoldable pub collect_evidence : String → Outcome EvidenceChain
  unfolding collect_reports collect_snaps
  collect_evidence bunker_id =
      bind
        (bind (collect_db bunker_id (no_evidence bunker_id)) (
          collect_reports bunker_id
            (files_in "logs" (format (bunker_id ∷ "_decontamination_*.json" ∷ [])))))
        (collect_snaps bunker_id (files_in "snapshots" (format (bunker_id ∷ "*" ∷ []))))
