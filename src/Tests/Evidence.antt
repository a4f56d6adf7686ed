-- ===== src/Tests/Evidence.antt =====
-- The theorems on the chain of custody, over a disk with a state database and one report.
use lumenos_hiper_v.Prelude.{
  true, [], ◌∷◌, ◌≡◌, ◌↔◌, All, ok, err, file_not_found, is_nonempty, str_eq, if◌then◌else◌,
}
use lumenos_hiper_v.Forensics.{EvidenceChain, Disk, verify, item_for}
use lumenos_hiper_v.Forensics.Custody.{ItemSound, verify-Sound}

abbrev disk : Disk
disk = record {
  exists = λ path. true;
  is_dir = λ path. true;
  is_file = λ path. true;
  hash_file = λ path.
      if is_nonempty path
      then ok "e3b0"
      else err (record { kind = file_not_found; message = "No such file" });
  hash_text = λ text. "e3b0";
  glob =
      λ directory pattern. if str_eq directory "logs" then "b_decontamination_1.json" ∷ [] else [];
  stem = λ path. path;
  file_name = λ path. path;
  size = λ path. "0";
  stamp = λ evidence_id. "2026-01-01T00:00:00";
}

abbrev chain : EvidenceChain
chain = record {
  bunker_id = "b";
  items = item_for disk "b" "b_note" "a note" "operator" [] "e3b0" ∷ [];
  created_at = "2026-01-01T00:00:00";
}

verify-Sound_example : (verify disk chain ≡ ok true) ↔ All (ItemSound disk) chain.items
verify-Sound_example = verify-Sound disk chain

abbrev collected : EvidenceChain
collected = record {
  bunker_id = "b";
  items =
      item_for disk "b" "b_statedb" "SQLite state database snapshot" "state_db"
        (("path", "lumenos_state.db") ∷ ("size", "0") ∷ []) "e3b0"
      ∷ item_for disk "b" "b_decon_b_decontamination_1.json"
          "Decontamination report: b_decontamination_1.json" "decontamination_report"
          (("path", "b_decontamination_1.json") ∷ []) "e3b0"
      ∷ [];
  created_at = "2026-01-01T00:00:00";
}
