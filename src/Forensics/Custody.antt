-- ===== src/Forensics/Custody.antt =====
-- What the chain of custody of lumenos_sandbox/forensics.py vouches for.
use lumenos_hiper_v.Prelude.{
  Bool, true, false, String, Option, none, some, List, [], ◌∷◌, ◌≡◌, refl, ◌⊎◌, inl, inr, ◌↔◌, All,
  All-append, is_nonempty, format, eq_iff, Dict, lookup, Outcome, ok, err, arith, Bool-cases,
}
use lumenos_hiper_v.Forensics.{
  EvidenceItem, EvidenceChain, Disk, add, and_then, bind, compare_hash, payload, verify_path,
  verify_item, verify_items, verify, item_for, collect_db, collect_reports, collect_snap,
  collect_snaps, files_in, no_evidence, collect_evidence,
}

module _ (disk : Disk) where
  -- The hash of an item is that of its file, or of its own text if it has none.
  abbrev pub Sound : Option String → EvidenceItem → Type 0
  Sound none item = disk.hash_text (payload disk item) ≡ item.sha256
  Sound (some path) item =
      ((is_nonempty path ≡ true)
        × (disk.is_file path ≡ true)
        × (disk.hash_file path ≡ ok item.sha256))
      ⊎ ((is_nonempty path ≡ false) × (disk.hash_text (payload disk item) ≡ item.sha256))

  abbrev pub ItemSound : EvidenceItem → Type 0
  ItemSound item = Sound (lookup "path" item.metadata) item

  compare_hash-ok :
      (item : EvidenceItem) (r : Outcome String)
      → (compare_hash disk item r ≡ ok true) ↔ (r ≡ ok item.sha256)
  compare_hash-ok item (ok expected) = ground (arith, eq_iff expected item.sha256)
  compare_hash-ok item (err e) = ground arith

  and_then-ok : (a b : Outcome Bool) → (and_then a b ≡ ok true) ↔ ((a ≡ ok true) × (b ≡ ok true))
  and_then-ok (ok true) b = ground arith
  and_then-ok (ok false) b = ground arith
  and_then-ok (err e) b = ground arith

  verify_path-Sound :
      (o : Option String) (item : EvidenceItem) → (verify_path disk o item ≡ ok true) ↔ Sound o item
  verify_path-Sound none item =
      ground (arith, compare_hash-ok item (ok (disk.hash_text (payload disk item))))
  verify_path-Sound (some path) item = ground (
    arith,
    compare_hash-ok item (ok (disk.hash_text (payload disk item))),
    compare_hash-ok item (disk.hash_file path),
  )

  verify_items-Sound :
      (items : List EvidenceItem) → (verify_items disk items ≡ ok true) ↔ All ItemSound items
  unfolding verify_items verify_item
  verify_items-Sound [] = ((λ h. tt), (λ h. refl))
  verify_items-Sound (item ∷ items) =
      let head = verify_path-Sound (lookup "path" item.metadata) item in
      let tail = verify_items-Sound items in
      let both = and_then-ok (verify_item disk item) (verify_items disk items) in
      ((λ h. let p = both.0 h in (head.0 p.0, tail.0 p.1)), (λ h. both.1 (head.1 h.0, tail.1 h.1)))

  -- A chain verifies exactly if every item names a file whose hash is still the one that was taken, or
  -- names none and has the hash of its own text.
  pub verify-Sound :
      (chain : EvidenceChain) → (verify disk chain ≡ ok true) ↔ All ItemSound chain.items
  unfolding verify
  verify-Sound chain = verify_items-Sound chain.items

  -- A chain that was collected, if nothing raised.
  abbrev Collected : Outcome EvidenceChain → Type 0
  Collected (ok chain) = All ItemSound chain.items
  Collected (err e) = Unit

  bind-Collected :
      (r : Outcome EvidenceChain) (f : EvidenceChain → Outcome EvidenceChain)
      → Collected r
      → ((chain : EvidenceChain) → All ItemSound chain.items → Collected (f chain))
      → Collected (bind r f)
  bind-Collected (ok chain) f h k = k chain h
  bind-Collected (err e) f h k = tt

  -- Only files that are there can be hashed.
  module _
      (readable : (path sha256 : String)
        → disk.hash_file path ≡ ok sha256
        → (is_nonempty path ≡ true) × (disk.is_file path ≡ true)) where
    add_file-Collected :
        (bunker_id evidence_id description source : String) (metadata : Dict String) (path : String)
        (chain : EvidenceChain)
        → lookup "path" metadata ≡ some path
        → All ItemSound chain.items
        → (r : Outcome String) → disk.hash_file path ≡ r
        → Collected (
            bind r λ sha256.
              ok (
                add (item_for disk bunker_id evidence_id description source metadata sha256) chain))
    add_file-Collected bunker_id evidence_id description source metadata path chain l h (ok sha256)
          e =
        let item = item_for disk bunker_id evidence_id description source metadata sha256 in
        let there = readable path sha256 e in
        All-append ItemSound chain.items (item ∷ []) h (rw l (inl (there.0, there.1, e)), tt)
    add_file-Collected bunker_id evidence_id description source metadata path chain l h (err x) e =
        tt

    collect_db-Collected :
        (bunker_id : String) (chain : EvidenceChain)
        → All ItemSound chain.items
        → Collected (collect_db disk bunker_id chain)
    unfolding lookup
    collect_db-Collected bunker_id chain h = elim (Bool-cases (disk.exists "lumenos_state.db")) [
      | inl t ↦ rw t (
          add_file-Collected bunker_id _ _ _ _ "lumenos_state.db" chain refl h
            (disk.hash_file "lumenos_state.db") refl)
      | inr t ↦ rw t h
    ]

    collect_reports-Collected :
        (bunker_id : String) (paths : List String) (chain : EvidenceChain)
        → All ItemSound chain.items
        → Collected (collect_reports disk bunker_id paths chain)
    unfolding collect_reports lookup
    collect_reports-Collected bunker_id [] chain h = h
    collect_reports-Collected bunker_id (path ∷ paths) chain h =
        bind-Collected _ _
          (add_file-Collected bunker_id _ _ _ _ path chain refl h (disk.hash_file path) refl)
          (collect_reports-Collected bunker_id paths)

    collect_snap-Collected :
        (bunker_id path : String) (chain : EvidenceChain)
        → All ItemSound chain.items
        → Collected (collect_snap disk bunker_id path chain)
    unfolding lookup
    collect_snap-Collected bunker_id path chain h = elim (Bool-cases (disk.is_file path)) [
      | inl t ↦
          rw t (add_file-Collected bunker_id _ _ _ _ path chain refl h (disk.hash_file path) refl)
      | inr t ↦ rw t h
    ]

    collect_snaps-Collected :
        (bunker_id : String) (paths : List String) (chain : EvidenceChain)
        → All ItemSound chain.items
        → Collected (collect_snaps disk bunker_id paths chain)
    unfolding collect_snaps
    collect_snaps-Collected bunker_id [] chain h = h
    collect_snaps-Collected bunker_id (path ∷ paths) chain h =
        bind-Collected _ _ (collect_snap-Collected bunker_id path chain h)
          (collect_snaps-Collected bunker_id paths)

    collect_evidence-Collected : (bunker_id : String) → Collected (collect_evidence disk bunker_id)
    unfolding collect_evidence
    collect_evidence-Collected bunker_id =
        let reports = files_in disk "logs" (format (bunker_id ∷ "_decontamination_*.json" ∷ [])) in
        let snaps = files_in disk "snapshots" (format (bunker_id ∷ "*" ∷ [])) in
        bind-Collected
          (bind (collect_db disk bunker_id (no_evidence disk bunker_id))
            (collect_reports disk bunker_id reports))
          (collect_snaps disk bunker_id snaps)
          (bind-Collected (collect_db disk bunker_id (no_evidence disk bunker_id))
            (collect_reports disk bunker_id reports)
            (collect_db-Collected bunker_id (no_evidence disk bunker_id) tt)
            (collect_reports-Collected bunker_id reports))
          (collect_snaps-Collected bunker_id snaps)

    -- The evidence of a bunker, if it could be collected, verifies as long as the disk does not change.
    pub verify-collect_evidence :
        (bunker_id : String) (chain : EvidenceChain)
        → collect_evidence disk bunker_id ≡ ok chain
        → verify disk chain ≡ ok true
    verify-collect_evidence bunker_id chain e =
        (verify-Sound chain).1 (rw e at (collect_evidence-Collected bunker_id))
