-- ===== src/Reaper/Pass.antt =====
-- One pass of `reap` in lumenos_sandbox/reaper.py over a state store.
pub mod DryRun
pub mod Reaped
use lumenos_hiper_v.Prelude.{
  ℕ, ◌+◌, suc, Bool, true, false, ◌&&◌, not, String, Option, none, some, List, [], ◌∷◌, ◌++◌,
  is_nonempty, format, ltb, length, Exec, Outcome, ok, err, Exc, pure, again, continue, ◌>>=◌, ◌>>◌,
  try_except, if◌then◌else◌,
}
use lumenos_hiper_v.Types.{BunkerState}
use lumenos_hiper_v.Hypervisor.{HypervisorBackend}
use lumenos_hiper_v.Host.{Host}
use lumenos_hiper_v.State.{
  StateStore, Storage, Entry, LoadedState, Action, lift_to, list_all, load, delete,
}
use lumenos_hiper_v.Reaper.{
  select_states, ReapOutcome, ReapReport, Judgement, skip_state, skip_recent, candidate, judge,
  new_outcome, teardown,
}

-- What a pass is given: its surroundings and its options.
pub record Setup (W : Type 0) : Type 0 where
  pub host : Host W
  pub backend : HypervisorBackend W
  pub storage : Storage W
  -- `p.name`, `repr` and `datetime.fromisoformat`
  pub file_name : String → String
  pub repr : String → String
  pub fromisoformat : String → Option ℕ
  pub execute : Bool
  pub states : List String
  pub older_than : ℕ
  pub keep_on_failure : Bool
  pub now : ℕ

-- A call on the world beside the store.
abbrev pub on_world : {W A : Type 0} → Exec W A → Exec (StateStore × W) A
on_world m (s, w) = let (r, w') = m w in (r, (s, w'))

abbrev pub vm_of : Option LoadedState → Option String
vm_of none = none
vm_of (some record_) = record_.vm_name

abbrev pub switch_of : Option LoadedState → Option String
switch_of none = none
switch_of (some record_) = record_.switch_name

module _ {W : Type 0} (setup : Setup W) where
  -- `try: outcome.row_deleted = bool(store.delete(bid))`
  abbrev pub delete_row : String → ReapOutcome → Action setup.storage ReapOutcome
  delete_row bunker_id outcome =
      try_except
        (delete setup.storage bunker_id >>= λ known. pure (record outcome { row_deleted = known }))
        λ e. pure (record outcome { error = format ("could not delete row: " ∷ e.message ∷ []) })

  abbrev pub close_row : String → ReapOutcome → Action setup.storage ReapOutcome
  close_row bunker_id outcome =
      if ltb 0 (length outcome.residual) && setup.keep_on_failure
      then pure (record outcome { error = "row kept: cleanup left residuals (--keep-on-failure)" })
      else delete_row bunker_id outcome

  -- What is done about a candidate.
  unfoldable pub dispose : Entry → Action setup.storage ReapOutcome
  unfolding teardown
  dispose entry =
      let outcome = new_outcome setup.fromisoformat entry in
      if setup.execute
      then (do
        record_ ← load setup.storage entry.bunker_id
        torn ← on_world (
            teardown setup.host setup.backend setup.file_name (vm_of record_) (switch_of record_)
              entry.bunker_id outcome)
        close_row entry.bunker_id torn)
      else pure outcome

  abbrev pub judged_entry : List BunkerState → Entry → Judgement
  judged_entry selected entry = judge setup.fromisoformat setup.now setup.older_than selected entry

  abbrev pub take_up : Judgement → Entry → ReapReport → Action setup.storage ReapReport
  take_up skip_state entry report =
      pure (record report { skipped_state = suc report.skipped_state })
  take_up skip_recent entry report =
      pure (record report { skipped_recent = suc report.skipped_recent })
  take_up candidate entry report = dispose entry >>= λ outcome.
      pure (record report { candidates = report.candidates ++ outcome ∷ [] })

  unfoldable pub scan_entries :
      List BunkerState → List Entry → ReapReport → Action setup.storage ReapReport
  unfolding dispose
  scan_entries selected [] report = pure report
  scan_entries selected (entry ∷ entries) report =
      take_up (judged_entry selected entry) entry (record report { scanned = suc report.scanned })
      >>= λ report'. scan_entries selected entries report'

  abbrev pub empty_report : ReapReport
  empty_report = record {
    dry_run = not setup.execute;
    scanned = 0;
    skipped_state = 0;
    skipped_recent = 0;
    candidates = [];
  }

  unfoldable pub reap : Action setup.storage ReapReport
  unfolding scan_entries
  reap = do
    selected ← lift_to (select_states setup.repr setup.states)
    entries ← list_all setup.storage
    scan_entries selected entries empty_report
