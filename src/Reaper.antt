-- ===== src/Reaper.antt =====
-- lumenos_sandbox/reaper.py: the removal of records that were abandoned in the state store, with the
-- machine, the switch and the disk that they name. Times are counted in ticks, and an age is kept as
-- the time that it is counted from; `str.upper` is modelled on ASCII letters.
pub mod Pass
pub mod Judging
use Prim.Native.Char.{code}
use lumenos_hiper_v.Prelude.{
  ℕ, ◌+◌, ◌-◌, suc, Bool, true, false, ◌&&◌, ◌||◌, not, String, Option, none, some, List, [], ◌∷◌,
  ◌++◌, map, any, keep_if, get_or, is_some, is_nonempty, is_given, format, ltb, leb, length, Exec,
  Outcome, ok, err, Exc, value_error, pure, raise, again, continue, ◌>>=◌, ◌>>◌, try_except,
  if◌then◌else◌, str_eq,
}
use lumenos_hiper_v.Types.{
  BunkerState, initializing, ready, active, terminating, decontaminating, destroyed, quarantine,
  error, state_name, state_eq,
}
use lumenos_hiper_v.Hypervisor.{HypervisorBackend}
use lumenos_hiper_v.Host.{Host}
use lumenos_hiper_v.Monitoring.Patterns.{codes, codes_eq}
use lumenos_hiper_v.Inspect.{lstrip, rstrip}
use lumenos_hiper_v.Inspect.Report.{sorted_set, join}
use lumenos_hiper_v.State.{StateStore, Storage, Entry, LoadedState, Action, list_all, load, delete}

-- `DEFAULT_STATES` and `NEVER_REAP_STATES`
abbrev pub default_states : List BunkerState
default_states = error ∷ []

abbrev pub never_reap_states : List BunkerState
never_reap_states = initializing ∷ ready ∷ active ∷ quarantine ∷ destroyed ∷ []

abbrev pub member : BunkerState → List BunkerState → Bool
member state states = any (state_eq state) states

abbrev all_states : List BunkerState
all_states =
    initializing ∷ ready ∷ active ∷ terminating ∷ decontaminating ∷ destroyed ∷ quarantine ∷ error
    ∷ []

abbrev named : List ℕ → List BunkerState → Option BunkerState
named name [] = none
named name (state ∷ states) =
    let rest = named name states in
    if codes_eq name (codes (state_name state)) then some state else rest

-- `BunkerState[name]`, on code points
unfoldable pub state_of_name : List ℕ → Option BunkerState
state_of_name name = named name all_states

abbrev upper_code : ℕ → ℕ
upper_code c = if leb b'a' c && leb c b'z' then c - 32 else c

-- `raw.strip().upper()`
abbrev normalized : String → List ℕ
normalized raw = map upper_code (codes (rstrip (lstrip raw)))

-- The loop of `select_states`; `repr` is Python's.
unfoldable pub requested_states : (String → String) → List String → Outcome (List BunkerState)
unfolding state_of_name
requested_states repr [] = ok []
requested_states repr (raw ∷ names) =
    let rest = requested_states repr names in
    elim (state_of_name (normalized raw)) [
      | none ↦ err (record {
        kind = value_error;
        message = format ("unknown bunker state: " ∷ repr raw ∷ []);
      })
      | some state ↦ elim rest [ ok states ↦ ok (state ∷ states) | err e ↦ err e ]
    ]

abbrev refused : BunkerState → Bool
refused state = member state never_reap_states

abbrev pub permitted : List BunkerState → Outcome (List BunkerState)
permitted states =
    if any refused states
    then err (record {
      kind = value_error;
      message = format (
          "refusing states that must never be reaped: "
          ∷ join (sorted_set (map state_name (keep_if refused states)))
          ∷ []);
    })
    else ok states

unfoldable pub select_states : (String → String) → List String → Outcome (List BunkerState)
unfolding requested_states
select_states repr [] = ok default_states
select_states repr (name ∷ names) = elim (requested_states repr (name ∷ names)) [
  | ok states ↦ permitted states
  | err e ↦ err e
]

pub record ReapOutcome : Type 0 where
  pub bunker_id : String
  pub state : String
  pub updated_at : String
  -- the time that the age is counted from
  pub stamp : Option ℕ
  pub removed : List String
  pub residual : List String
  pub row_deleted : Bool
  pub error : String

pub record ReapReport : Type 0 where
  pub dry_run : Bool
  pub scanned : ℕ
  pub skipped_state : ℕ
  pub skipped_recent : ℕ
  pub candidates : List ReapOutcome

-- What the loop makes of an entry.
pub data Judgement : Type 0 where
  skip_state skip_recent candidate : Judgement

-- `_age_hours`: the time of a stamp that is there and can be parsed
abbrev pub stamp_of : (String → Option ℕ) → String → Option ℕ
stamp_of fromisoformat updated_at =
    if is_nonempty updated_at then fromisoformat updated_at else none

-- `age is None or age < older_than_hours`
abbrev pub too_recent : ℕ → ℕ → Option ℕ → Bool
too_recent now older_than none = true
too_recent now older_than (some stamp) = ltb now (stamp + older_than)

abbrev pub judge_state : Option BunkerState → List BunkerState → Judgement → Judgement
judge_state none selected j = skip_state
judge_state (some state) selected j =
    if member state never_reap_states || not (member state selected) then skip_state else j

unfoldable pub judge : (String → Option ℕ) → ℕ → ℕ → List BunkerState → Entry → Judgement
unfolding state_of_name
judge fromisoformat now older_than selected entry =
    judge_state (state_of_name (codes entry.state)) selected (
      if ltb 0 older_than && too_recent now older_than (stamp_of fromisoformat entry.updated_at)
      then skip_recent
      else candidate)

abbrev pub new_outcome : (String → Option ℕ) → Entry → ReapOutcome
new_outcome fromisoformat entry = record {
  bunker_id = entry.bunker_id;
  state = entry.state;
  updated_at = entry.updated_at;
  stamp = stamp_of fromisoformat entry.updated_at;
  removed = [];
  residual = [];
  row_deleted = false;
  error = "";
}

abbrev stepped : String → Outcome Bool → ReapOutcome → ReapOutcome
stepped label (ok true) outcome = record outcome { removed = outcome.removed ++ label ∷ [] }
stepped label (ok false) outcome = record outcome {
  residual = outcome.residual ++ format (label ∷ " not removed" ∷ []) ∷ [];
}
stepped label (err e) outcome = record outcome {
  residual = outcome.residual ++ format (label ∷ " raised: " ∷ e.message ∷ []) ∷ [];
}

-- `_step`
abbrev pub step : {W : Type 0} → String → (W → Outcome Bool × W) → ReapOutcome → Exec W ReapOutcome
step label action outcome w = let (r, w') = action w in (ok (stepped label r outcome), w')

module _ {W : Type 0} (host : Host W) (backend : HypervisorBackend W)
    (file_name : String → String) where
  abbrev remove_named :
      Option String → String → (String → W → Outcome Bool × W) → ReapOutcome → Exec W ReapOutcome
  remove_named none label action outcome = pure outcome
  remove_named (some name) label action outcome =
      if is_nonempty name
      then step (format (label ∷ "(" ∷ name ∷ ")" ∷ [])) (action name) outcome
      else pure outcome

  abbrev resolved : String → Exec W String
  resolved path w = (host.resolve path w, w)

  -- The disk, if it stands right in snapshots/ and is there.
  abbrev delete_disk : String → ReapOutcome → Exec W ReapOutcome
  delete_disk bunker_id outcome w =
      (do
        snapshots ← resolved "snapshots"
        disk ← resolved (host.join snapshots (format (bunker_id ∷ "_system.vhdx" ∷ [])))
        if str_eq (host.parent disk) snapshots
            then (host.path_exists disk >>= λ exists.
                if exists
                then step (format ("delete_file(" ∷ file_name disk ∷ ")" ∷ []))
                    (backend.delete_file disk) outcome
                else pure outcome)
            else pure outcome)
        w

  unfoldable pub teardown :
      Option String → Option String → String → ReapOutcome → Exec W ReapOutcome
  teardown vm_name switch_name bunker_id outcome = do
    outcome1 ← remove_named vm_name "remove_vm" (λ vm. backend.remove_vm vm true) outcome
    outcome2 ← remove_named switch_name "remove_switch" backend.remove_switch outcome1
    delete_disk bunker_id outcome2
