-- ===== src/Inspect/Disposal.antt =====
-- `_decontaminate` of lumenos_sandbox/inspect.py: how a cycle disposes of its bunker.
use lumenos_hiper_v.Prelude.{
  Bool, true, false, String, Option, none, some, List, [], ◌∷◌, ◌++◌, map, get_or, is_given, format,
  Outcome, ok, err, if◌then◌else◌,
}
use lumenos_hiper_v.Types.{active, state_eq, DecontaminationReport}
use lumenos_hiper_v.Host.{Env}
use lumenos_hiper_v.Monitoring.Monitor.{stop_monitoring}
use lumenos_hiper_v.Bunker.{Bunker}
use lumenos_hiper_v.Bunker.Session.{terminate}

-- The `decontamination` entry of the report.
pub record Disposal : Type 0 where
  pub success : Bool
  pub steps : List String

-- `_DECON_STEP_NAMES`
abbrev pub decon_step_names : List String
decon_step_names =
    "terminate_processes" ∷ "purge_memory" ∷ "destroy_differential_disk" ∷ "clean_network_config"
    ∷ "remove_snapshots" ∷ "verify_host_integrity" ∷ "generate_report" ∷ []

abbrev prefixed : String → List String → List String
prefixed prefix names = map (λ name. format (prefix ∷ name ∷ [])) names

-- What is said of a bunker that was terminated, from its report.
unfoldable pub from_report : Option DecontaminationReport → Bool → Disposal
from_report (some report) ok_flag = record {
  success = report.success;
  steps =
      report.steps_completed
      ++ prefixed "failed: " report.steps_failed
      ++ prefixed "warning: " report.warnings;
}
from_report none true = record { success = true; steps = decon_step_names }
from_report none false = record { success = false; steps = "terminate returned failure" ∷ [] }

-- `'ok' if ok else 'failed'`
abbrev ok_text : Bool → String
ok_text true = "ok"
ok_text false = "failed"

-- The entry of one direct call: its answer, or the exception.
abbrev call_text : String → String → Outcome Bool → String
call_text name argument (ok done) = format (name ∷ "(" ∷ argument ∷ ")=" ∷ ok_text done ∷ [])
call_text name argument (err e) = format (name ∷ " failed: " ∷ e.message ∷ [])

-- A name is forgotten if the call that removes what it names returned.
abbrev pub forget : Outcome Bool → Option String → Option String
forget (ok done) name = none
forget (err e) name = name

module _ {W : Type 0} (env : Env W) (delete_state : String → W → Outcome (Unit {0}) × W) where
  open env use {host, own}

  -- The branch of a bunker that is ACTIVE.
  abbrev from_terminate : Outcome Bool → Bunker → Disposal
  from_terminate (ok ok_flag) b = from_report b.decontamination_report ok_flag
  from_terminate (err e) b = record {
    success = false;
    steps = format ("decontamination error: " ∷ e.message ∷ []) ∷ [];
  }

  unfoldable pub dispose_active : Bunker × W → Disposal × (Bunker × W)
  unfolding from_report
  dispose_active s = let (r, (b, w)) = terminate env s in (from_terminate r b, (b, w))

  -- The direct removal of the machine, the switch and the disk, on the steps so far.
  unfoldable pub remove_machine : List String × (Bunker × W) → List String × (Bunker × W)
  remove_machine (steps, (b, w)) =
      let vm = get_or b.vm_name "" in
      let (r, w') = own.remove_vm vm true w in
      if is_given b.vm_name
      then (
        steps ++ call_text "remove_vm" vm r ∷ [],
        (record b { vm_name = forget r b.vm_name }, w'),
      )
      else (steps, (b, w))

  unfoldable pub remove_network : List String × (Bunker × W) → List String × (Bunker × W)
  remove_network (steps, (b, w)) =
      let switch = get_or b.switch_name "" in
      let (r, w') = own.remove_switch switch w in
      if is_given b.switch_name
      then (
        steps ++ call_text "remove_switch" switch r ∷ [],
        (record b { switch_name = forget r b.switch_name }, w'),
      )
      else (steps, (b, w))

  -- `if diff_vhd.exists(): …`, from what `exists` gave
  abbrev remove_found : String → Outcome Bool → List String × W → List String × W
  remove_found disk (ok true) (steps, w) =
      let (r, w') = own.delete_file disk w in (steps ++ call_text "delete_file" disk r ∷ [], w')
  remove_found disk (ok false) (steps, w) = (steps, w)
  remove_found disk (err e) (steps, w) =
      (steps ++ format ("delete_file failed: " ∷ e.message ∷ []) ∷ [], w)

  unfoldable pub remove_disk : List String × (Bunker × W) → List String × (Bunker × W)
  remove_disk (steps, (b, w)) =
      let disk = host.join "snapshots" (format (b.config.id ∷ "_system.vhdx" ∷ [])) in
      let (there, w₁) = host.path_exists disk w in
      let (steps', w₂) = remove_found disk there (steps, w₁) in (steps', (b, w₂))

  -- The branch of a bunker that is not ACTIVE.
  unfoldable pub dispose_inactive : Bunker × W → Disposal × (Bunker × W)
  unfolding remove_machine remove_network remove_disk
  dispose_inactive s =
      let (steps, t) = remove_disk (remove_network (remove_machine ([], s))) in
      (record { success = true; steps = steps }, t)

  unfoldable pub decontaminate : Bunker × W → Disposal × (Bunker × W)
  unfolding dispose_active dispose_inactive
  decontaminate (b, w) =
      let stopped = record b { monitor = stop_monitoring b.monitor } in
      let (disposal, (b', w')) =
        if state_eq b.state active
        then dispose_active (stopped, w)
        else dispose_inactive (stopped, w) in
      (disposal, (b', (delete_state b.config.id w').1))

  -- `_decontaminate`, which also takes None
  unfoldable pub decontaminate_if : Option Bunker → W → Disposal × (Option Bunker × W)
  unfolding decontaminate
  decontaminate_if none w =
      (record { success = false; steps = "no bunker created" ∷ [] }, (none, w))
  decontaminate_if (some b) w =
      let (disposal, (b', w')) = decontaminate (b, w) in (disposal, (some b', w'))
