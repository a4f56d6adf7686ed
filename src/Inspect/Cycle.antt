-- ===== src/Inspect/Cycle.antt =====
-- `analyze_sync` of lumenos_sandbox/inspect.py: a whole cycle. What the thread of the monitor did by
-- the end of the wait is an argument, and so is the bunker's fresh configuration and key.
use lumenos_hiper_v.Prelude.{
  ℕ, ◌+◌, ◌-◌, ◌*◌, min, Bool, true, false, ◌||◌, String, Option, none, some, List, [], ◌∷◌, get_or,
  format, is_nonempty, ltb, ◌==◌, ExcKind, is_deadline, Outcome, ok, err, pure, raise, ◌>>=◌, ◌>>◌,
  if◌then◌else◌, runtime_error, file_not_found, analysis_deadline_exceeded,
}
use mathlib.Core.Option
use lumenos_hiper_v.Types.{BunkerConfig}
use lumenos_hiper_v.Hypervisor.{BackendResult}
use lumenos_hiper_v.Host.{Env}
use lumenos_hiper_v.Monitoring.Monitor.{SecurityMonitor}
use lumenos_hiper_v.Bunker.{Bunker, Method, call, read, new_bunker, get_guest_password}
use lumenos_hiper_v.Bunker.Init.{initialize}
use lumenos_hiper_v.Bunker.Session.{activate}
use lumenos_hiper_v.Inspect.{Ioc, collect_iocs}
use lumenos_hiper_v.Inspect.Sample.{
  Sample, Hashed, check_deadline, effective_command_timeout, hash_sample,
}
use lumenos_hiper_v.Inspect.Disposal.{Disposal, decontaminate_if}
use lumenos_hiper_v.Inspect.Report.{InspectReport, build_inspect_report, exc_name, telemetry_error}

-- The arguments of `analyze_sync` and what it takes from its surroundings besides the host.
pub record Request (W : Type 0) : Type 0 where
  pub sample : Sample
  pub is_file : Bool
  -- the name of the sample, and its first bytes as text
  pub name : String
  pub text : Outcome String
  pub config : BunkerConfig
  pub key : String
  pub guest_path : Option String
  pub monitor_seconds : ℕ
  pub execute_timeout : ℕ
  pub timeout_seconds : Option ℕ
  -- `isinstance(bunker.backend, MockBackend)`
  pub is_mock : Bool
  pub size_limit : ℕ
  pub sha256 : List String → String
  pub digest : InspectReport → String
  pub sleep : ℕ → W → Outcome (Unit {0}) × W
  -- what the thread of the monitor did while the cycle waited
  pub watch : SecurityMonitor → W → SecurityMonitor × W
  pub delete_state : String → W → Outcome (Unit {0}) × W

-- `result.stderr or result.stdout`
abbrev failure_text : BackendResult → String
failure_text r = if is_nonempty r.stderr then r.stderr else r.stdout

-- `isinstance(exc, FileNotFoundError)`
abbrev pub is_file_not_found : ExcKind → Bool
is_file_not_found file_not_found = true
is_file_not_found _ = false

module _ {W : Type 0} (env : Env W) (request : Request W) where
  open env use {host, own}

  abbrev in_guest : String → ℕ → Method W BackendResult
  in_guest command timeout = do
    b ← read (λ b. b)
    password ← get_guest_password env
    call (
        own.execute_in_guest (get_or b.vm_name "") b.config.guest_username password command timeout)

  -- `_stage_to_guest`
  unfoldable pub stage_to_guest : String → ℕ → Method W (Unit {0})
  stage_to_guest guest_path timeout = if request.is_mock then pure tt else (do
    result ←
        in_guest
          (format (
            "If(!(Test-Path 'C:\\Samples')){New-Item -ItemType Directory -Force -Path 'C:\\Samples' | Out-Null}; Copy-Item -Force -LiteralPath '"
            ∷ request.sample.path ∷ "' -Destination '" ∷ guest_path ∷ "'" ∷ []))
          timeout
    if result.success
        then pure tt
        else raise runtime_error
            (format ("Failed to stage sample in guest: " ∷ failure_text result ∷ [])))

  -- `_execute_sample`
  unfoldable pub execute_sample : String → ℕ → Method W (Unit {0})
  execute_sample guest_path timeout = do
    result ← in_guest (format ("& \"" ∷ guest_path ∷ "\"" ∷ [])) timeout
    if result.success || request.is_mock
        then pure tt
        else raise runtime_error
            (format ("Sample execution failed in guest: " ∷ failure_text result ∷ []))

  -- `_sleep_within_deadline`
  unfoldable pub sleep_within_deadline : ℕ → Option ℕ → W → Outcome (Unit {0}) × W
  sleep_within_deadline seconds none = if seconds == 0 then pure tt else request.sleep seconds
  sleep_within_deadline seconds (some deadline) = if seconds == 0 then pure tt else (do
    t ← (λ w. let (t, w') = host.monotonic w in (ok t, w'))
    if ltb t deadline
        then request.sleep (min seconds (deadline - t))
        else raise analysis_deadline_exceeded "analysis deadline exceeded before monitor wait")

  abbrev monitored : Method W (Unit {0})
  monitored (b, w) =
      let (m, w') = request.watch b.monitor w in (ok tt, (record b { monitor = m }, w'))

  abbrev checked : Option ℕ → String → Method W (Unit {0})
  checked deadline checkpoint = call (check_deadline host.monotonic deadline checkpoint)

  abbrev command_timeout : Option ℕ → Method W ℕ
  command_timeout deadline =
      call (effective_command_timeout host.monotonic request.execute_timeout deadline)

  -- The body of the `try` of `analyze_sync`, once there is a bunker.
  unfoldable pub bunker_steps : Option ℕ → Method W (List Ioc)
  unfolding stage_to_guest execute_sample sleep_within_deadline
  bunker_steps deadline = do
    initialized ← initialize env deadline
    if initialized then pure tt else raise runtime_error "bunker initialize failed"
    checked deadline "after initialize"
    activated ← activate env
    if activated then pure tt else raise runtime_error "bunker activate failed"
    checked deadline "after activate"
    let guest_path = get_or request.guest_path (format ("C:\\Samples\\" ∷ request.name ∷ []))
    t₁ ← command_timeout deadline
    stage_to_guest guest_path t₁
    checked deadline "after staging"
    t₂ ← command_timeout deadline
    execute_sample guest_path t₂
    checked deadline "after execution"
    call (sleep_within_deadline request.monitor_seconds deadline)
    monitored
    checked deadline "after monitor wait"
    read (λ b. collect_iocs request.text b.monitor)

  -- The `try`, with the bunker that it made, if it made one.
  abbrev pub made : Option ℕ → Outcome (Unit {0}) × W → Outcome (List Ioc) × (Option Bunker × W)
  made deadline (err e, w) = (err e, (none, w))
  made deadline (ok u, w) =
      let (r, (b, w')) = bunker_steps deadline (new_bunker request.config request.key, w) in
      (r, (some b, w'))

  unfoldable pub run_cycle : Option ℕ → W → Outcome (List Ioc) × (Option Bunker × W)
  unfolding bunker_steps
  run_cycle deadline w =
      made deadline (check_deadline host.monotonic deadline "before bunker creation" w)

  -- The capabilities that the monitor of the bunker, if any, could not consult.
  abbrev pub unavailable : Option Bunker → List String
  unavailable none = []
  unavailable (some b) = b.monitor.telemetry_unavailable

  -- The clauses of `except`: the error of the report and its indicators, or the exception again.
  abbrev pub judged : Option Bunker → Outcome (List Ioc) → Outcome (List Ioc × Option String)
  judged b (ok iocs) = ok (iocs, telemetry_error (unavailable b))
  judged b (err e) =
      if is_file_not_found e.kind || is_deadline e.kind
      then err e
      else ok ([], some (format (exc_name e.kind ∷ ": " ∷ e.message ∷ [])))

  abbrev id_of : Option Bunker → String
  id_of none = ""
  id_of (some b) = b.config.id

  -- What follows the `finally`.
  abbrev pub concluded :
      ℕ
      → Hashed
      → Disposal
      → Outcome (List Ioc × Option String)
      → Option Bunker × W
      → Outcome InspectReport × (Option Bunker × W)
  concluded start hashed decon (err e) (b, w) = (err e, (b, w))
  concluded start hashed decon (ok (iocs, error)) (b, w) =
      let (t, w') = host.monotonic w in
      (
        ok (
            build_inspect_report request.digest hashed iocs (id_of b) ((t - start) * 1000) decon
              error),
        (b, w'),
      )

  -- The cycle of a sample that was hashed, with its decontamination.
  unfoldable pub analyze_hashed :
      ℕ → Option ℕ → Hashed → W → Outcome InspectReport × (Option Bunker × W)
  unfolding run_cycle
  analyze_hashed start deadline hashed w =
      let (r, (b, w₁)) = run_cycle deadline w in
      let (decon, (b', w₂)) = decontaminate_if env request.delete_state b w₁ in
      concluded start hashed decon (judged b' r) (b', w₂)

  -- The sample was hashed, or not.
  abbrev pub after_hash :
      ℕ → Option ℕ → Outcome Hashed × W → Outcome InspectReport × (Option Bunker × W)
  after_hash start deadline (err e, w) = (err e, (none, w))
  after_hash start deadline (ok hashed, w) = analyze_hashed start deadline hashed w

  unfoldable pub analyze_sync : W → Outcome InspectReport × (Option Bunker × W)
  unfolding analyze_hashed
  analyze_sync w =
      let (start, w₁) = host.monotonic w in
      let deadline = Option.map (λ seconds. start + seconds) request.timeout_seconds in
      if request.is_file
      then after_hash start deadline
          (hash_sample host.monotonic request.sha256 request.size_limit deadline request.sample w₁)
      else (raise file_not_found (format ("Sample not found: " ∷ request.sample.path ∷ []))
          (none, w₁))
