-- ===== src/Agent/Guest.antt =====
-- `deploy`, `collect` and PowerShell Direct of lumenos_sandbox/analysis_agent.py.
use Prim.Native.Char.{code}
use lumenos_hiper_v.Prelude.{
  ℕ, ◌==◌, Bool, true, false, String, Option, none, some, List, [], ◌∷◌, is_some, is_nonempty,
  get_or, format, insert, Outcome, ok, err, if◌then◌else◌,
}
use lumenos_hiper_v.Inspect.{lstrip, rstrip}
use lumenos_hiper_v.Agent.{
  stopped, deploying, running, collecting, error, GuestReport, AnalysisReport, AnalysisAgent,
  set_status,
}
use lumenos_hiper_v.Agent.Events.{detect_iocs, generate_summary}

-- `text.replace("'", "''")`
unfoldable pub escape : String → String
escape String.[] = ""
escape (String.◌∷◌ c s) =
    let rest = escape s in
    if code c == 39 then String.◌∷◌ c (String.◌∷◌ c rest) else String.◌∷◌ c rest

-- Who calls into which machine.
pub record Login : Type 0 where
  pub vm_name : String
  pub user : String
  pub password : String

abbrev pub cred_cmd : Login → String
cred_cmd login =
    let safe_password = escape login.password in
    let safe_user = escape login.user in
    if is_nonempty safe_password
    then format (
        "$pass = ConvertTo-SecureString '" ∷ safe_password
        ∷ "' -AsPlainText -Force; $cred = New-Object System.Management.Automation.PSCredential('"
        ∷ safe_user ∷ "', $pass); " ∷ [])
    else format (
        "$cred = New-Object System.Management.Automation.PSCredential('" ∷ safe_user
        ∷ "', (ConvertTo-SecureString '' -AsPlainText -Force)); " ∷ [])

unfoldable pub ps_script : Login → String → String
unfolding escape
ps_script login command = format (
    cred_cmd login
    ∷ "Invoke-Command -VMName '"
    ∷ escape login.vm_name
    ∷ "' -Credential $cred -ScriptBlock { "
    ∷ command
    ∷ " }"
    ∷ [])

-- What the agent calls on the host, and the constant AGENT_SCRIPT_POWERSHELL.
pub record Shell (W : Type 0) : Type 0 where
  -- base64 of the text in UTF-16, which may raise
  pub encode : String → Outcome String
  -- the return code and the output of `powershell -EncodedCommand`
  pub powershell : String → W → Outcome (ℕ × String) × W
  pub loads : String → Outcome GuestReport
  pub str : ℕ → String
  pub join : List String → String
  pub agent_script : String

module _ {W : Type 0} (shell : Shell W) where
  open shell use {encode, powershell, loads, str, join, agent_script}

  -- `r.stdout.strip() if r.returncode == 0 else None`
  abbrev pub answer : Outcome (ℕ × String) → Option String
  answer (ok (returncode, stdout)) = if returncode == 0 then some (rstrip (lstrip stdout)) else none
  answer (err e) = none

  abbrev pub run_encoded : Outcome String → W → Option String × W
  run_encoded (ok encoded) w = let (r, w') = powershell encoded w in (answer r, w')
  run_encoded (err e) w = (none, w)

  unfoldable pub run_ps_direct : Login → String → W → Option String × W
  unfolding ps_script
  run_ps_direct login command w = run_encoded (encode (ps_script login command)) w

  unfoldable pub write_to_guest : Login → String → String → W → Bool × W
  unfolding run_ps_direct
  write_to_guest login remote_path content w =
      let (result, w') =
        run_ps_direct login
          (format (
            "Set-Content -Path '"
            ∷ escape remote_path
            ∷ "' -Value '"
            ∷ escape content
            ∷ "' -Force"
            ∷ []))
          w in
      (is_some result, w')

  abbrev pub start_command : ℕ → List String → String
  start_command duration_seconds monitors = format (
      "Start-Process powershell -ArgumentList '-NoProfile -ExecutionPolicy Bypass -File C:\\Analysis\\agent.ps1 -DurationSeconds "
      ∷ str duration_seconds
      ∷ " -Monitors ("
      ∷ join monitors
      ∷ ")' -WindowStyle Hidden"
      ∷ [])

  -- The three calls of `deploy`; what the first two answer is not looked at.
  unfoldable pub launch : Login → ℕ → List String → W → Option String × W
  unfolding run_ps_direct write_to_guest
  launch login duration_seconds monitors w =
      let (made, w1) =
        run_ps_direct login "New-Item -ItemType Directory -Force -Path 'C:\\Analysis\\Output'" w in
      let (is_written, w2) = write_to_guest login "C:\\Analysis\\agent.ps1" agent_script w1 in
      run_ps_direct login (start_command duration_seconds monitors) w2

  unfoldable pub deploy :
      Login → ℕ → Option (List String) → AnalysisAgent × W → Bool × (AnalysisAgent × W)
  unfolding launch
  deploy login duration_seconds monitors (a, w) =
      let deploying_agent = set_status login.vm_name deploying a in
      let (result, w') =
        launch login duration_seconds (get_or monitors ("process" ∷ "file" ∷ "network" ∷ [])) w in
      if is_some result
      then (true, (set_status login.vm_name running deploying_agent, w'))
      else (false, (set_status login.vm_name error deploying_agent, w'))

  abbrev pub report_of : String → GuestReport → AnalysisReport
  report_of vm_name events =
      let iocs = detect_iocs str events in
      record {
        sandbox_id = vm_name;
        events = events;
        iocs = iocs;
        summary = generate_summary events iocs;
      }

  -- `collect`, after the report of the guest was read
  abbrev pub file_report :
      String → Outcome GuestReport → AnalysisAgent → Option AnalysisReport × AnalysisAgent
  file_report vm_name (ok events) a =
      let report = report_of vm_name events in
      (
        some report,
        set_status vm_name stopped (record a { reports = insert vm_name report a.reports }),
      )
  file_report vm_name (err e) a = (none, set_status vm_name error a)

  abbrev pub receive :
      String → Option String → AnalysisAgent → Option AnalysisReport × AnalysisAgent
  receive vm_name none a = (none, set_status vm_name error a)
  receive vm_name (some raw) a =
      if is_nonempty raw
      then file_report vm_name (loads raw) a
      else (none, set_status vm_name error a)

  unfoldable pub collect : Login → AnalysisAgent × W → Option AnalysisReport × (AnalysisAgent × W)
  unfolding run_ps_direct
  collect login (a, w) =
      let collecting_agent = set_status login.vm_name collecting a in
      let (raw, w') =
        run_ps_direct login "Get-Content 'C:\\Analysis\\Output\\report.json' -Raw" w in
      let (report, a') = receive login.vm_name raw collecting_agent in (report, (a', w'))
