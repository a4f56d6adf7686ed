-- ===== src/Agent/Runs.antt =====
-- What `deploy` and `collect` of lumenos_sandbox/analysis_agent.py leave behind.
use lumenos_hiper_v.Prelude.{
  ℕ, Bool, true, false, String, Option, none, some, List, [], ◌∷◌, is_some, is_nonempty, get_or,
  str_eq, eq_refl, lookup-insert, Outcome, ok, err, ◌≡◌, refl, ◌∙◌, ◌⊎◌, inl, inr, Bool-cases,
}
use lumenos_hiper_v.Agent.{
  AgentStatus, stopped, deploying, running, collecting, error, GuestReport, AnalysisReport,
  AnalysisAgent, set_status, get_status, get_report,
}
use lumenos_hiper_v.Agent.Events.{detect_iocs}
use lumenos_hiper_v.Agent.Guest.{
  Login, Shell, run_ps_direct, launch, deploy, report_of, file_report, receive, collect,
}

set_status-own :
    (vm_name : String) (status : AgentStatus) (a : AnalysisAgent)
    → get_status vm_name (set_status vm_name status a) ≡ status
unfolding get_status
set_status-own vm_name status a =
    rw (get_status, lookup-insert vm_name vm_name status a.agents, eq_refl vm_name) refl

set_status-other :
    (vm_name other : String) (status : AgentStatus) (a : AnalysisAgent)
    → str_eq vm_name other ≡ false
    → get_status other (set_status vm_name status a) ≡ get_status other a
unfolding get_status
set_status-other vm_name other status a d =
    rw (get_status, lookup-insert vm_name other status a.agents, d) refl

module _ {W : Type 0} (shell : Shell W) where
  -- What is known of a machine after `deploy`.
  abbrev pub Deployed : Login → AnalysisAgent → Bool × (AnalysisAgent × W) → Type 0
  Deployed login a r =
      (((r.0 ≡ true) × (get_status login.vm_name r.1.0 ≡ running))
        ⊎ ((r.0 ≡ false) × (get_status login.vm_name r.1.0 ≡ error)))
      × ((other : String)
          → (str_eq login.vm_name other ≡ true) ⊎ (get_status other r.1.0 ≡ get_status other a))
      × (r.1.0.reports ≡ a.reports)

  -- `deploy` answers True and leaves the machine RUNNING, or False and leaves it in ERROR; the status of
  -- every other machine and all the reports stay as they were.
  pub deploy_outcome :
      (login : Login) (duration_seconds : ℕ) (monitors : Option (List String))
      (s : AnalysisAgent × W)
      → Deployed login s.0 (deploy shell login duration_seconds monitors s)
  unfolding deploy
  deploy_outcome login duration_seconds monitors (a, w) =
      let first = set_status login.vm_name deploying a in
      elim (Bool-cases (
        is_some
          (launch shell login duration_seconds
            (get_or monitors ("process" ∷ "file" ∷ "network" ∷ [])) w).0)) [
              | inl t ↦
                  rw (deploy, t)
                    (inl (refl, set_status-own login.vm_name running first), others running, refl)
              | inr t ↦
                  rw (deploy, t)
                    (inr (refl, set_status-own login.vm_name error first), others error, refl)
            ]
    where
      others :
          (status : AgentStatus) (other : String)
          → (str_eq login.vm_name other ≡ true)
            ⊎ (get_status other
                  (set_status login.vm_name status (set_status login.vm_name deploying a))
                ≡ get_status other a)
      others status other = elim (Bool-cases (str_eq login.vm_name other)) [
        | inl t ↦ inl t
        | inr t ↦ inr (
            set_status-other login.vm_name other status (set_status login.vm_name deploying a) t
            ∙ set_status-other login.vm_name other deploying a t)
      ]

  -- What is known of a machine after `collect`.
  abbrev pub Collected : String → AnalysisAgent → Option AnalysisReport × AnalysisAgent → Type 0
  Collected vm_name a r =
      ((report : AnalysisReport) × (r.0 ≡ some report)
        × (get_status vm_name r.1 ≡ stopped)
        × (get_report vm_name r.1 ≡ some report)
        × (report.iocs ≡ detect_iocs shell.str report.events))
      ⊎ ((r.0 ≡ none) × (get_status vm_name r.1 ≡ error) × (r.1.reports ≡ a.reports))

  file_report-Collected :
      (vm_name : String) (r : Outcome GuestReport) (a : AnalysisAgent)
      → Collected vm_name a (file_report shell vm_name r a)
  unfolding get_report
  file_report-Collected vm_name (ok events) a =
      let report = report_of shell vm_name events in
      inl (
        report,
        refl,
        set_status-own vm_name stopped _,
        rw (get_report, lookup-insert vm_name vm_name report a.reports, eq_refl vm_name) refl,
        refl,
      )
  file_report-Collected vm_name (err e) a = inr (refl, set_status-own vm_name error a, refl)

  receive-Collected :
      (vm_name : String) (raw : Option String) (a : AnalysisAgent)
      → Collected vm_name a (receive shell vm_name raw a)
  receive-Collected vm_name none a = inr (refl, set_status-own vm_name error a, refl)
  receive-Collected vm_name (some raw) a = elim (Bool-cases (is_nonempty raw)) [
    | inl t ↦ rw t (file_report-Collected vm_name (shell.loads raw) a)
    | inr t ↦ rw t (inr (refl, set_status-own vm_name error a, refl))
  ]

  -- `collect` gives a report with the indicators found in its events, keeps it and leaves the machine
  -- STOPPED, or it gives nothing, keeps the reports as they were and leaves the machine in ERROR.
  collect_outcome :
      (login : Login) (s : AnalysisAgent × W)
      → let r = collect shell login s in Collected login.vm_name s.0 (r.0, r.1.0)
  unfolding collect
  collect_outcome login (a, w) =
      receive-Collected login.vm_name
        (run_ps_direct shell login "Get-Content 'C:\\Analysis\\Output\\report.json' -Raw" w).0
        (set_status login.vm_name collecting a)
