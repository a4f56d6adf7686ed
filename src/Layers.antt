-- ===== src/Layers.antt =====
-- lumenos_sandbox/layers.py: the template methods of `SecurityLayerBase` and the hooks of its five
-- subclasses, told apart by their `layer`. Counters that no code writes are left out, and so are
-- the failure probabilities. The functions of lumenos_sandbox/hyperv_client.py that the hooks call
-- are those of the shared backend.
pub mod Laws
use lumenos_hiper_v.Prelude.{
  Bool, true, false, not, String, Option, none, some, List, [], ◌∷◌, any, get_or, is_given, Exec,
  Outcome, ok, pure, ◌>>=◌, ◌>>◌, try_except, if◌then◌else◌,
}
use lumenos_hiper_v.Types.{SecurityLayer, network, filesystem, process, memory, hypervisor}
use lumenos_hiper_v.Hypervisor.{HypervisorBackend, GuestProcess}
use lumenos_hiper_v.Monitoring.Patterns.{codes, codes_eq, lower}

pub record Layer : Type 0 where
  pub layer : SecurityLayer
  pub is_active : Bool
  pub vm_name : Option String
  pub username : String
  pub password : String
  pub allow_dns : Bool
  pub differential_disk_path : String
  pub secure_boot_active : Bool
  pub tpm_verified : Bool

-- The layer's constructor, `allow_dns` at its default.
abbrev pub new_layer : SecurityLayer → Layer
new_layer kind = record {
  layer = kind;
  is_active = false;
  vm_name = none;
  username = "";
  password = "";
  allow_dns = false;
  differential_disk_path = "";
  secure_boot_active = false;
  tpm_verified = false;
}

abbrev pub set_layer_credentials : String → String → String → Layer → Layer
set_layer_credentials vm username password l = record l {
  vm_name = some vm;
  username = username;
  password = password;
}

abbrev is_empty : List String → Bool
is_empty [] = true
is_empty (x ∷ xs) = false

-- The registry keys that `FilesystemSecurityLayer._do_verify` reads.
abbrev pub persistence_keys : List String
persistence_keys =
    "HKLM:\\SOFTWARE\\Microsoft\\Windows\\CurrentVersion\\Run"
    ∷ "HKLM:\\SOFTWARE\\Microsoft\\Windows\\CurrentVersion\\RunOnce" ∷ []

-- The names that `ProcessSecurityLayer._do_verify` looks for, matched whole.
abbrev pub suspicious_processes : List String
suspicious_processes = "mimikatz" ∷ "procdump" ∷ "psexec" ∷ "netcat" ∷ "nc" ∷ "ncat" ∷ []

-- `p.get("ProcessName", "").lower()` is one of the names.
is_suspicious : GuestProcess → Bool
is_suspicious p =
    any (λ name. codes_eq (codes name) (lower (codes (get_or p.process_name ""))))
      suspicious_processes

module _ {W : Type 0} (shared : HypervisorBackend W) where
  abbrev On : Type 0 → Type 0
  On A = Exec (Layer × W) A

  -- A call of the backend leaves the layer alone.
  abbrev call : {A : Type 0} → (W → Outcome A × W) → On A
  call f (l, w) = let (r, w') = f w in (r, (l, w'))

  -- The guest is configured only once its virtual machine is known.
  isolate_network : Layer → On Bool
  isolate_network l = do
    call (shared.enable_guest_integration (get_or l.vm_name ""))
    call (
        shared.configure_guest_firewall (get_or l.vm_name "") l.username l.password true
          l.allow_dns)
    pure true

  watch_processes : Layer → On Bool
  watch_processes l = do call (shared.enable_guest_integration (get_or l.vm_name "")); pure true

  -- `_do_activate` of the five subclasses
  unfoldable pub do_activate : SecurityLayer → Layer → On Bool
  unfolding isolate_network watch_processes
  do_activate network l = if is_given l.vm_name then isolate_network l else pure true
  do_activate filesystem l = pure true
  do_activate process l = if is_given l.vm_name then watch_processes l else pure true
  do_activate memory l = pure true
  do_activate hypervisor l =
      λ (_, w). (ok true, (record l { secure_boot_active = true; tpm_verified = true }, w))

  abbrev set_active : Bool → On Bool
  set_active b (l, w) = (ok b, (record l { is_active = b }, w))

  unfoldable pub activate : Layer → W → Outcome Bool × (Layer × W)
  unfolding do_activate
  activate l w =
      try_except (do success ← do_activate l.layer l; set_active success) (λ e. set_active false)
        (l, w)

  -- Each key is read in turn, until one has entries.
  no_entries : String → String → String → List String → W → Outcome Bool × W
  no_entries vm username password [] = pure true
  no_entries vm username password (key ∷ keys) =
      let rest = no_entries vm username password keys in
      do
        entries ← shared.check_guest_registry vm username password key
        if is_empty entries then rest else pure false

  -- `_do_verify` of the five subclasses
  unfoldable pub do_verify : SecurityLayer → Layer → W → Outcome Bool × W
  unfolding no_entries is_suspicious
  do_verify network l = shared.test_guest_connectivity (get_or l.vm_name "") l.username l.password
  do_verify filesystem l = no_entries (get_or l.vm_name "") l.username l.password persistence_keys
  do_verify process l = do
    processes ← shared.get_guest_processes (get_or l.vm_name "") l.username l.password
    pure (not (any is_suspicious processes))
  do_verify memory l = do
    status ← shared.check_guest_vbs_status (get_or l.vm_name "") l.username l.password
    pure status.vbs_enabled
  do_verify hypervisor l = shared.check_available

  unfoldable pub verify : Layer → W → Outcome Bool × W
  unfolding do_verify
  verify l = if is_given l.vm_name then do_verify l.layer l else pure l.is_active

-- The hooks raise nothing; the filesystem layer also forgets its disk.
abbrev deactivate_as : SecurityLayer → Layer → Layer
deactivate_as filesystem l = record l { differential_disk_path = ""; is_active = false }
deactivate_as _ l = record l { is_active = false }

unfoldable pub deactivate : Layer → Layer
deactivate l = deactivate_as l.layer l
