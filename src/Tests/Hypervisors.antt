-- ===== src/Tests/Hypervisors.antt =====
-- The theorems on the choice of a backend and on the one for KVM.
use lumenos_hiper_v.Prelude.{
  ℕ, true, false, none, some, ◌≡◌, ◌≢◌, ◌⊎◌, refl, Exc, ok, err, guest_telemetry_unavailable,
}
use lumenos_hiper_v.Types.{memory}
use lumenos_hiper_v.Hypervisor.Factory.{Answers, hyperv, kvm, mock, get_backend, detect_hypervisor}
use lumenos_hiper_v.Hypervisor.Factory.Singleton.{Justified, get_backend_outcome}
use lumenos_hiper_v.Hypervisor.Kvm.{Tools}
use lumenos_hiper_v.Hypervisor.Kvm.Guest.{kvm_backend}
use lumenos_hiper_v.Hypervisor.Kvm.Refusals.{verify-Kvm}
use lumenos_hiper_v.Layers
use lumenos_hiper_v.Layers.{Layer, new_layer, set_layer_credentials}

-- A Linux host with libvirt and qemu-img, and no /dev/kvm.
abbrev answers : Answers
answers = record {
  override = "";
  win32 = false;
  hyperv_available = ok false;
  kvm_available = ok true;
  has_kvm = false;
  has_libvirt = true;
  has_qemu = true;
}

get_backend_outcome_example :
    let (b, after) = get_backend answers none in
    (after ≡ some b)
    × Justified answers none b
    × ((later : Answers)
        → later.override ≡ answers.override
        → ((answers.override ≢ "hyperv") ⊎ (b ≡ hyperv))
        → (get_backend later after).0 ≡ b)
get_backend_outcome_example = get_backend_outcome answers none

-- The factory takes KVM there, and `detect_hypervisor` the mock.
without_dev_kvm_test : ((get_backend answers none).0 ≡ kvm) × (detect_hypervisor answers ≡ mock)
unfolding get_backend detect_hypervisor
without_dev_kvm_test = (refl, refl)

abbrev tools : Tools ℕ
tools = record {
  run = λ command limit w. (record { success = true; out = ""; errors = "" }, w);
  which = λ name w. true;
  make_parent = λ path w. (ok tt, w);
  unlink = λ path w. (ok tt, w);
  write_temp = λ text w. (ok "/tmp/x.xml", w);
  sleep_half = λ w. w;
  str = λ n. "1";
  sha256 = λ text. text;
  decimal_of_hex = λ text. "1";
  exec_payload = λ command. command;
  status_payload = λ pid. pid;
  pid_of = λ out. ok none;
  status_of = λ out. ok (record { exited = true; exitcode = 0; out_data = ""; err_data = "" });
  b64decode = λ text. ok text;
}

abbrev watched : Layer
watched = set_layer_credentials "bunker_b" "Administrator" "" (new_layer memory)

verify-Kvm_example :
    (e : Exc) × (Layers.verify (kvm_backend tools) watched 0 ≡ (err e, 0))
    × (e.kind ≡ guest_telemetry_unavailable)
verify-Kvm_example = verify-Kvm tools watched 0 refl (λ e. cc)
