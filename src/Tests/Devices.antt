-- ===== src/Tests/Devices.antt =====
-- The theorems on secrets, phones and images.
use lumenos_hiper_v.Prelude.{
  ℕ, ◌*◌, ◌≤◌, max, true, false, none, some, [], ◌∷◌, ◌≡◌, refl, All, values, lookup, runtime_error,
  Exc, ok, err, Option, String, str_eq, Bool-cases, inl, inr, arith, if◌then◌else◌,
}
use lumenos_hiper_v.Secrets.{missing, Keyring, store_secret, get_secret}
use lumenos_hiper_v.Secrets.Recall.{Kept, get_secret-store_secret}
use lumenos_hiper_v.Phone.{
  Device, PhoneSupport, linux_arm64, detect_platform, ensured, create_config,
}
use lumenos_hiper_v.Phone.Bounds.{create_config_bounds}
use lumenos_hiper_v.Images.{Tools}
use lumenos_hiper_v.Images.Builds.{
  Settled, to_create, to_build, after_calls, after_calls-AllSettled,
}

abbrev too_long : Exc
too_long = record { kind = runtime_error; message = "too long" }

-- A credential store that has one password, or none, and refuses one that is too long.
abbrev short_only : Keyring (Option String)
short_only = record {
  set_password = λ service name value w.
      if str_eq value "a long one" then (err too_long, w) else (ok tt, some value);
  get_password = λ service name w. (ok w, w);
  delete_password = λ service name w. (ok tt, none);
  write_text = λ w. (ok tt, w);
}

short_only-Kept : Kept short_only "lumenos_sandbox" "api"
short_only-Kept value w h = elim (Bool-cases (str_eq value "a long one")) [
  | inl e ↦ absurd (ground (arith, h, e))
  | inr e ↦ rw e refl
]

-- A value that is refused, and then comes back from the file.
get_secret-store_secret_example :
    (get_secret short_only "lumenos_sandbox" "api"
      (store_secret short_only "lumenos_sandbox" "api" "a long one" (missing, none)).1).0
    ≡ some "a long one"
unfolding store_secret
get_secret-store_secret_example =
    get_secret-store_secret short_only "lumenos_sandbox" "api" "a long one" (missing, none)
      short_only-Kept (λ refused stale e. cc) refl

-- An Android phone with Termux, as Python names its architecture.
abbrev device : Device
device = record {
  machine = "aarch64";
  system = "linux";
  has_termux = true;
  has_dev_kvm = false;
  has_dri = false;
  cpu_count = some 8;
  hyper_v_feature = ok "";
  video_controllers = ok "";
  windows_memory = ok 0;
  meminfo_total = ok (some 4194304);
  api_level = ok none;
}

abbrev new_phone : PhoneSupport
new_phone = record { capabilities = none; vms = [] }

create_config_bounds_example :
    let caps = ensured device new_phone in
    let (config, after) = create_config device "vm" 2048 4 new_phone in
    (128 ≤ config.memory_mb)
    × (config.memory_mb ≤ max 128 2048)
    × (512 ≤ caps.total_memory_mb → config.memory_mb * 4 ≤ caps.total_memory_mb)
    × (1 ≤ config.cpu_cores)
    × (2 ≤ caps.cpu_cores → config.cpu_cores * 2 ≤ caps.cpu_cores)
    × (config.disk_mb ≤ 4096)
    × (config.disk_mb ≤ config.memory_mb * 2)
    × (lookup "vm" after.vms ≡ some config)
    × (after.capabilities ≡ some caps)
create_config_bounds_example = create_config_bounds device "vm" 2048 4 new_phone

-- `"arm" in "aarch64"` is false, so the phone is taken for a Linux machine.
aarch64_test : detect_platform device ≡ linux_arm64
unfolding detect_platform lumenos_hiper_v.Monitoring.Patterns.occurs
aarch64_test = refl

abbrev builder : Tools ℕ
builder = record {
  powershell = λ script limit w. (ok 0, w);
  exists = λ path w. true;
  getsize = λ path w. ok 5242880;
  hash_file = λ path w. "e3b0";
  remove = λ path w. (ok tt, w);
  str = λ n. "1";
  vhdx_path = λ name. name;
}

after_calls-AllSettled_example : All (Settled builder) (
    values
      (after_calls builder (to_create "img" "pytorch" "" "latest" ∷ to_build "img" ∷ []) ([], 0)).0)
unfolding values
after_calls-AllSettled_example =
    after_calls-AllSettled builder (to_create "img" "pytorch" "" "latest" ∷ to_build "img" ∷ [])
      ([], 0) tt
