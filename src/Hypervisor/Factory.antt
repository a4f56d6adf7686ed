-- ===== src/Hypervisor/Factory.antt =====
-- lumenos_sandbox/hypervisor/__init__.py: the choice of a backend and its cache, and `detect_hypervisor` of
-- lumenos_sandbox/platform.py. A backend is its class; what the environment, the platform and the
-- probes answer to one call is an argument, since it may differ between calls.
pub mod Singleton
use lumenos_hiper_v.Prelude.{
  ℕ, Bool, true, false, not, ◌&&◌, ◌||◌, String, Option, none, some, str_eq, ◌==◌, Outcome, ok, err,
  if◌then◌else◌,
}

-- The class of a backend; `other` is one that `set_backend` was given.
pub data Backend : Type 0 where
  mock hyperv kvm other : Backend

abbrev pub class_number : Backend → ℕ
class_number mock = 0
class_number hyperv = 1
class_number kvm = 2
class_number other = 3

abbrev pub same_class : Backend → Backend → Bool
same_class a b = class_number a == class_number b

-- `_backend`
abbrev pub Cache : Type 0
Cache = Option Backend

pub record Answers : Type 0 where
  -- `os.getenv("LUMENOS_HYPERVISOR", "").lower()`
  pub override : String
  -- `sys.platform == "win32"`
  pub win32 : Bool
  -- `check_available()` of the two backends
  pub hyperv_available : Outcome Bool
  pub kvm_available : Outcome Bool
  pub has_kvm : Bool
  pub has_libvirt : Bool
  pub has_qemu : Bool

-- `_backend is None or _backend.__class__.__name__ != …`
abbrev pub not_cached : Backend → Cache → Bool
not_cached wanted none = true
not_cached wanted (some b) = not (same_class b wanted)

-- `try: available = check_available() except Exception: available = False`
abbrev pub succeeded : Outcome Bool → Bool
succeeded (ok available) = available
succeeded (err e) = false

abbrev pub or_mock : Bool → Backend → Backend
or_mock available b = if available then b else mock

abbrev pub cached_or : Cache → Backend → Backend
cached_or none b = b
cached_or (some cached) b = cached

-- The choice where neither the variable nor the cache decides.
abbrev pub by_platform : Answers → Backend
by_platform a =
    if a.win32
    then or_mock (succeeded a.hyperv_available) hyperv
    else or_mock ((a.has_kvm || a.has_libvirt || a.has_qemu) && succeeded a.kvm_available) kvm

-- The backend that `get_backend` returns, which is also the one that it leaves in the cache.
unfoldable pub chosen : Answers → Cache → Backend
chosen a cache =
    if str_eq a.override "mock"
    then (if not_cached mock cache then mock else cached_or cache mock)
    else if str_eq a.override "hyperv"
    then (if not_cached hyperv cache
        then or_mock (succeeded a.hyperv_available) hyperv
        else cached_or cache hyperv)
    else if str_eq a.override "kvm"
    then (if not_cached kvm cache then kvm else cached_or cache kvm)
    else cached_or cache (by_platform a)

unfoldable pub get_backend : Answers → Cache → Backend × Cache
unfolding chosen
get_backend a cache = let b = chosen a cache in (b, some b)

abbrev pub set_backend : Option Backend → Cache → Cache
set_backend b cache = b

abbrev pub reset_backend : Cache → Cache
reset_backend cache = none

-- `detect_hypervisor` of platform.py
unfoldable pub detect_hypervisor : Answers → Backend
detect_hypervisor a =
    if str_eq a.override "mock"
    then mock
    else if str_eq a.override "hyperv"
    then hyperv
    else if str_eq a.override "kvm"
    then kvm
    else if a.win32
    then hyperv
    else or_mock (a.has_kvm && a.has_libvirt && a.has_qemu) kvm
