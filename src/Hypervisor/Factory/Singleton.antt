-- ===== src/Hypervisor/Factory/Singleton.antt =====
-- Which backend `get_backend` of lumenos_sandbox/hypervisor/__init__.py gives, and when it gives the same
-- one again.
use lumenos_hiper_v.Prelude.{
  Bool, true, false, none, some, eq_iff, ◌≡◌, ◌≢◌, ◌⊎◌, refl, arith, Outcome, ok, err,
}
use lumenos_hiper_v.Hypervisor.Factory.{
  Backend, mock, hyperv, kvm, other, Cache, Answers, succeeded, chosen, get_backend,
}

-- What stands behind a backend that `get_backend` returns: the override, the cache or a probe.
abbrev pub Justified : Answers → Cache → Backend → Type 0
Justified a cache mock = Unit
Justified a cache hyperv = (cache ≡ some hyperv) ⊎ (a.hyperv_available ≡ ok true)
Justified a cache kvm =
    (cache ≡ some kvm) ⊎ (a.override ≡ "kvm") ⊎ ((a.win32 ≡ false) × (a.kvm_available ≡ ok true))
Justified a cache other = cache ≡ some other

succeeded-ok : (o : Outcome Bool) → succeeded o ≡ true → o ≡ ok true
succeeded-ok (ok b) h = ground (arith, h)
succeeded-ok (err e) h = cc

chosen-Justified : (a : Answers) (cache : Cache) → Justified a cache (chosen a cache)
unfolding chosen
chosen-Justified a none =
    ground (
      arith,
      eq_iff a.override "kvm",
      succeeded-ok a.hyperv_available,
      succeeded-ok a.kvm_available,
    )
chosen-Justified a (some mock) =
    ground (arith, eq_iff a.override "kvm", succeeded-ok a.hyperv_available)
chosen-Justified a (some hyperv) =
    ground (arith, eq_iff a.override "kvm", succeeded-ok a.hyperv_available)
chosen-Justified a (some kvm) =
    ground (arith, eq_iff a.override "kvm", succeeded-ok a.hyperv_available)
chosen-Justified a (some other) =
    ground (arith, eq_iff a.override "kvm", succeeded-ok a.hyperv_available)

chosen-again :
    (a later : Answers) (cache : Cache)
    → later.override ≡ a.override
    → ((a.override ≢ "hyperv") ⊎ (chosen a cache ≡ hyperv))
    → chosen later (some (chosen a cache)) ≡ chosen a cache
unfolding chosen
chosen-again a later none same h = ground (arith, eq_iff a.override "hyperv")
chosen-again a later (some b) same h = ground (arith, eq_iff a.override "hyperv")

-- `get_backend` caches what it returns. Hyper-V it returns only if it was cached or its probe answered
-- True, and KVM only if it was cached, asked for, or its probe answered True on a host that is not
-- Windows; any other backend is the mock or the one that was set. With the same override a second
-- call returns the same backend, whatever the probes answer by then, unless Hyper-V is asked for and
-- is not what was returned.
pub get_backend_outcome :
    (a : Answers) (cache : Cache)
    → let (b, after) = get_backend a cache in
      (after ≡ some b)
      × Justified a cache b
      × ((later : Answers)
          → later.override ≡ a.override
          → ((a.override ≢ "hyperv") ⊎ (b ≡ hyperv))
          → (get_backend later after).0 ≡ b)
unfolding get_backend
get_backend_outcome a cache =
    (refl, chosen-Justified a cache, (λ later same h. chosen-again a later cache same h))
