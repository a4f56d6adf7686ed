-- ===== src/Layers/Laws.antt =====
-- What the template methods of lumenos_sandbox/layers.py promise of every subclass.
use lumenos_hiper_v.Prelude.{false, ◌≡◌, arith, ok}
use lumenos_hiper_v.Hypervisor.{HypervisorBackend}
use lumenos_hiper_v.Layers.{Layer, activate, deactivate}

module _ {W : Type 0} (shared : HypervisorBackend W) where
  -- `activate` never raises, and the flag that it leaves is the value that it returns.
  pub activate-is_active :
      (l : Layer) (w : W) → let r = activate shared l w in r.0 ≡ ok r.1.0.is_active
  unfolding activate
  activate-is_active l w = ground arith

-- After `deactivate` no layer is active.
pub deactivate-is_active : (l : Layer) → (deactivate l).is_active ≡ false
unfolding deactivate
deactivate-is_active l = ground arith
