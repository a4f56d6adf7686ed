-- ===== src/Hypervisor/Kvm/Bridge.antt =====
-- The bridge of a bunker's network in lumenos_sandbox/hypervisor/kvm_backend.py.
use Prim.Native.String
use text.Mathlib.TextLemmas.{append_cancel_left, nil-append, cons-append}
use lumenos_hiper_v.Prelude.{
  ℕ, ◌+◌, ◌-◌, ◌≤◌, ◌==◌, String, ◌≡◌, ◌↔◌, ap, arith, length, take_text, inl, inr, Bool-cases,
}
use lumenos_hiper_v.Monitoring.Patterns.{codes}
use lumenos_hiper_v.Hypervisor.Kvm.{Tools, bridge_name}

length-take_text : (n : ℕ) (s : String) → length (codes (take_text n s)) ≤ n
unfolding take_text
length-take_text n String.[] = omega arith
length-take_text n (String.◌∷◌ c s) = elim (Bool-cases (n == 0)) [
  | inl e ↦ rw e (omega arith)
  | inr e ↦ rw e (ground (arith, length-take_text (n - 1) s))
]

length-codes-append :
    (s t : String) → length (codes (String.◌++◌ s t)) ≡ length (codes s) + length (codes t)
length-codes-append String.[] t = rw (nil-append) (omega arith)
length-codes-append (String.◌∷◌ c s) t = rw (cons-append) (omega (arith, length-codes-append s t))

-- The bridge of a network has a name that Linux takes, of at most 15 characters; and the bridges of two
-- switches have the same name exactly if the digests of the two names begin with the same twelve
-- characters.
pub bridge_name_outcome :
    {W : Type 0} (tools : Tools W) (a b : String)
    → (length (codes (bridge_name tools a)) ≤ 15)
      × ((bridge_name tools a ≡ bridge_name tools b)
          ↔ (take_text 12 (tools.sha256 a) ≡ take_text 12 (tools.sha256 b)))
bridge_name_outcome tools a b = (
  omega (
    arith,
    length-codes-append "br-" (take_text 12 (tools.sha256 a)),
    length-take_text 12 (tools.sha256 a),
  ),
  (append_cancel_left "br-" _ _, ap (String.◌++◌ "br-")),
)
