-- ===== src/Api/Replies.antt =====
-- When a route of lumenos_sandbox/api.py replies: all of its steps do.
use lumenos_hiper_v.Prelude.{
  ℕ, Bool, true, not, String, ◌≡◌, ◌↔◌, refl, arith, Outcome, ok, err, if◌then◌else◌,
}
use lumenos_hiper_v.Api.{Reply, reply, refuse, crash, ◌>>=◌, from_outcome}

module _ {A B : Type 0} where
  pub bind-reply :
      (r : Reply A) (f : A → Reply B) (b : B)
      → (r >>= f ≡ reply b) ↔ ((a : A) × (r ≡ reply a) × (f a ≡ reply b))
  bind-reply (reply a) f b = ((λ h. (a, refl, h)), (λ (a', e, h). cc))
  bind-reply (refuse status detail) f b = ((λ h. cc), (λ (a, e, h). cc))
  bind-reply (crash e) f b = ((λ h. cc), (λ (a, e', h). cc))

module _ {A : Type 0} where
  pub from_outcome-reply : (o : Outcome A) (a : A) → (from_outcome o ≡ reply a) ↔ (o ≡ ok a)
  from_outcome-reply (ok b) a = ((λ h. cc), (λ h. cc))
  from_outcome-reply (err e) a = ((λ h. cc), (λ h. cc))

  -- `if not test: raise HTTPException(…)`
  pub guard-reply :
      (test : Bool) (status : ℕ) (detail : String) (r : Reply A) (a : A)
      → ((if not test then refuse status detail else r) ≡ reply a) ↔ ((test ≡ true) × (r ≡ reply a))
  guard-reply test status detail r a = ground arith
