-- ===== src/Api.antt =====
-- lumenos_sandbox/api.py: what a route answers. Api/Access has the bearer token, the audit line and the
-- confinement of sample paths, Api/Ids the pattern of a bunker id, Api/Slots the admission of analyses
-- and Api/Routes the registry of bunkers and the routes that manage them. FastAPI and the models of
-- pydantic are not modelled: a function gets the values that they pass on.
pub mod Access
pub mod Replies
pub mod Bearer
pub mod Confinement
pub mod Slots
pub mod Ids
pub mod Analyze
pub mod Answers
pub mod Audit
pub mod Routes
pub mod Managed
pub mod Lives
use lumenos_hiper_v.Prelude.{ℕ, String, Exc, Outcome, ok, err}

-- What a route comes to: a value, an HTTPException with its status code, or another exception.
pub data Reply {ℓ} (A : Type ℓ) : Type ℓ where
  reply : A → Reply A
  refuse : ℕ → String → Reply A
  crash : Exc → Reply A

module _ {A B : Type 0} where
  infixl 5 ◌>>=◌
  abbrev pub ◌>>=◌ : Reply A → (A → Reply B) → Reply B
  reply a >>= f = f a
  refuse status detail >>= f = refuse status detail
  crash e >>= f = crash e

-- A call that may raise, as a step of a route.
abbrev pub from_outcome : {A : Type 0} → Outcome A → Reply A
from_outcome (ok a) = reply a
from_outcome (err e) = crash e
