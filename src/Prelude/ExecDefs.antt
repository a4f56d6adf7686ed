-- ===== src/Prelude/ExecDefs.antt =====
-- Methods that mutate an object and may raise. What was written before a raise stays written, so
-- the state comes back beside the exception too.
use Prim.Native.String.{String}
use mathlib.Core.Bool.{Bool, true, false}

-- The classes of exceptions that the modelled code raises or tells apart.
pub data ExcKind : Type 0 where
  invalid_state_transition security_violation bunker_not_ready system_error : ExcKind
  analysis_deadline_exceeded value_error file_not_found sample_too_large : ExcKind
  guest_telemetry_unavailable runtime_error key_error other_error : ExcKind

pub record Exc : Type 0 where
  pub kind : ExcKind
  pub message : String

pub data Outcome {ℓ} (A : Type ℓ) : Type ℓ where
  ok : A → Outcome A
  err : Exc → Outcome A

-- `isinstance(e, InvalidStateTransition)`
abbrev pub is_invalid_transition : ExcKind → Bool
is_invalid_transition invalid_state_transition = true
is_invalid_transition _ = false

-- `isinstance(e, AnalysisDeadlineExceeded)`
abbrev pub is_deadline : ExcKind → Bool
is_deadline analysis_deadline_exceeded = true
is_deadline _ = false

abbrev pub Exec : Type 0 → Type 0 → Type 0
Exec S A = S → Outcome A × S

abbrev pub modify : {S : Type 0} → (S → S) → Exec S (Unit {0})
modify f s = (ok tt, f s)

module _ {S A : Type 0} where
  abbrev pub pure : A → Exec S A
  pure a s = (ok a, s)

  abbrev pub raise : ExcKind → String → Exec S A
  raise k m s = (err (record { kind = k; message = m }), s)

  -- `raise` of an exception at hand
  abbrev pub again : Exc → Exec S A
  again e s = (err e, s)

  abbrev pub gets : (S → A) → Exec S A
  gets f s = (ok (f s), s)

module _ {S A B : Type 0} where
  infixl 5 ◌>>=◌ ◌>>◌
  abbrev pub continue : Outcome A → (A → Exec S B) → Exec S B
  continue (ok a) f s = f a s
  continue (err e) f s = (err e, s)

  abbrev pub ◌>>=◌ : Exec S A → (A → Exec S B) → Exec S B
  ◌>>=◌ m f s = let (r, s') = m s in continue r f s'

  abbrev pub ◌>>◌ : Exec S A → Exec S B → Exec S B
  m >> n = m >>= λ _. n

module _ {S A : Type 0} where
  abbrev pub handle : Outcome A → (Exc → Exec S A) → Exec S A
  handle (ok a) f s = (ok a, s)
  handle (err e) f s = f e s

  -- `try: m` with `except Exception as e: f(e)`
  abbrev pub try_except : Exec S A → (Exc → Exec S A) → Exec S A
  try_except m f s = let (r, s') = m s in handle r f s'

  -- What holds of a result: `Q` of a value and the state, `E` of an exception and the state.
  abbrev pub Post : (A → S → Type 0) → (Exc → S → Type 0) → Outcome A × S → Type 0
  Post Q E (ok a, s) = Q a s
  Post Q E (err e, s) = E e s

-- `Post` as a type of its own, with a rule for each way to go on from a call.
pub record Ensures {S A : Type 0} (Q : A → S → Type 0) (E : Exc → S → Type 0) (r : Outcome A × S)
    : Type 0 where
  pub holds : Post Q E r

module _ {S A : Type 0} {Q : A → S → Type 0} {E : Exc → S → Type 0} where
  pub Ensures-ok : {a : A} {s : S} → Q a s → Ensures Q E (ok a, s)
  Ensures-ok h = record { holds = h }

  pub Ensures-err : {e : Exc} {s : S} → E e s → Ensures Q E (err e, s)
  Ensures-err h = record { holds = h }

-- Nothing is asked of the result.
pub Ensures-any : {S A : Type 0} (r : Outcome A × S) → Ensures (λ _ _. Unit {0}) (λ _ _. Unit {0}) r
Ensures-any (ok a, s) = record { holds = tt }
Ensures-any (err e, s) = record { holds = tt }

module _ {S A B : Type 0} {Q : A → S → Type 0} {R : B → S → Type 0} {E : Exc → S → Type 0} where
  pub Ensures-bind :
      {r : Outcome A × S} {f : A → Exec S B}
      → Ensures Q E r
      → ((a : A) (s : S) → Q a s → Ensures R E (f a s))
      → Ensures R E (continue r.0 f r.1)
  Ensures-bind {r = (ok a, s)} h g = g a s h.holds
  Ensures-bind {r = (err e, s)} h g = record { holds = h.holds }

module _ {S A : Type 0} {Q R : A → S → Type 0} {D E : Exc → S → Type 0} where
  pub Ensures-except :
      {r : Outcome A × S} {f : Exc → Exec S A}
      → Ensures Q D r
      → ((a : A) (s : S) → Q a s → R a s)
      → ((e : Exc) (s : S) → D e s → Ensures R E (f e s))
      → Ensures R E (handle r.0 f r.1)
  Ensures-except {r = (ok a, s)} h k g = record { holds = k a s h.holds }
  Ensures-except {r = (err e, s)} h k g = g e s h.holds

module _ {S A : Type 0} {Q R : A → S → Type 0} {D E : Exc → S → Type 0} where
  pub Ensures-weaken :
      {r : Outcome A × S}
      → Ensures Q D r
      → ((a : A) (s : S) → Q a s → R a s)
      → ((e : Exc) (s : S) → D e s → E e s)
      → Ensures R E r
  Ensures-weaken {r = (ok a, s)} h k g = record { holds = k a s h.holds }
  Ensures-weaken {r = (err e, s)} h k g = record { holds = g e s h.holds }
