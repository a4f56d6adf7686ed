-- ===== src/Types/Transitions.antt =====
-- The diagram that VALID_STATE_TRANSITIONS of lumenos_sandbox/types.py draws.
use lumenos_hiper_v.Prelude.{ℕ, zero, suc, ◌+◌, ◌≤◌, ◌<◌, ◌≡◌, refl, ◌≢◌, true, arith}
use lumenos_hiper_v.Types.{
  BunkerState, initializing, ready, active, terminating, decontaminating, destroyed, quarantine,
  error, state_eq, is_valid_transition,
}

pub state_eq-eq : (a b : BunkerState) → state_eq a b ≡ true → a ≡ b
state_eq-eq a b h = ground arith

-- A path through the diagram, one valid transition at a time.
pub data Reaches (s : BunkerState) : BunkerState → Type 0 where
  here : Reaches s s
  next : {t u : BunkerState} → Reaches s t → is_valid_transition t u ≡ true → Reaches s u

-- From every state there is a path to DESTROYED: no bunker is stuck for ever.
Reaches-destroyed : (s : BunkerState) → Reaches s destroyed
Reaches-destroyed destroyed = here
Reaches-destroyed error = next here refl
Reaches-destroyed quarantine = next here refl
Reaches-destroyed decontaminating = next here refl
Reaches-destroyed _ = next {t = error} (next here refl) refl

-- How far a bunker is through its life.
abbrev pub stage : BunkerState → ℕ
stage initializing = 0
stage ready = 1
stage active = 2
stage terminating = 3
stage quarantine = 3
stage decontaminating = 4
stage error = 5
stage destroyed = 6

-- One life of a bunker: a path of `n` transitions, none of which starts at DESTROYED.
pub data Life (s : BunkerState) : BunkerState → ℕ → Type 0 where
  born : Life s s zero
  live :
      {t u : BunkerState} {n : ℕ}
      → Life s t n
      → t ≢ destroyed
      → is_valid_transition t u ≡ true
      → Life s u (suc n)

-- A valid transition that does not revive a destroyed bunker takes it to a later stage.
stage-lt : (t u : BunkerState) → t ≢ destroyed → is_valid_transition t u ≡ true → stage t < stage u
stage-lt t u alive h = ground arith

-- Within one life every transition advances: a life of n transitions from s to t has
-- stage s + n ≤ stage t, so it has at most six transitions, and ACTIVE is entered at most once.
pub Life-stage : {s t : BunkerState} {n : ℕ} → Life s t n → stage s + n ≤ stage t
Life-stage born = omega arith
Life-stage (live {t} {u} l alive h) = omega (arith, Life-stage l, stage-lt t u alive h)
