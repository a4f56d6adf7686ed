-- ===== src/Reaper/Judging.antt =====
-- Which entries lumenos_sandbox/reaper.py takes for abandoned.
use lumenos_hiper_v.Prelude.{
  ℕ, ◌+◌, ◌≤◌, Bool, true, false, ◌&&◌, ◌||◌, not, String, Option, none, some, List, ◌≡◌, refl, ◌⊎◌,
  inl, inr, if◌then◌else◌, arith, ltb, Bool-cases,
}
use lumenos_hiper_v.Types.{BunkerState}
use lumenos_hiper_v.Monitoring.Patterns.{codes}
use lumenos_hiper_v.State.{Entry}
use lumenos_hiper_v.Reaper.{
  never_reap_states, member, state_of_name, Judgement, skip_state, skip_recent, candidate, judge,
  judge_state, too_recent, stamp_of,
}

-- Old enough: no age is asked for, or the stamp can be read and is as old as that.
abbrev pub OldEnough : ℕ → ℕ → Option ℕ → Type 0
OldEnough now older_than stamp =
    (older_than ≡ 0) ⊎ ((time : ℕ) × (stamp ≡ some time) × (time + older_than ≤ now))

too_recent-OldEnough :
    (now older_than : ℕ) (stamp : Option ℕ)
    → (ltb 0 older_than && too_recent now older_than stamp) ≡ false
    → OldEnough now older_than stamp
too_recent-OldEnough now older_than none h = inl (ground (arith, h))
too_recent-OldEnough now older_than (some time) h = elim (Bool-cases (ltb 0 older_than)) [
  | inl t ↦ inr (time, refl, ground (arith, h, t))
  | inr t ↦ inl (ground (arith, t))
]

aged : (b : Bool) → (if b then skip_recent else candidate) ≡ candidate → b ≡ false
aged true h = ground arith
aged false h = refl

passes :
    (b : Bool) (j : Judgement)
    → (if b then skip_state else j) ≡ candidate
    → (b ≡ false) × (j ≡ candidate)
passes true j h = ground arith
passes false j h = (refl, h)

first_false : (b c : Bool) → b || c ≡ false → b ≡ false
first_false b c h = ground (arith, h)

second_true : (b c : Bool) → b || not c ≡ false → c ≡ true
second_true b c h = ground (arith, h)

judge_state-candidate :
    (o : Option BunkerState) (selected : List BunkerState) (j : Judgement)
    → judge_state o selected j ≡ candidate
    → (state : BunkerState) × (o ≡ some state)
      × (member state never_reap_states ≡ false)
      × (member state selected ≡ true)
      × (j ≡ candidate)
judge_state-candidate none selected j h = ground arith
judge_state-candidate (some state) selected j h =
    let p = passes (member state never_reap_states || not (member state selected)) j h in
    (state, refl, first_false _ _ p.0, second_true _ _ p.0, p.1)

-- An entry is a candidate only if its state is one of those selected and none of those that must never
-- be reaped, and it is old enough.
judge-candidate :
    (fromisoformat : String → Option ℕ) (now older_than : ℕ) (selected : List BunkerState)
    (entry : Entry)
    → judge fromisoformat now older_than selected entry ≡ candidate
    → (state : BunkerState) × (state_of_name (codes entry.state) ≡ some state)
      × (member state never_reap_states ≡ false)
      × (member state selected ≡ true)
      × OldEnough now older_than (stamp_of fromisoformat entry.updated_at)
unfolding judge
judge-candidate fromisoformat now older_than selected entry h =
    let p = judge_state-candidate (state_of_name (codes entry.state)) selected _ h in
    (
      p.0,
      p.1,
      p.2,
      p.3,
      too_recent-OldEnough now older_than (stamp_of fromisoformat entry.updated_at) (aged _ p.4),
    )
