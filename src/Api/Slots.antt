-- ===== src/Api/Slots.antt =====
-- The admission of analyses in lumenos_sandbox/api.py: `_analysis_slots`, a BoundedSemaphore, and what
-- the handlers and the workers of `_analysis_executor` do with it, one atomic step each.
use lumenos_hiper_v.Prelude.{
  ℕ, ◌+◌, ◌-◌, ◌<◌, ◌==◌, ltb, Bool, true, false, ◌≡◌, ◌↔◌, refl, arith, Outcome, ok, err,
  value_error, if◌then◌else◌,
}

-- `_ANALYSIS_MAX_IN_FLIGHT`
abbrev pub max_in_flight : ℕ
max_in_flight = 4

-- The value of the semaphore, the handlers that took a slot and have not submitted yet, and the
-- submitted analyses that have not returned.
pub record Slots : Type 0 where
  pub free : ℕ
  pub taken : ℕ
  pub in_flight : ℕ

abbrev pub all_free : Slots
all_free = record { free = max_in_flight; taken = 0; in_flight = 0 }

-- `_analysis_slots.acquire(blocking=False)`
unfoldable pub acquire : Slots → Bool × Slots
acquire s =
    if s.free == 0 then (false, s) else (true, record s { free = s.free - 1; taken = s.taken + 1 })

-- `_analysis_slots.release()`, which raises above the initial value
unfoldable pub release : Slots → Outcome Slots
release s =
    if ltb s.free max_in_flight
    then ok (record s { free = s.free + 1 })
    else err (record { kind = value_error; message = "Semaphore released too many times" })

-- A submission that is accepted.
unfoldable pub submitted : Slots → Slots
submitted s = record s { taken = s.taken - 1; in_flight = s.in_flight + 1 }

-- A submission that raises: the handler releases its slot.
unfoldable pub submission_failed : Slots → Outcome Slots
unfolding release
submission_failed s = release (record s { taken = s.taken - 1 })

-- `_run_analysis_and_release`: the worker returns and releases the slot, whatever came of the analysis.
unfoldable pub returned : Slots → Outcome Slots
unfolding release
returned s = release (record s { in_flight = s.in_flight - 1 })

-- One step of a handler or a worker, in any interleaving. A caller that gives up waiting changes nothing.
pub data Step (s t : Slots) : Type 0 where
  take : acquire s ≡ (true, t) → Step s t
  turn_away : acquire s ≡ (false, t) → Step s t
  submit : 0 < s.taken → t ≡ submitted s → Step s t
  fail : 0 < s.taken → submission_failed s ≡ ok t → Step s t
  return : 0 < s.in_flight → returned s ≡ ok t → Step s t

pub data Reached : Slots → Type 0 where
  start : Reached all_free
  next : {s t : Slots} → Reached s → Step s t → Reached t

abbrev Accounted : Slots → Type 0
Accounted s = s.free + (s.taken + s.in_flight) ≡ max_in_flight

Step-Accounted : (s t : Slots) → Step s t → Accounted s → Accounted t
unfolding acquire submitted submission_failed returned
Step-Accounted s t (take e) h = ground arith
Step-Accounted s t (turn_away e) h = ground arith
Step-Accounted s t (submit p e) h = ground arith
Step-Accounted s t (fail p e) h = ground arith
Step-Accounted s t (return p e) h = ground arith

Reached-Accounted : {s : Slots} → Reached s → Accounted s
Reached-Accounted start = refl
Reached-Accounted (next {s} {t} r step) = Step-Accounted s t step (Reached-Accounted r)

-- In every interleaving of handlers and workers: each slot is free, taken or held by an analysis, so no
-- more analyses are in flight than the pool has workers; a request is turned away exactly if no slot is
-- free; and no release raises, so an analysis that returns and a submission that fails give the slot
-- back.
pub Reached-Safe :
    {s : Slots}
    → Reached s
    → (s.free + (s.taken + s.in_flight) ≡ max_in_flight)
      × ((acquire s ≡ (false, s)) ↔ (s.taken + s.in_flight ≡ max_in_flight))
      × (0 < s.taken → (t : Slots) × (submission_failed s ≡ ok t) × (t.free ≡ s.free + 1))
      × (0 < s.in_flight → (t : Slots) × (returned s ≡ ok t) × (t.free ≡ s.free + 1))
unfolding acquire submission_failed returned
Reached-Safe {s} r =
    let h = Reached-Accounted r in
    (
      h,
      ground (arith, h),
      (λ p. (record s { free = s.free + 1; taken = s.taken - 1 }, ground arith, refl)),
      (λ p. (record s { free = s.free + 1; in_flight = s.in_flight - 1 }, ground arith, refl)),
    )
