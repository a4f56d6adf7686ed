-- ===== src/Manager/Seen.antt =====
-- A call on one of the two bunkers of lumenos_sandbox/manager.py, seen from the manager.
use lumenos_hiper_v.Prelude.{
  false, String, Option, none, some, ◌≡◌, refl, ◌≢◌, arith, Exc, Outcome, ok, err, Ensures,
  Ensures-ok, Ensures-err,
}
use lumenos_hiper_v.Types.{BunkerState, active, state_eq}
use lumenos_hiper_v.Host.{Env}
use lumenos_hiper_v.Bunker.{Bunker}
use lumenos_hiper_v.Bunker.Init.{initialize}
use lumenos_hiper_v.Bunker.Session.{activate, terminate, force_quarantine}
use lumenos_hiper_v.Bunker.Inactive.{
  Idle, initialize-Idle, activate-Idle, terminate-Idle, force_quarantine-Idle,
}
use lumenos_hiper_v.Manager.{
  Slot, first, second, other, DualBunkerManager, bunker_at, put_bunker, on_slot,
}

abbrev pub IdleAt : Slot → DualBunkerManager → Type 0
IdleAt i m = (bunker_at i m).state ≢ active

-- With no session both bunkers are idle; with one, the bunker out of use is, and the references name
-- the two bunkers.
abbrev pub Exclusive : Option Slot → Option Slot → DualBunkerManager → Type 0
Exclusive none j m = IdleAt first m × IdleAt second m
Exclusive (some i) j m = IdleAt (other i) m × (j ≡ some (other i))

abbrev pub IsExclusive : DualBunkerManager → Type 0
IsExclusive m = Exclusive m.active_bunker m.inactive_bunker m

bunker_at-put : (i : Slot) (b : Bunker) (m : DualBunkerManager) → bunker_at i (put_bunker i b m) ≡ b
bunker_at-put first b m = refl
bunker_at-put second b m = refl

pub state_eq-differs : (s : BunkerState) → state_eq s active ≡ false → s ≢ active
state_eq-differs s h = ground arith

-- The invariant, read at the references that are known.
pub Exclusive-IsExclusive :
    (a j : Option Slot) (m : DualBunkerManager)
    → m.active_bunker ≡ a
    → m.inactive_bunker ≡ j
    → Exclusive a j m
    → IsExclusive m
Exclusive-IsExclusive a j m e f h = simp (e, f) h

module _ {W : Type 0} where
  -- The state after a call on the bunker in slot `i`: the other bunker and the references are as
  -- before.
  pub record Around (i : Slot) (m : DualBunkerManager) (t : DualBunkerManager × W) : Type 0 where
    pub other_same : bunker_at (other i) t.0 ≡ bunker_at (other i) m
    pub active_same : t.0.active_bunker ≡ m.active_bunker
    pub inactive_same : t.0.inactive_bunker ≡ m.inactive_bunker

  put-Around :
      (i : Slot) (b : Bunker) (m : DualBunkerManager) (w : W) → Around i m (put_bunker i b m, w)
  put-Around first b m w = ground arith
  put-Around second b m w = ground arith

  -- What a call on the bunker in slot `i` ensures, seen from the manager.
  abbrev pub Seen :
      {A : Type 0}
      → (A → Bunker × W → Type 0)
      → (Exc → Bunker × W → Type 0)
      → Slot
      → DualBunkerManager
      → Outcome A × (DualBunkerManager × W)
      → Type 0
  Seen Q E i m =
      Ensures (λ a t. Around i m t × Q a (bunker_at i t.0, t.1))
        (λ e t. Around i m t × E e (bunker_at i t.0, t.1))

  pub put-Seen :
      {A : Type 0} {Q : A → Bunker × W → Type 0} {E : Exc → Bunker × W → Type 0} (i : Slot)
      (m : DualBunkerManager) (r : Outcome A × (Bunker × W))
      → Ensures Q E r
      → Seen Q E i m (r.0, (put_bunker i r.1.0 m, r.1.1))
  put-Seen i m (ok a, (b, w)) h = Ensures-ok (put-Around i b m w, rw (bunker_at-put i b m) h.holds)
  put-Seen i m (err e, (b, w)) h =
      Ensures-err (put-Around i b m w, rw (bunker_at-put i b m) h.holds)

  pub Around-trans :
      (i : Slot) {m : DualBunkerManager} {t u : DualBunkerManager × W}
      → Around i m t
      → Around i t.0 u
      → Around i m u
  Around-trans i p q = ground arith

pub Exclusive-Around :
    {W : Type 0} (a j : Option Slot) (k : Slot) (m : DualBunkerManager) (t : DualBunkerManager × W)
    → Exclusive a j m
    → Around k m t
    → IdleAt k t.0
    → Exclusive a j t.0
Exclusive-Around none j first m t h p idle = (idle, rw p.other_same h.1)
Exclusive-Around none j second m t h p idle = (rw p.other_same h.0, idle)
Exclusive-Around (some first) j first m t h p idle = (rw p.other_same h.0, h.1)
Exclusive-Around (some first) j second m t h p idle = (idle, h.1)
Exclusive-Around (some second) j first m t h p idle = (idle, h.1)
Exclusive-Around (some second) j second m t h p idle = (rw p.other_same h.0, h.1)

module _ {W : Type 0} (env : Env W) (i : Slot) (m : DualBunkerManager) (w : W) where
  pub initialize-Seen :
      IdleAt i m → Seen (λ _. Idle env) (λ _. Idle env) i m (on_slot i (initialize env none) (m, w))
  initialize-Seen idle = put-Seen i m _ (initialize-Idle env none (bunker_at i m, w) idle)

  pub activate-Seen :
      Seen (λ r t. r ≡ false → Idle env t) (λ _. Idle env) i m (on_slot i (activate env) (m, w))
  activate-Seen = put-Seen i m _ (activate-Idle env (bunker_at i m, w))

  pub terminate-Seen : Seen (λ _. Idle env) (λ _. Idle env) i m (on_slot i (terminate env) (m, w))
  terminate-Seen = put-Seen i m _ (terminate-Idle env (bunker_at i m, w))

  pub quarantine-Seen :
      (reason : String)
      → Seen (λ _. Idle env) (λ _. Idle env) i m (on_slot i (force_quarantine env reason) (m, w))
  quarantine-Seen reason = put-Seen i m _ (force_quarantine-Idle env reason (bunker_at i m, w))
