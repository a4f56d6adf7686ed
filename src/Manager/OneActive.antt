-- ===== src/Manager/OneActive.antt =====
-- The promise of lumenos_sandbox/manager.py: at most one of the two bunkers is ACTIVE.
use lumenos_hiper_v.Prelude.{
  true, String, Option, none, some, List, [], ◌∷◌, ◌≡◌, refl, ◌∙◌, Outcome, ok, err, Ensures,
  Ensures-ok, Ensures-bind, Ensures-weaken,
}
use lumenos_hiper_v.Types.{BunkerConfig, active}
use lumenos_hiper_v.Host.{Env}
use lumenos_hiper_v.Manager.{
  Slot, first, second, DualBunkerManager, bunker_at, new_manager, start_from, start_session,
  end_from, end_session, quarantine_if, emergency_shutdown,
}
use lumenos_hiper_v.Manager.Seen.{
  Exclusive, IsExclusive, Exclusive-IsExclusive, Exclusive-Around, terminate-Seen, quarantine-Seen,
}
use lumenos_hiper_v.Manager.Rotation.{idle-IsExclusive, solo-IsExclusive, Keeps, start_from-post}

module _ {W : Type 0} (env : Env W) where
  start_session-post :
      (m : DualBunkerManager) (w : W) → IsExclusive m → Keeps env (start_session env (m, w))
  unfolding start_session
  start_session-post m w h = start_from-post env m.active_bunker m.inactive_bunker m w refl refl h

  end_from-post :
      (a : Option Slot) (m : DualBunkerManager) (w : W)
      → m.active_bunker ≡ a
      → Exclusive a m.inactive_bunker m
      → Keeps env (end_from env a (m, w))
  unfolding end_from
  end_from-post none m w e h = Ensures-ok (idle-IsExclusive env m e h.0 h.1)
  end_from-post (some first) m w e h =
      Ensures-bind
        (Ensures-weaken (terminate-Seen env first m w) (λ r t p. p)
          λ x t p.
            solo-IsExclusive env first t.0 (p.0.active_same ∙ e) (p.0.inactive_same ∙ h.1)
              (rw p.0.other_same h.0))
        λ r t p. Ensures-ok (p.1, rw p.0.other_same h.0)
  end_from-post (some second) m w e h =
      Ensures-bind
        (Ensures-weaken (terminate-Seen env second m w) (λ r t p. p)
          λ x t p.
            solo-IsExclusive env second t.0 (p.0.active_same ∙ e) (p.0.inactive_same ∙ h.1)
              (rw p.0.other_same h.0))
        λ r t p. Ensures-ok (rw p.0.other_same h.0, p.1)

  end_session-post :
      (m : DualBunkerManager) (w : W) → IsExclusive m → Keeps env (end_session env (m, w))
  unfolding end_session
  end_session-post m w h = end_from-post m.active_bunker m w refl h

  -- A quarantined bunker is idle, so a quarantine keeps the references and whoever was idle.
  quarantine_if-post :
      (a j k : Option Slot) (m : DualBunkerManager) (w : W) (reason : String)
      → m.active_bunker ≡ a
      → m.inactive_bunker ≡ j
      → Exclusive a j m
      → Ensures
          (λ _ t. (t.0.active_bunker ≡ a) × (t.0.inactive_bunker ≡ j) × Exclusive a j t.0)
          (λ _ t. IsExclusive t.0)
          (quarantine_if env k reason (m, w))
  unfolding quarantine_if
  quarantine_if-post a j none m w reason e f h = Ensures-ok (e, f, h)
  quarantine_if-post a j (some k) m w reason e f h =
      Ensures-weaken (quarantine-Seen env k m w reason)
        (λ _ t p.
          (p.0.active_same ∙ e, p.0.inactive_same ∙ f, Exclusive-Around a j k m t h p.0 p.1))
        (λ _ t p.
          Exclusive-IsExclusive a j t.0 (p.0.active_same ∙ e) (p.0.inactive_same ∙ f)
            (Exclusive-Around a j k m t h p.0 p.1))

  emergency_shutdown-post :
      (reason : String) (m : DualBunkerManager) (w : W)
      → IsExclusive m
      → Keeps env (emergency_shutdown env reason (m, w))
  unfolding emergency_shutdown
  emergency_shutdown-post reason m w h =
      Ensures-bind
        (quarantine_if-post m.active_bunker m.inactive_bunker m.active_bunker m w reason refl refl
          h)
        λ _ t p.
          Ensures-weaken
            (quarantine_if-post m.active_bunker m.inactive_bunker m.inactive_bunker t.0 t.1 reason
              p.0 p.1 p.2)
            (λ _ u q. Exclusive-IsExclusive m.active_bunker m.inactive_bunker u.0 q.0 q.1 q.2)
            (λ _ u q. q)

-- A call on the manager.
pub data Call : Type 0 where
  start end : Call
  shutdown : String → Call

module _ {W : Type 0} (env : Env W) where
  -- The state after a call, whether it returns or raises.
  abbrev after_call : Call → DualBunkerManager × W → DualBunkerManager × W
  after_call start s = (start_session env s).1
  after_call end s = (end_session env s).1
  after_call (shutdown reason) s = (emergency_shutdown env reason s).1

  abbrev pub after_calls : List Call → DualBunkerManager × W → DualBunkerManager × W
  after_calls [] s = s
  after_calls (c ∷ cs) s = after_calls cs (after_call c s)

  Keeps-IsExclusive :
      {A : Type 0} (r : Outcome A × (DualBunkerManager × W)) → Keeps env r → IsExclusive r.1.0
  Keeps-IsExclusive (ok a, t) h = h.holds
  Keeps-IsExclusive (err e, t) h = h.holds

  after_call-IsExclusive :
      (c : Call) (s : DualBunkerManager × W) → IsExclusive s.0 → IsExclusive (after_call c s).0
  after_call-IsExclusive start s h = Keeps-IsExclusive _ (start_session-post env s.0 s.1 h)
  after_call-IsExclusive end s h = Keeps-IsExclusive _ (end_session-post env s.0 s.1 h)
  after_call-IsExclusive (shutdown r) s h =
      Keeps-IsExclusive _ (emergency_shutdown-post env r s.0 s.1 h)

  after_calls-IsExclusive :
      (cs : List Call) (s : DualBunkerManager × W)
      → IsExclusive s.0
      → IsExclusive (after_calls cs s).0
  after_calls-IsExclusive [] s h = h
  after_calls-IsExclusive (c ∷ cs) s h =
      after_calls-IsExclusive cs (after_call c s) (after_call-IsExclusive c s h)

  Exclusive-one :
      (a j : Option Slot) (m : DualBunkerManager)
      → Exclusive a j m
      → ¬ ((m.bunker1.state ≡ active) × (m.bunker2.state ≡ active))
  Exclusive-one none j m h both = h.0 both.0
  Exclusive-one (some first) j m h both = h.0 both.1
  Exclusive-one (some second) j m h both = h.0 both.0

  -- However sessions are started, ended and shut down, in whatever order, and whether a call returns
  -- or raises, the two bunkers of a new manager are never ACTIVE at once.
  pub at_most_one_active :
      (base : BunkerConfig) (key1 key2 : String) (cs : List Call) (w : W)
      → let m = (after_calls cs (new_manager base key1 key2, w)).0 in
        ¬ ((m.bunker1.state ≡ active) × (m.bunker2.state ≡ active))
  unfolding new_manager
  at_most_one_active base key1 key2 cs w =
      Exclusive-one _ _ _
        (after_calls-IsExclusive cs (new_manager base key1 key2, w) ((λ e. cc), (λ e. cc)))

  start_from-active :
      (i : Slot) (j : Option Slot) (m : DualBunkerManager) (w : W)
      → (bunker_at i m).state ≡ active
      → start_from env (some i) j (m, w) ≡ (ok true, (m, w))
  unfolding start_from
  start_from-active i j m w h = rw h refl

  -- A session whose bunker is ACTIVE is never rotated: `start_session` returns True and changes
  -- nothing.
  pub start_session-active :
      (i : Slot) (m : DualBunkerManager) (w : W)
      → m.active_bunker ≡ some i
      → (bunker_at i m).state ≡ active
      → start_session env (m, w) ≡ (ok true, (m, w))
  unfolding start_session
  start_session-active i m w e h = simp (e, start_from-active i m.inactive_bunker m w h) refl
