-- ===== src/Manager/Rotation.antt =====
-- `_rotate_bunkers` and `start_session` of lumenos_sandbox/manager.py: at most one bunker is ACTIVE.
use lumenos_hiper_v.Prelude.{
  Bool, true, false, Option, none, some, ◌≡◌, refl, ◌∙◌, inl, inr, ◌||◌, Bool-cases, arith, Outcome,
  Ensures, Ensures-ok, Ensures-err, Ensures-bind, Ensures-weaken, if◌then◌else◌, pure,
}
use lumenos_hiper_v.Types.{ready, active, decontaminating, state_eq}
use lumenos_hiper_v.Host.{Env}
use lumenos_hiper_v.Bunker.Session.{activate}
use lumenos_hiper_v.Manager.{
  Slot, first, second, other, DualBunkerManager, bunker_at, on_slot, bring_up, install_first,
  start_first, change_places, wait_decontaminated, after_termination, retire, replace,
  rotate_bunkers, rotate_from, start_from,
}
use lumenos_hiper_v.Manager.Seen.{
  IdleAt, Exclusive, IsExclusive, state_eq-differs, Around, Around-trans, initialize-Seen,
  activate-Seen, terminate-Seen, quarantine-Seen,
}

module _ {W : Type 0} (env : Env W) where
  -- A bunker that is brought up may be ACTIVE only if the result is True.
  bring_up-post :
      (i : Slot) (m : DualBunkerManager) (w : W)
      → IdleAt i m
      → Ensures
          (λ r t. Around i m t × (r ≡ false → IdleAt i t.0))
          (λ _ t. Around i m t × IdleAt i t.0)
          (bring_up env i (m, w))
  unfolding bring_up
  bring_up-post i m w idle = Ensures-bind (initialize-Seen env i m w idle) after
    where
      after :
          (r : Bool) (t : DualBunkerManager × W)
          → Around i m t × IdleAt i t.0
          → Ensures
              (λ r t. Around i m t × (r ≡ false → IdleAt i t.0))
              (λ _ t. Around i m t × IdleAt i t.0)
              ((if r then on_slot i (activate env) else pure false) t)
      after true t p =
          Ensures-weaken (activate-Seen env i t.0 t.1) (λ r u q. (Around-trans i p.0 q.0, q.1))
            (λ e u q. (Around-trans i p.0 q.0, q.1))
      after false t p = Ensures-ok (p.0, λ _. p.1)

  pub idle-IsExclusive :
      (m : DualBunkerManager)
      → m.active_bunker ≡ none
      → IdleAt first m
      → IdleAt second m
      → IsExclusive m
  idle-IsExclusive m e p q = simp e (p, q)

  pub solo-IsExclusive :
      (i : Slot) (m : DualBunkerManager)
      → m.active_bunker ≡ some i
      → m.inactive_bunker ≡ some (other i)
      → IdleAt (other i) m
      → IsExclusive m
  solo-IsExclusive i m e f p = simp e (p, f)

  abbrev pub Keeps : {A : Type 0} → Outcome A × (DualBunkerManager × W) → Type 0
  Keeps = Ensures (λ _ t. IsExclusive t.0) (λ _ t. IsExclusive t.0)

  install_first-post :
      (m : DualBunkerManager) (r : Bool) (t : DualBunkerManager × W)
      → m.active_bunker ≡ none
      → IdleAt second m
      → Around first m t × (r ≡ false → IdleAt first t.0)
      → Keeps (install_first env r t)
  unfolding install_first
  install_first-post m true t e idle p = Ensures-ok (ground (arith, p.0.other_same))
  install_first-post m false t e idle p =
      Ensures-ok (idle-IsExclusive t.0 (p.0.active_same ∙ e) (p.1 refl) (rw (p.0.other_same) idle))

  start_first-post :
      (m : DualBunkerManager) (w : W)
      → m.active_bunker ≡ none
      → IdleAt first m
      → IdleAt second m
      → Keeps (start_first env (m, w))
  unfolding start_first
  start_first-post m w e at_first idle =
      Ensures-bind
        (Ensures-weaken (bring_up-post first m w at_first) (λ r t p. p)
          λ x t p. idle-IsExclusive t.0 (p.0.active_same ∙ e) p.1 (rw p.0.other_same idle))
        λ r t p. install_first-post m r t e idle p

  -- Out of the way: the old bunker is not ACTIVE, whatever became of it.
  abbrev Retired : {A : Type 0} → Slot → DualBunkerManager → A → DualBunkerManager × W → Type 0
  Retired i m a t = Around i m t × IdleAt i t.0

  after_termination-post :
      (i : Slot) (m : DualBunkerManager) (r : Bool) (t : DualBunkerManager × W)
      → Retired i m r t
      → Ensures (Retired i m) (Retired i m) (after_termination env i r t)
  unfolding after_termination wait_decontaminated
  after_termination-post i m false t p =
      Ensures-bind
        (Ensures-weaken (quarantine-Seen env i t.0 t.1 "Fallo en terminación")
          (λ _ u q. (Around-trans i p.0 q.0, q.1)) (λ _ u q. (Around-trans i p.0 q.0, q.1)))
        λ _ u q. Ensures-ok q
  after_termination-post i m true t p =
      elim (Bool-cases (state_eq (bunker_at i t.0).state decontaminating)) [
        | inl busy ↦ rw (busy, after_termination, wait_decontaminated) (Ensures-err p)
        | inr over ↦ rw (over, after_termination, wait_decontaminated) (Ensures-ok p)
      ]

  Around-refl : (i : Slot) (m : DualBunkerManager) (w : W) → Around i m (m, w)
  Around-refl i m w = record { other_same = refl; active_same = refl; inactive_same = refl }

  retire-post :
      (i : Slot) (m : DualBunkerManager) (w : W)
      → IdleAt i m
      → Ensures (Retired i m) (Retired i m) (retire env i (m, w))
  unfolding retire
  retire-post i m w idle =
      elim (Bool-cases
        (state_eq (bunker_at i m).state active || state_eq (bunker_at i m).state ready)) [
          | inl live ↦
              rw (live, retire)
                (Ensures-bind (terminate-Seen env i m w) (after_termination-post i m))
          | inr done ↦ rw (done, retire) (Ensures-ok (Around-refl i m w, idle))
        ]

  -- What the rotation starts from: a session whose bunker is no longer ACTIVE.
  record Rotating (i : Slot) (m : DualBunkerManager) : Type 0 where
    current : m.active_bunker ≡ some i
    spare : m.inactive_bunker ≡ some (other i)
    idle : IdleAt i m
    spare_idle : IdleAt (other i) m

  Rotating-IsExclusive : (i : Slot) (m : DualBunkerManager) → Rotating i m → IsExclusive m
  Rotating-IsExclusive i m r = solo-IsExclusive i m r.current r.spare r.spare_idle

  Rotating-Retired :
      (i : Slot) (m : DualBunkerManager) (t : DualBunkerManager × W)
      → Rotating i m
      → Around i m t × IdleAt i t.0
      → Rotating i t.0
  Rotating-Retired i m t r p = record {
    current = p.0.active_same ∙ r.current;
    spare = p.0.inactive_same ∙ r.spare;
    idle = p.1;
    spare_idle = rw p.0.other_same r.spare_idle;
  }

  -- The spare bunker did not come up: the references still name the old session.
  spare_failed :
      (i : Slot) (m : DualBunkerManager) (t : DualBunkerManager × W)
      → Rotating i m
      → Around (other i) m t × IdleAt (other i) t.0
      → IsExclusive t.0
  spare_failed i m t r p =
      solo-IsExclusive i t.0 (p.0.active_same ∙ r.current) (p.0.inactive_same ∙ r.spare) p.1

  change_places-post :
      (i : Slot) (m : DualBunkerManager) (r : Bool) (t : DualBunkerManager × W)
      → Rotating i m
      → Around (other i) m t × (r ≡ false → IdleAt (other i) t.0)
      → Keeps (change_places env i (other i) r t)
  unfolding change_places
  change_places-post first m true t h p = Ensures-ok (rw p.0.other_same h.idle, refl)
  change_places-post second m true t h p = Ensures-ok (rw p.0.other_same h.idle, refl)
  change_places-post i m false t h p = Ensures-ok (spare_failed i m t h (p.0, p.1 refl))

  replace-post :
      (i : Slot) (r : Bool) (m : DualBunkerManager) (w : W)
      → Rotating i m
      → Keeps (replace env i (other i) r (m, w))
  unfolding replace
  replace-post i false m w h = Ensures-ok (Rotating-IsExclusive i m h)
  replace-post i true m w h =
      Ensures-bind
        (Ensures-weaken (bring_up-post (other i) m w h.spare_idle) (λ r t p. p)
          (λ x t p. spare_failed i m t h p))
        λ r t p. change_places-post i m r t h p

  rotate_bunkers-post :
      (i : Slot) (m : DualBunkerManager) (w : W)
      → Rotating i m
      → Keeps (rotate_bunkers env i (other i) (m, w))
  unfolding rotate_bunkers
  rotate_bunkers-post i m w h =
      Ensures-bind
        (Ensures-weaken (retire-post i m w h.idle) (λ r t p. Rotating-Retired i m t h p)
          λ x t p. Rotating-IsExclusive i t.0 (Rotating-Retired i m t h p))
        λ r t q. replace-post i r t.0 t.1 q

  rotate_from-post :
      (i : Slot) (j : Option Slot) (m : DualBunkerManager) (w : W)
      → j ≡ some (other i)
      → Rotating i m
      → Keeps (rotate_from env i j (m, w))
  unfolding rotate_from
  rotate_from-post i j m w e h = rw e (rotate_bunkers-post i m w h)

  pub start_from-post :
      (a j : Option Slot) (m : DualBunkerManager) (w : W)
      → m.active_bunker ≡ a
      → m.inactive_bunker ≡ j
      → Exclusive a j m
      → Keeps (start_from env a j (m, w))
  unfolding start_from
  start_from-post none j m w e f h = start_first-post m w e h.0 h.1
  start_from-post (some i) j m w e f h = elim (Bool-cases (state_eq (bunker_at i m).state active)) [
    | inl live ↦ rw (live, start_from) (Ensures-ok (solo-IsExclusive i m e (f ∙ h.1) h.0))
    | inr over ↦
        rw (over, start_from)
          (rotate_from-post i j m w h.1 (record {
            current = e;
            spare = f ∙ h.1;
            idle = state_eq-differs (bunker_at i m).state over;
            spare_idle = h.0;
          }))
  ]
