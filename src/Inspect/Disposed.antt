-- ===== src/Inspect/Disposed.antt =====
-- What `_decontaminate` leaves of the bunker of a cycle.
use lumenos_hiper_v.Prelude.{
  Bool, true, false, String, List, [], ◌≡◌, ◌≢◌, ◌⊎◌, inl, inr, refl, arith, Outcome, ok, err,
  Ensures, Bool-cases, if◌then◌else◌,
}
use lumenos_hiper_v.Types.{active, state_eq}
use lumenos_hiper_v.Types.Transitions.{state_eq-eq}
use lumenos_hiper_v.Host.{Env}
use lumenos_hiper_v.Monitoring.Monitor.{stop_monitoring}
use lumenos_hiper_v.Bunker.{Bunker}
use lumenos_hiper_v.Bunker.Session.{terminate}
use lumenos_hiper_v.Bunker.Closing.{Closed, Filed, terminate_outcome}
use lumenos_hiper_v.Inspect.Disposal.{
  Disposal, dispose_active, dispose_inactive, remove_machine, remove_network, remove_disk,
  decontaminate,
}

module _ {W : Type 0} (env : Env W) (delete_state : String → W → Outcome (Unit {0}) × W) where
  -- A bunker that was shut down: it is not ACTIVE and its monitor is off.
  pub record Disposed (t : Bunker × W) : Type 0 where
    pub not_active : t.0.state ≢ active
    pub unmonitored : t.0.monitor.monitoring_active ≡ false

  -- What is said of a bunker that was not ACTIVE: success, whatever the calls answered, and the
  -- state is kept.
  abbrev pub Reported : Bunker → Disposal → Bunker × W → Type 0
  Reported b d t =
      (b.state ≡ active) ⊎ ((b.state ≢ active) × (d.success ≡ true) × (t.0.state ≡ b.state))

  terminated-Disposed :
      (r : Outcome Bool × (Bunker × W))
      → Ensures (λ r t. Closed r t × ((r ≡ false) ⊎ Filed env true t)) (λ _ _. ⊥) r
      → Disposed r.1
  terminated-Disposed (ok true, t) h = record {
    not_active = ground (arith, h.holds);
    unmonitored = ground (arith, h.holds);
  }
  terminated-Disposed (ok false, t) h = record {
    not_active = ground (arith, h.holds);
    unmonitored = ground (arith, h.holds);
  }
  terminated-Disposed (err e, t) h = absurd h.holds

  active-Disposed :
      (s : Bunker × W) → s.0.state ≡ active → Disposed (dispose_active env delete_state s).1
  unfolding dispose_active
  active-Disposed s on = terminated-Disposed (terminate env s) (terminate_outcome env s on)

  machine-same :
      (p : List String × (Bunker × W))
      → let t = (remove_machine env delete_state p).1.0 in
        (t.state ≡ p.1.0.state) × (t.monitor ≡ p.1.0.monitor)
  unfolding remove_machine
  machine-same p = ground arith

  network-same :
      (p : List String × (Bunker × W))
      → let t = (remove_network env delete_state p).1.0 in
        (t.state ≡ p.1.0.state) × (t.monitor ≡ p.1.0.monitor)
  unfolding remove_network
  network-same p = ground arith

  inactive-same :
      (s : Bunker × W)
      → let t = (dispose_inactive env delete_state s).1.0 in
        (t.state ≡ s.0.state) × (t.monitor ≡ s.0.monitor)
  unfolding dispose_inactive remove_disk
  inactive-same s =
      ground (arith, machine-same ([], s), network-same (remove_machine env delete_state ([], s)))

  inactive-success : (s : Bunker × W) → (dispose_inactive env delete_state s).0.success ≡ true
  unfolding dispose_inactive
  inactive-success s = refl

  -- However a cycle ended, `_decontaminate` leaves the bunker not ACTIVE and its monitor off; of a
  -- bunker that was not ACTIVE it keeps the state and reports success, whatever the removal of its
  -- machine, its switch and its disk answered.
  pub decontaminate_outcome :
      (b : Bunker) (w : W)
      → let r = decontaminate env delete_state (b, w) in Disposed r.1 × Reported b r.0 r.1
  unfolding decontaminate stop_monitoring
  decontaminate_outcome b w =
      let stopped = record b { monitor = stop_monitoring b.monitor } in
      elim (Bool-cases (state_eq b.state active)) [
        | inl on ↦
            let is_active = state_eq-eq b.state active on in
            let d = active-Disposed (stopped, w) is_active in
            simp (on, if◌then◌else◌)
              (record { not_active = d.not_active; unmonitored = d.unmonitored }, inl is_active)
        | inr off ↦
            let not_active : b.state ≢ active = ground (arith, off) in
            let same = inactive-same (stopped, w) in
            simp (off, if◌then◌else◌)
              (
                record {
                  not_active = ground (arith, same.0, not_active);
                  unmonitored = ground (arith, same.1);
                },
                inr (not_active, inactive-success (stopped, w), same.0),
              )
      ]
