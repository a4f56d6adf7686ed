-- ===== src/Manager.antt =====
-- lumenos_sandbox/manager.py: `DualBunkerManager`. The two bunkers are named by their slots, so that
-- `active_bunker` and `inactive_bunker` are references. The lock is not modelled: a call runs alone.
pub mod Seen
pub mod Rotation
pub mod OneActive
pub mod Serving
use lumenos_hiper_v.Prelude.{
  ℕ, zero, suc, ◌+◌, Bool, true, false, String, Option, none, some, Exc, runtime_error, other_error,
  Exec, Outcome, ok, err, pure, raise, ◌>>=◌, ◌>>◌, ◌||◌, format, [], ◌∷◌, if◌then◌else◌, continue,
}
use lumenos_hiper_v.Types.{
  BunkerState, BunkerConfig, ready, active, decontaminating, destroyed, state_eq,
}
use lumenos_hiper_v.Host.{Env}
use lumenos_hiper_v.Bunker.{Bunker, Method, new_bunker}
use lumenos_hiper_v.Bunker.Init.{initialize}
use lumenos_hiper_v.Bunker.Session.{activate, terminate, force_quarantine}

-- `bunker1` and `bunker2`
pub data Slot : Type 0 where
  first second : Slot

abbrev pub other : Slot → Slot
other first = second
other second = first

pub record DualBunkerManager : Type 0 where
  pub bunker1 : Bunker
  pub bunker2 : Bunker
  pub active_bunker : Option Slot
  pub inactive_bunker : Option Slot
  pub rotation_count : ℕ
  pub total_sessions : ℕ

abbrev pub bunker_at : Slot → DualBunkerManager → Bunker
bunker_at first m = m.bunker1
bunker_at second m = m.bunker2

abbrev pub put_bunker : Slot → Bunker → DualBunkerManager → DualBunkerManager
put_bunker first b m = record m { bunker1 = b }
put_bunker second b m = record m { bunker2 = b }

-- `DualBunkerManager(base_config)`, with the fresh keys of its two bunkers
unfoldable pub new_manager : BunkerConfig → String → String → DualBunkerManager
unfolding new_bunker
new_manager base key1 key2 = record {
  bunker1 =
      new_bunker
        (record base {
          id = format (base.id ∷ "_1" ∷ []);
          name = format (base.name ∷ "-Bunker1" ∷ []);
        })
        key1;
  bunker2 =
      new_bunker
        (record base {
          id = format (base.id ∷ "_2" ∷ []);
          name = format (base.name ∷ "-Bunker2" ∷ []);
        })
        key2;
  active_bunker = none;
  inactive_bunker = none;
  rotation_count = 0;
  total_sessions = 0;
}

abbrev pub Action : Type 0 → Type 0 → Type 0
Action W A = Exec (DualBunkerManager × W) A

-- A method call on one of the bunkers.
abbrev pub on_slot : {W A : Type 0} → Slot → Method W A → Action W A
on_slot i f (m, w) = let (r, (b, w')) = f (bunker_at i m, w) in (r, (put_bunker i b m, w'))

abbrev pub state_at : {W : Type 0} → Slot → Action W BunkerState
state_at i (m, w) = (ok (bunker_at i m).state, (m, w))

abbrev on_manager : {W : Type 0} → (DualBunkerManager → DualBunkerManager) → Action W (Unit {0})
on_manager f (m, w) = (ok tt, (f m, w))

module _ {W : Type 0} (env : Env W) where
  -- `initialize` and `activate` in turn; a False from either ends the caller with False.
  unfoldable pub bring_up : Slot → Action W Bool
  bring_up i = do
    ready_now ← on_slot i (initialize env none)
    if ready_now then on_slot i (activate env) else pure false

  -- The first bunker came up, or not.
  unfoldable pub install_first : Bool → Action W Bool
  install_first false s = pure false s
  install_first true (m, w) = (
    ok true,
    (
      record m {
        active_bunker = some first;
        inactive_bunker = some second;
        total_sessions = m.total_sessions + 1;
      },
      w,
    ),
  )

  unfoldable pub start_first : Action W Bool
  unfolding bring_up install_first
  start_first = bring_up first >>= install_first

  -- `while old_active.state == DECONTAMINATING: time.sleep(1)`, for as many rounds as there is
  -- fuel. Nothing else runs in between, so the state stays as it is.
  unfoldable pub wait_decontaminated : ℕ → Slot → Action W (Unit {0})
  wait_decontaminated zero i (m, w) = raise runtime_error "still decontaminating" (m, w)
  wait_decontaminated (suc rounds) i (m, w) =
      let again = wait_decontaminated rounds i (m, w) in
      if state_eq (bunker_at i m).state decontaminating then again else (ok tt, (m, w))

  -- What `terminate` returned, in `_rotate_bunkers`.
  unfoldable pub after_termination : Slot → Bool → Action W Bool
  unfolding wait_decontaminated
  after_termination i false = do on_slot i (force_quarantine env "Fallo en terminación"); pure false
  after_termination i true = do wait_decontaminated 1 i; s ← state_at i; pure (state_eq s destroyed)

  -- Steps 1 and 2 of `_rotate_bunkers`: True if the old bunker is out of the way.
  unfoldable pub retire : Slot → Action W Bool
  unfolding after_termination
  retire i = do
    s ← state_at i
    if state_eq s active || state_eq s ready
        then on_slot i (terminate env) >>= after_termination i
        else pure true

  -- The new bunker came up, or not: the two change places.
  unfoldable pub change_places : Slot → Slot → Bool → Action W Bool
  change_places old_active old_inactive false s = pure false s
  change_places old_active old_inactive true (m, w) = (
    ok true,
    (
      record m {
        active_bunker = some old_inactive;
        inactive_bunker = some old_active;
        rotation_count = m.rotation_count + 1;
        total_sessions = m.total_sessions + 1;
      },
      w,
    ),
  )

  -- Steps 3 and 4, if the old bunker is out of the way.
  unfoldable pub replace : Slot → Slot → Bool → Action W Bool
  unfolding bring_up change_places
  replace old_active old_inactive false = pure false
  replace old_active old_inactive true =
      bring_up old_inactive >>= change_places old_active old_inactive

  unfoldable pub rotate_bunkers : Slot → Slot → Action W Bool
  unfolding retire replace
  rotate_bunkers old_active old_inactive = retire old_active >>= replace old_active old_inactive

  -- The rotation of `start_session`, by the two references; without an inactive bunker Python raises.
  unfoldable pub rotate_from : Slot → Option Slot → Action W Bool
  unfolding rotate_bunkers
  rotate_from i none = raise other_error "'NoneType' object has no attribute 'initialize'"
  rotate_from i (some j) = rotate_bunkers i j

  unfoldable pub start_from : Option Slot → Option Slot → Action W Bool
  unfolding start_first rotate_from
  start_from none inactive = start_first
  start_from (some i) inactive = do
    s ← state_at i
    if state_eq s active then pure true else rotate_from i inactive

  unfoldable pub start_session : Action W Bool
  unfolding start_from
  start_session (m, w) = start_from m.active_bunker m.inactive_bunker (m, w)

  unfoldable pub end_from : Option Slot → Action W Bool
  end_from none = pure true
  end_from (some i) = do
    result ← on_slot i (terminate env)
    on_manager (λ m. record m { active_bunker = none; inactive_bunker = none })
    pure result

  unfoldable pub end_session : Action W Bool
  unfolding end_from
  end_session (m, w) = end_from m.active_bunker (m, w)

  unfoldable pub quarantine_if : Option Slot → String → Action W (Unit {0})
  quarantine_if none reason = pure tt
  quarantine_if (some i) reason = on_slot i (force_quarantine env reason)

  unfoldable pub emergency_shutdown : String → Action W (Unit {0})
  unfolding quarantine_if
  emergency_shutdown reason (m, w) =
      (quarantine_if m.active_bunker reason >> quarantine_if m.inactive_bunker reason) (m, w)
