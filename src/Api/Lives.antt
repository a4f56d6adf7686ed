-- ===== src/Api/Lives.antt =====
-- The lives of bunkers behind the routes of lumenos_sandbox/api.py: what `start_bunker`, `stop_bunker`
-- and `create_bunker` come to.
use lumenos_hiper_v.Prelude.{
  continue as carry_on, pure, is_nonempty, Bool-cases, Bool, true, false, String, Option, none,
  some, ◌∷◌, [], ◌≡◌, ◌≢◌, ◌⊎◌, inl, inr, refl, arith, lookup, lookup-insert, eq_iff, eq_refl, Exc,
  Outcome, ok, err, Ensures, Ensures-weaken, format,
}
use lumenos_hiper_v.Types.{ready, active, destroyed, BunkerConfig}
use lumenos_hiper_v.Host.{Env}
use lumenos_hiper_v.Bunker.{Bunker, new_bunker}
use lumenos_hiper_v.Bunker.Init.{initialize}
use lumenos_hiper_v.Bunker.Session.{terminate}
use lumenos_hiper_v.Bunker.Restore.{made_bunker}
use lumenos_hiper_v.Bunker.Lifecycle.{At, GaveUp, Raised, vm_of, switch_of, initialize_outcome}
use lumenos_hiper_v.Bunker.Closing.{Closed, Filed, terminate_outcome}
use lumenos_hiper_v.State.{LoadedState}
use lumenos_hiper_v.Api.{Reply, reply, refuse, crash, from_outcome}
use lumenos_hiper_v.Api.Routes.{
  Store, Server, start_bunker, stop_bunker, create_bunker, created, continue, brought_up,
  unless_stored,
}
use lumenos_hiper_v.Api.Managed.{Registered, OthersSame, Ran, managed-refused, managed-Ran}

module _ {W : Type 0} (env : Env W) where
  -- What a call of `initialize` on `s` left: after it returned True the bunker has its resources, named
  -- after its id; after it returned False, or raised, it had failed and was cleaned up.
  abbrev pub Started : Bunker × W → Bool → Bunker × W → Type 0
  Started s true t = let c = s.0.config in At ready c (some (vm_of c)) (some (switch_of c)) t
  Started s false t = GaveUp env none s t

  initialize-Started :
      (s : Bunker × W)
      → s.0.state ≡ destroyed
      → Ensures (Started s) (Raised env none s) (initialize env none s)
  initialize-Started s h =
      Ensures-weaken (initialize_outcome env none s (inl h)) started (λ e t p. p.0)
    where
      started :
          (r : Bool) (t : Bunker × W)
          → ((r ≡ true)
              × At ready s.0.config (some (vm_of s.0.config)) (some (switch_of s.0.config)) t)
            ⊎ ((r ≡ false) × GaveUp env none s t)
          → Started s r t
      started true t (inl p) = p.1
      started true t (inr p) = cc
      started false t (inl p) = cc
      started false t (inr p) = p.1

module _ {W : Type 0} (store : Store W) (env : Env W) (bunker_id : String) (s : Server W)
    (bunker : Bunker) (known : lookup bunker_id s.bunkers ≡ some bunker) where
  abbrev start_failed : String
  start_failed = "Failed to initialize bunker"

  abbrev start_done : String
  start_done = format ("Bunker " ∷ bunker_id ∷ " initialized" ∷ [])

  abbrev stop_failed : String
  stop_failed = "Termination failed"

  abbrev stop_done : String
  stop_done = format ("Bunker " ∷ bunker_id ∷ " terminated" ∷ [])

  -- A known bunker is started only if it is DESTROYED: otherwise the answer is 409 and nothing has
  -- changed. If it is, the answer tells how it came out, and no other bunker is touched: a success
  -- if it is READY with its resources named, 500 if `initialize` failed and was cleaned up; and where
  -- an exception escapes, the bunker has given its resources up too.
  pub start_bunker_outcome :
      (bunker.state ≢ destroyed
        → (text : String) × (start_bunker store env bunker_id s ≡ (refuse 409 text, s)))
      × (bunker.state ≡ destroyed
          → Ran store env bunker_id s bunker known
              (Started env (bunker, s.world))
              (Raised env none (bunker, s.world))
              start_failed
              start_done
              (start_bunker store env bunker_id s))
  unfolding start_bunker
  start_bunker_outcome = (
    managed-refused store env bunker_id s bunker known destroyed (initialize env none) start_failed
        start_done,
    (λ h.
        managed-Ran store env bunker_id s bunker known (Started env (bunker, s.world))
          (Raised env none (bunker, s.world)) destroyed (initialize env none) start_failed
          start_done h (initialize-Started env (bunker, s.world) h)),
  )

  -- A known bunker is stopped only if it is ACTIVE: otherwise the answer is 409 and nothing has
  -- changed. If it is, no exception escapes and no other bunker is touched: the answer is a success
  -- if the bunker is DESTROYED, with a report of success on file, and 500 if it is in ERROR; in
  -- both no layer is up and the monitor is off.
  pub stop_bunker_outcome :
      (bunker.state ≢ active
        → (text : String) × (stop_bunker store env bunker_id s ≡ (refuse 409 text, s)))
      × (bunker.state ≡ active
          → Ran store env bunker_id s bunker known
              (λ r t. Closed r t × ((r ≡ false) ⊎ Filed env true t))
              (λ _ _. ⊥)
              stop_failed
              stop_done
              (stop_bunker store env bunker_id s))
  unfolding stop_bunker
  stop_bunker_outcome = (
    managed-refused store env bunker_id s bunker known active (terminate env) stop_failed stop_done,
    (λ h.
        managed-Ran store env bunker_id s bunker known
          (λ r t. Closed r t × ((r ≡ false) ⊎ Filed env true t)) (λ _ _. ⊥) active (terminate env)
          stop_failed stop_done h (terminate_outcome env (bunker, s.world) h)),
  )

module _ {W : Type 0} (store : Store W) (env : Env W) (config : BunkerConfig) (s : Server W) where
  abbrev create_failed : Reply String
  create_failed = refuse 500 "Failed to initialize bunker"

  -- A success: the registry has a new bunker, READY and with its resources named, beside the others.
  abbrev pub Added : Reply String × Server W → Type 0
  Added (r, t) =
      (r ≡ reply (format ("Bunker " ∷ config.id ∷ " created" ∷ [])))
      × (after : Bunker × W) × Registered config.id t after
      × OthersSame config.id s t
      × At ready (record config { guest_password = "" }) (some (vm_of config))
          (some (switch_of config)) after

  -- A failure of `initialize` on the new bunker, in a world `v`: the machine and the switch that it had
  -- named were removed, and the last call was the deletion of the row.
  abbrev pub RolledBack : Reply String × Server W → Type 0
  RolledBack (r, t) =
      (t.bunkers ≡ s.bunkers)
      × (key : String) × (v : W) × (after : Bunker × W) × (t.world
          ≡ (store.delete config.id after.1).1)
      × (((r ≡ create_failed) × GaveUp env none (new_bunker config key, v) after)
          ⊎ ((e : Exc) × (r ≡ crash e) × Raised env none (new_bunker config key, v) e after))

  -- A refusal: nothing was called but the loading of the row.
  abbrev pub Unmade : Reply String × Server W → Type 0
  Unmade (r, t) =
      (t.bunkers ≡ s.bunkers)
      × (t.world ≡ (store.load config.id s.world).1)
      × (((text : String) × (r ≡ refuse 409 text)) ⊎ ((e : Exc) × (r ≡ crash e)))

  -- A password of the config that could not be stored: nothing was called after that.
  abbrev pub Unstored : Reply String × Server W → Type 0
  Unstored (r, t) =
      (t.bunkers ≡ s.bunkers)
      × (is_nonempty config.guest_password ≡ true)
      × (v : W) × (e : Exc) × (store.store_secret "guest_password" config.guest_password v
          ≡ (err e, t.world))
      × (r ≡ crash e)

  created-outcome :
      (key : String) (v : W) (q : Outcome Bool × (Bunker × W)) (w : W)
      → Ensures
          (Started env (new_bunker config key, v))
          (Raised env none (new_bunker config key, v))
          q
      → let result = created store env config.id q (record s { world = w }) in
        Added result ⊎ RolledBack result
  unfolding new_bunker
  created-outcome key v (ok true, (b, u)) w h = inl (
    refl,
    (b, u),
    (ground (arith, lookup-insert config.id config.id b s.bunkers, eq_refl config.id), refl),
    (λ j n. ground (arith, lookup-insert config.id j b s.bunkers, eq_iff config.id j)),
    h.holds,
  )
  created-outcome key v (ok false, (b, u)) w h =
      inr (refl, key, v, (b, u), refl, inl (refl, h.holds))
  created-outcome key v (err e, (b, u)) w h =
      inr (refl, key, v, (b, u), refl, inr (e, refl, h.holds))

  abbrev pub Outcomes : Reply String × Server W → Type 0
  Outcomes result = Added result ⊎ RolledBack result ⊎ Unmade result ⊎ Unstored result

  -- What `initialize` makes of a new bunker.
  started-outcome :
      (key : String) (v : W)
      → Outcomes (
          created store env config.id
            (initialize env none (new_bunker config key, v))
            (record s { world = v }))
  unfolding new_bunker
  started-outcome key v =
      elim (created-outcome key v (initialize env none (new_bunker config key, v)) v
        (initialize-Started env (new_bunker config key, v) refl)) [
          | inl p ↦ inl p
          | inr p ↦ inr (inl p)
        ]

  -- A new bunker, or a password that could not be stored.
  abbrev MadeFrom : Outcome Bunker × W → Type 0
  MadeFrom (ok bunker, w) = (key : String) × (bunker ≡ new_bunker config key)
  MadeFrom (err e, w) =
      (is_nonempty config.guest_password ≡ true)
      × (v : W) × (store.store_secret "guest_password" config.guest_password v ≡ (err e, w))

  made_bunker-MadeFrom :
      (w : W) → MadeFrom (made_bunker store.token_hex store.store_secret config w)
  made_bunker-MadeFrom w =
      let (key, v) = store.token_hex w in
      elim (Bool-cases (is_nonempty config.guest_password)) [
        | inl h ↦
            rw h (
              after_store key v h (store.store_secret "guest_password" config.guest_password v)
                refl)
        | inr h ↦ rw h (key, refl)
      ]
    where
      after_store :
          (key : String) (v : W)
          → is_nonempty config.guest_password ≡ true
          → (q : Outcome (Unit {0}) × W)
          → store.store_secret "guest_password" config.guest_password v ≡ q
          → MadeFrom (carry_on q.0 (λ u. pure (new_bunker config key)) q.1)
      after_store key v h (ok u, w) e = (key, refl)
      after_store key v h (err x, w) e = (h, v, e)

  made-outcome :
      (q : Outcome Bunker × W)
      → MadeFrom q
      → Outcomes
          (continue (from_outcome q.0) (brought_up store env config.id) (record s { world = q.1 }))
  made-outcome (ok bunker, w) (key, e) = rw e (started-outcome key w)
  made-outcome (err e, w) (h, v, k) = inr (inr (inr (refl, h, v, e, k, refl)))

  loaded-outcome :
      (o : Outcome (Option LoadedState)) (w : W)
      → w ≡ (store.load config.id s.world).1
      → Outcomes
          (continue (from_outcome o) (unless_stored store env config) (record s { world = w }))
  loaded-outcome (err e) w h = inr (inr (inl (refl, h, inr (e, refl))))
  loaded-outcome (ok (some state)) w h =
      inr (inr (inl (refl, h, inl (format ("Bunker already exists: " ∷ config.id ∷ []), refl))))
  loaded-outcome (ok none) w h = made-outcome _ (made_bunker-MadeFrom w)

  -- A create is atomic for the registry: it succeeds, with a READY bunker under its id and the others as
  -- they were; or it leaves the registry as it was, and the row was there already, or could not be
  -- read, and nothing else was called; or the password of the config could not be stored, and nothing
  -- was called after that; or `initialize` failed, the machine and the switch that the bunker then
  -- named were removed, and the deletion of the row came last. A password that was stored is not
  -- taken back.
  pub create_bunker_outcome : Outcomes (create_bunker store env config s)
  unfolding create_bunker
  create_bunker_outcome =
      loaded-outcome (store.load config.id s.world).0 (store.load config.id s.world).1 refl
