-- ===== src/Api/Managed.antt =====
-- What the routes of lumenos_sandbox/api.py do to the bunkers in the registry.
use lumenos_hiper_v.Prelude.{
  Bool, true, false, not, String, some, ◌∷◌, [], ◌≡◌, ◌≢◌, ◌⊎◌, inl, inr, refl, sym, ap, ◌∙◌, arith,
  eq_iff, eq_refl, lookup, insert, lookup-insert, Exc, Outcome, ok, err, Ensures, format,
  if◌then◌else◌,
}
use lumenos_hiper_v.Types.{BunkerState, state_eq, state_name}
use lumenos_hiper_v.Types.Transitions.{state_eq-eq}
use mathlib.Core.Path.{subst}
use lumenos_hiper_v.Host.{Env}
use lumenos_hiper_v.Bunker.{Bunker, Method}
use lumenos_hiper_v.Api.{Reply, reply, refuse, crash, from_outcome}
use lumenos_hiper_v.Api.Routes.{
  Store, Server, get_bunker, run_method, managed, done_or_500, known_or_restored, continue,
  in_state, abort, Route,
}

-- The bunker that the registry has under an id, with the world around it.
abbrev pub Registered : {W : Type 0} → String → Server W → Bunker × W → Type 0
Registered bunker_id s (bunker, w) = (lookup bunker_id s.bunkers ≡ some bunker) × (s.world ≡ w)

-- The registry has the same bunkers under all other ids.
abbrev pub OthersSame : {W : Type 0} → String → Server W → Server W → Type 0
OthersSame bunker_id s t = (j : String) → j ≢ bunker_id → lookup j t.bunkers ≡ lookup j s.bunkers

state_eq-other : {a b : BunkerState} → a ≢ b → state_eq a b ≡ false
state_eq-other {a} {b} h = ground (arith, state_eq-eq a b)

state_eq-known : {a b : BunkerState} → a ≡ b → state_eq a b ≡ true
state_eq-known {a} {b} h = ground arith

-- `if not test` for a test that is known.
unless-false : {A : Type 0} {test : Bool} (x y : A) → test ≡ false → (if not test then x else y) ≡ x
unless-false x y h = ground arith

unless-true : {A : Type 0} {test : Bool} (x y : A) → test ≡ true → (if not test then x else y) ≡ y
unless-true x y h = ground arith

module _ {W : Type 0} (store : Store W) (env : Env W) (bunker_id : String) (s : Server W)
    (bunker : Bunker) (known : lookup bunker_id s.bunkers ≡ some bunker) where
  get_bunker-known : get_bunker store env bunker_id s ≡ (reply bunker, s)
  unfolding get_bunker
  get_bunker-known = ap (λ o. known_or_restored store env bunker_id o s) known

  managed-known :
      (expected : BunkerState) (m : Method W Bool) (detail message : String)
      → managed store env expected m detail message bunker_id s
        ≡ in_state store env expected m detail message bunker_id bunker s
  unfolding managed
  managed-known expected m detail message =
      ap (λ q. continue q.0 (in_state store env expected m detail message bunker_id) q.1)
        get_bunker-known

  abbrev wrong_state : BunkerState → String
  wrong_state expected =
      format
        ("Bunker is in state " ∷ state_name bunker.state ∷ ", expected " ∷ state_name expected ∷ [])

  abbrev then_run : Method W Bool → String → String → Route W String
  then_run m detail message t =
      let q = run_method store env bunker_id m bunker t in
      continue q.0 (done_or_500 store env detail message) q.1

  -- In another state: 409, and nothing has changed.
  pub managed-refused :
      (expected : BunkerState) (m : Method W Bool) (detail message : String)
      → bunker.state ≢ expected
      → (text : String) × (managed store env expected m detail message bunker_id s
          ≡ (refuse 409 text, s))
  managed-refused expected m detail message h = (
    wrong_state expected,
    managed-known expected m detail message
        ∙ ap {A = Route W String} (λ f. f s)
            (unless-false (abort 409 (wrong_state expected)) (then_run m detail message)
              (state_eq-other h)),
  )

  -- What a method came to: the registry has the bunker as the method left it and the others as they
  -- were, and the answer tells whether the method returned True, returned False or raised.
  abbrev pub Ran :
      (Bool → Bunker × W → Type 0)
      → (Exc → Bunker × W → Type 0)
      → String
      → String
      → Reply String × Server W
      → Type 0
  Ran Q E detail message (r, t) =
      (after : Bunker × W) × Registered bunker_id t after
      × OthersSame bunker_id s t
      × (((r ≡ reply message) × Q true after)
          ⊎ ((r ≡ refuse 500 detail) × Q false after)
          ⊎ ((e : Exc) × (r ≡ crash e) × E e after))

  OthersSame-insert :
      (b : Bunker) (w : W)
      → OthersSame bunker_id s (record s { bunkers = insert bunker_id b s.bunkers; world = w })
  OthersSame-insert b w j h =
      ground (arith, lookup-insert bunker_id j b s.bunkers, eq_iff bunker_id j)

  Registered-insert :
      (b : Bunker) (w : W)
      → Registered bunker_id (record s { bunkers = insert bunker_id b s.bunkers; world = w }) (b, w)
  Registered-insert b w =
      (ground (arith, lookup-insert bunker_id bunker_id b s.bunkers, eq_refl bunker_id), refl)

  finished-Ran :
      (Q : Bool → Bunker × W → Type 0) (E : Exc → Bunker × W → Type 0) (detail message : String)
      (q : Outcome Bool × (Bunker × W))
      → Ensures Q E q
      → Ran Q E detail message (
          continue
            (from_outcome q.0)
            (done_or_500 store env detail message)
            (record s { bunkers = insert bunker_id q.1.0 s.bunkers; world = q.1.1 }))
  finished-Ran Q E detail message (ok true, (b, w)) h =
      ((b, w), Registered-insert b w, OthersSame-insert b w, inl (refl, h.holds))
  finished-Ran Q E detail message (ok false, (b, w)) h =
      ((b, w), Registered-insert b w, OthersSame-insert b w, inr (inl (refl, h.holds)))
  finished-Ran Q E detail message (err e, (b, w)) h =
      ((b, w), Registered-insert b w, OthersSame-insert b w, inr (inr (e, refl, h.holds)))

  pub managed-Ran :
      (Q : Bool → Bunker × W → Type 0) (E : Exc → Bunker × W → Type 0) (expected : BunkerState)
      (m : Method W Bool) (detail message : String)
      → bunker.state ≡ expected
      → Ensures Q E (m (bunker, s.world))
      → Ran Q E detail message (managed store env expected m detail message bunker_id s)
  unfolding run_method
  managed-Ran Q E expected m detail message h post =
      subst (Ran Q E detail message)
        (sym (
          managed-known expected m detail message
          ∙ ap {A = Route W String} (λ f. f s)
              (unless-true (abort 409 (wrong_state expected)) (then_run m detail message)
                (state_eq-known h))))
        (finished-Ran Q E detail message (m (bunker, s.world)) post)
