-- ===== src/Secrets/Recall.antt =====
-- Which secrets of lumenos_sandbox/secrets.py come back, and which are gone.
use mathlib.Core.Path.{subst}
use lumenos_hiper_v.Prelude.{
  true, String, Option, none, some, ◌≡◌, ◌≢◌, ◌⊎◌, inl, inr, refl, ap, ◌∙◌, arith, eq_refl,
  lookup-insert, Outcome, ok, err, Exc,
}
use lumenos_hiper_v.Secrets.{
  Fallback, Keyring, entry_name, entries, file_store, file_get, store_secret, get_secret,
  delete_secret, looked_up,
}

Outcome-cases : (o : Outcome (Unit {0})) → (o ≡ ok tt) ⊎ ((e : Exc) × (o ≡ err e))
Outcome-cases (ok u) = inl refl
Outcome-cases (err e) = inr (e, refl)

module _ {W : Type 0} (keyring : Keyring W) (service : String) (name : String) where
  -- What `keyring` documents of a password that it took.
  abbrev pub Kept : Type 0
  Kept =
      (value : String) (w : W)
      → (keyring.set_password service name value w).0 ≡ ok tt
      → (keyring.get_password service name (keyring.set_password service name value w).1).0
        ≡ ok (some value)

  -- In the world that a refused value leaves, with the file written, the credential store has no value
  -- under the name.
  abbrev pub NoneOlder : String → W → Type 0
  NoneOlder value w =
      (stale : String)
      → (keyring.get_password service name
          (keyring.write_text (keyring.set_password service name value w).1).1).0
        ≢ ok (some stale)

  looked_up-none :
      (o : Outcome (Option String)) (file : Fallback)
      → ((stale : String) → o ≢ ok (some stale))
      → looked_up keyring service name o file ≡ file_get keyring service name file
  looked_up-none (ok (some value)) file h = absurd (h value refl)
  looked_up-none (ok none) file h = refl
  looked_up-none (err e) file h = refl

  taken :
      (value : String) (file : Fallback) (w : W)
      → (keyring.set_password service name value w).0 ≡ ok tt
      → store_secret keyring service name value (file, w)
        ≡ (ok tt, (file, (keyring.set_password service name value w).1))
  unfolding store_secret
  taken value file w e = rw (store_secret, e) refl

  refused :
      (value : String) (file : Fallback) (w : W) (e : Exc)
      → (keyring.set_password service name value w).0 ≡ err e
      → store_secret keyring service name value (file, w)
        ≡ file_store keyring service name value
            (file, (keyring.set_password service name value w).1)
  unfolding store_secret
  refused value file w e h = rw (store_secret, h) refl

  written :
      (value : String) (file : Fallback) (w : W)
      → (file_store keyring service name value (file, w)).0 ≡ ok tt
      → file_get keyring service name (file_store keyring service name value (file, w)).1.0
        ≡ some value
  unfolding file_store file_get
  written value file w h =
      rw (file_store, h)
        (ground (
          arith,
          lookup-insert (entry_name service name) (entry_name service name) value (entries file),
          eq_refl (entry_name service name),
        ))

  -- A secret whose store succeeds comes back, from the credential store if that took it, and otherwise
  -- from the file: then on condition that the credential store has no older value under the name,
  -- which `get_secret` would find first.
  pub get_secret-store_secret :
      (value : String) (s : Fallback × W)
      → Kept
      → ((keyring.set_password service name value s.1).0 ≢ ok tt → NoneOlder value s.1)
      → (store_secret keyring service name value s).0 ≡ ok tt
      → (get_secret keyring service name (store_secret keyring service name value s).1).0
        ≡ some value
  unfolding get_secret file_store
  get_secret-store_secret value (file, w) kept none_older h =
      elim (Outcome-cases (keyring.set_password service name value w).0) [
        | inl e ↦ rw (taken value file w e, kept value w e) refl
        | inr (x, e) ↦
            let w' = (keyring.set_password service name value w).1 in
            let same = refused value file w x e in
            let stored_ok = subst (λ r. r.0 ≡ ok tt) same h in
            rw same (
              looked_up-none
                (keyring.get_password service name
                  (file_store keyring service name value (file, w')).1.1).0
                (file_store keyring service name value (file, w')).1.0
                (none_older (λ q. absurd (ground (arith, e, q))))
              ∙ written value file w' stored_ok)
      ]

  removed :
      (file : Fallback) (w : W)
      → (keyring.delete_password service name w).0 ≡ ok tt
      → delete_secret keyring service name (file, w)
        ≡ (true, (file, (keyring.delete_password service name w).1))
  unfolding delete_secret
  removed file w h = rw (delete_secret, h) refl

  -- A secret that the credential store deleted, and does not have any more, is still there if the file
  -- has one under its name: `delete_secret` returns True, and `get_secret` finds that of the file.
  delete_secret-Remains :
      (value : String) (file : Fallback) (w : W)
      → let after = keyring.delete_password service name w in
        after.0 ≡ ok tt
        → ((stale : String) → (keyring.get_password service name after.1).0 ≢ ok (some stale))
        → file_get keyring service name file ≡ some value
        → let (r, s) = delete_secret keyring service name (file, w) in
          (r ≡ true) × ((get_secret keyring service name s).0 ≡ some value)
  unfolding delete_secret get_secret
  delete_secret-Remains value file w h gone found =
      let after = keyring.delete_password service name w in
      let same : delete_secret keyring service name (file, w) ≡ (true, (file, after.1)) =
        removed file w h in
      (
        ap (λ r. r.0) same,
        ap (λ r. (get_secret keyring service name r.1).0) same
            ∙ looked_up-none (keyring.get_password service name after.1).0 file gone
            ∙ found,
      )
