-- ===== src/State/Refinement.antt =====
-- The state store of lumenos_sandbox/state.py as a map from bunker ids to rows: what each call changes.
use mathlib.Core.Path.{fun_ext}
use lumenos_hiper_v.Prelude.{
  map, String, Option, none, some, ◌≡◌, refl, ap, sym, ◌∙◌, ◌⊎◌, inl, inr, get_or, Dict, lookup,
  insert, erase, lookup-insert, lookup-erase, Outcome, ok, err, Exc, Ensures, Ensures-ok,
  Ensures-err, Ensures-bind, Ensures-weaken, continue, is_some, str_eq, if◌then◌else◌, arith,
}
use lumenos_hiper_v.State.{
  ConfigValue, string_keys, password_in, query, StoreData, Row, StateStore, Storage, Action,
  lift_to, statement, committed, encrypt_given, row_of, save, load, list_all, delete, found_row,
  entry_of,
}

-- What a client sees of the table.
abbrev pub View : Type 0
View = String → Option Row

abbrev pub view : StateStore → View
view s bunker_id = lookup bunker_id s.bunkers

-- A map changed at one key.
abbrev pub update : View → String → Option Row → View
update f key row j = if str_eq key j then row else f j

module _ {W : Type 0} (storage : Storage W) where
  -- The table and the key after a call that changes no row.
  abbrev pub Same : StateStore × W → StateStore × W → Type 0
  Same s t = (view t.0 ≡ view s.0) × (t.0.encryption_key ≡ s.0.encryption_key)

  -- The table after a statement that was carried out.
  abbrev pub Changed : (Dict Row → Dict Row) → StateStore × W → StateStore × W → Type 0
  Changed change s t =
      (t.0.bunkers ≡ change s.0.bunkers) × (t.0.encryption_key ≡ s.0.encryption_key)

  -- What a call raised is what the commit raised at its end.
  abbrev pub CommitRaised : Exc → StateStore × W → Type 0
  CommitRaised e t = (w : W) × (storage.commit w ≡ (err e, t.1))

  -- A statement that raises was carried out if it was its commit that raised, and otherwise not.
  statement-post :
      (change : Dict Row → Dict Row) (s : StateStore × W)
      → Ensures
          (λ _. Changed change s)
          (λ e t. Same s t ⊎ (Changed change s t × CommitRaised e t))
          (statement storage change s)
  unfolding statement
  statement-post change (s, w) = executed (storage.execute w)
    where
      with_commit :
          (v : W) (q : Outcome (Unit {0}) × W)
          → storage.commit v ≡ q
          → Ensures
              (λ _. Changed change (s, w))
              (λ e t. Same (s, w) t ⊎ (Changed change (s, w) t × CommitRaised e t))
              (q.0, (record s { bunkers = change s.bunkers }, q.1))
      with_commit v (ok u, x) h = Ensures-ok (refl, refl)
      with_commit v (err e, x) h = Ensures-err (inr ((refl, refl), (v, h)))

      executed :
          (q : Outcome (Unit {0}) × W)
          → Ensures
              (λ _. Changed change (s, w))
              (λ e t. Same (s, w) t ⊎ (Changed change (s, w) t × CommitRaised e t))
              (committed storage q.0 change (s, q.1))
      executed (ok u, v) = with_commit v (storage.commit v) refl
      executed (err e, v) = Ensures-err (inl (refl, refl))

  query-post :
      (s : StateStore × W) → Ensures (λ _ t. t.0 ≡ s.0) (λ _ t. t.0 ≡ s.0) (query storage s)
  unfolding query
  query-post s = ground arith

  -- A result that is no call leaves the state as it is.
  pub lift-bind :
      {A B : Type 0} {R : B → StateStore × W → Type 0} {E : Exc → StateStore × W → Type 0}
      (r : Outcome A) (s : StateStore × W) (f : A → Action storage B)
      → ((a : A) → r ≡ ok a → Ensures R E (f a s))
      → ((e : Exc) → E e s)
      → Ensures R E
          (continue (lift_to {S = StateStore × W} r s).0 f (lift_to {S = StateStore × W} r s).1)
  lift-bind (ok a) s f h k = h a refl
  lift-bind (err e) s f h k = Ensures-err (k e)

  view-insert :
      (rows : Dict Row) (key : String) (row : Row)
      → (λ (j : String). lookup j (insert key row rows))
        ≡ update (λ j. lookup j rows) key (some row)
  view-insert rows key row = fun_ext λ j. lookup-insert key j row rows

  view-erase :
      (rows : Dict Row) (key : String)
      → (λ (j : String). lookup j (erase key rows)) ≡ update (λ j. lookup j rows) key none
  view-erase rows key = fun_ext λ j. lookup-erase key j rows

  -- A row that has the data, column by column: the config as JSON, without the password and with the
  -- keys of its probabilities as texts, and the key encrypted.
  pub record HasData (key : String) (data_ : StoreData) (stamp : String) (row : Row) : Type 0 where
    pub config :
        (d : Dict ConfigValue) × (string_keys (erase "guest_password" data_.config) ≡ ok d)
        × (row.config ≡ storage.dumps d)
    pub state : row.state ≡ get_or data_.state "UNKNOWN"
    pub vm_name : row.vm_name ≡ data_.vm_name
    pub switch_name : row.switch_name ≡ data_.switch_name
    pub signing_key : encrypt_given storage key data_.signing_key ≡ ok row.signing_key
    pub created_at : row.created_at ≡ data_.created_at
    pub activated_at : row.activated_at ≡ data_.activated_at
    pub terminated_at : row.terminated_at ≡ data_.terminated_at
    pub updated_at : row.updated_at ≡ stamp

  -- The table after `save`, at the time that the clock showed.
  abbrev pub Saved : String → StoreData → StateStore × W → StateStore × W → Type 0
  Saved bunker_id data_ s t =
      (row : Row) × HasData s.0.encryption_key data_ (storage.now s.1).0 row
      × (view t.0 ≡ update (view s.0) bunker_id (some row))
      × (t.0.encryption_key ≡ s.0.encryption_key)

  inserted-Saved :
      (bunker_id : String) (data_ : StoreData) (s t : StateStore × W) (row : Row)
      → HasData s.0.encryption_key data_ (storage.now s.1).0 row
      → Changed (insert bunker_id row) s t
      → Saved bunker_id data_ s t
  inserted-Saved bunker_id data_ s t row has h =
      (row, has, ap (λ rows (j : String). lookup j rows) h.0 ∙ view-insert _ _ _, h.1)

  -- `save` sets the row of its bunker to one that has the data, and no other row. If it raises, it
  -- changed no row, or its commit raised, and the row is set all the same, in the transaction that is
  -- still open.
  pub save_refines :
      (bunker_id : String) (data_ : StoreData) (s : StateStore × W)
      → Ensures
          (λ _. Saved bunker_id data_ s)
          (λ e t. Same s t ⊎ (Saved bunker_id data_ s t × CommitRaised e t))
          (save storage bunker_id data_ s)
  unfolding save
  save_refines bunker_id data_ s =
      let t : StateStore × W = (s.0, (storage.now s.1).1) in
      let key = s.0.encryption_key in
      let stamp = (storage.now s.1).0 in
      lift-bind (string_keys (erase "guest_password" data_.config)) t _
        (λ config c.
          lift-bind (encrypt_given storage key data_.signing_key) t _
            (λ cipher e.
              lift-bind
                (encrypt_given storage key (password_in (lookup "guest_password" data_.config))) t _
                (λ password e'.
                  let row = row_of storage data_ config cipher stamp in
                  let has : HasData key data_ stamp row = record {
                    config = (config, c, refl);
                    state = refl;
                    vm_name = refl;
                    switch_name = refl;
                    signing_key = e;
                    created_at = refl;
                    activated_at = refl;
                    terminated_at = refl;
                    updated_at = refl;
                  } in
                  Ensures-weaken (statement-post (insert bunker_id row) t)
                    (λ _ u h. inserted-Saved bunker_id data_ s u row has h)
                    (λ _ u h. elim h [
                      | inl k ↦ inl k
                      | inr k ↦ inr (inserted-Saved bunker_id data_ s u row has k.0, k.1)
                    ]))
                (λ _. inl (refl, refl)))
            (λ _. inl (refl, refl)))
        (λ _. inl (refl, refl))

  -- The table without the row of a bunker.
  abbrev pub Removed : String → StateStore × W → StateStore × W → Type 0
  Removed bunker_id s t =
      (view t.0 ≡ update (view s.0) bunker_id none) × (t.0.encryption_key ≡ s.0.encryption_key)

  erased-Removed :
      (bunker_id : String) (s t : StateStore × W)
      → Changed (erase bunker_id) s t
      → Removed bunker_id s t
  erased-Removed bunker_id s t h =
      (ap (λ rows (j : String). lookup j rows) h.0 ∙ view-erase _ _, h.1)

  -- `delete` takes the row of its bunker out and no other, and tells whether there was one; a call that
  -- raises took no row out, or that row in the open transaction.
  pub delete_refines :
      (bunker_id : String) (s : StateStore × W)
      → Ensures
          (λ known t. (known ≡ is_some (view s.0 bunker_id)) × Removed bunker_id s t)
          (λ e t. Same s t ⊎ (Removed bunker_id s t × CommitRaised e t))
          (delete storage bunker_id s)
  unfolding delete
  delete_refines bunker_id s =
      Ensures-bind
        (Ensures-weaken (statement-post (erase bunker_id) s)
          (λ _ t h. erased-Removed bunker_id s t h)
          λ _ t h. elim h [ inl k ↦ inl k | inr k ↦ inr (erased-Removed bunker_id s t k.0, k.1) ])
        λ _ t h. Ensures-ok (refl, (h.0, h.1))

  Same-of : (s t : StateStore × W) → t.0 ≡ s.0 → Same s t
  Same-of s t h = (ap view h, ap (λ (u : StateStore). u.encryption_key) h)

  query-Same : (s : StateStore × W) → Ensures (λ _ t. t.0 ≡ s.0) (λ _. Same s) (query storage s)
  query-Same s = Ensures-weaken (query-post s) (λ _ t h. h) λ _ t h. Same-of s t h

  answered :
      {A : Type 0} (q r : Outcome A) (s t : StateStore × W)
      → q ≡ r
      → Same s t
      → Ensures (λ a u. Same s u × (q ≡ ok a)) (λ _. Same s) (r, t)
  answered q (ok a) s t e h = Ensures-ok (h, e)
  answered q (err x) s t e h = Ensures-err h

  -- `load` changes no row, and what it returns or raises is made of the row of its bunker and the
  -- key alone, unless SQLite raises.
  pub load_refines :
      (bunker_id : String) (s : StateStore × W)
      → Ensures
          (λ r t.
            Same s t × (found_row storage s.0.encryption_key bunker_id (view s.0 bunker_id) ≡ ok r))
          (λ _. Same s)
          (load storage bunker_id s)
  unfolding load
  load_refines bunker_id s = Ensures-bind (query-Same s) λ _ t h.
      answered _ _ s t
        (ap (λ (u : StateStore). found_row storage u.encryption_key bunker_id (view u bunker_id))
          (sym h))
        (Same-of s t h)

  -- `list_all` changes no row, and lists the rows of the table, the newest first.
  pub list_all_lem :
      (s : StateStore × W)
      → Ensures
          (λ entries t. Same s t × (entries ≡ storage.newest_first (map entry_of s.0.bunkers)))
          (λ _. Same s)
          (list_all storage s)
  unfolding list_all
  list_all_lem s = Ensures-bind (query-Same s) λ _ t h.
      Ensures-ok
        (Same-of s t h, ap (λ (u : StateStore). storage.newest_first (map entry_of u.bunkers)) h)
