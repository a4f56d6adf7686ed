-- ===== src/Cluster/Registry.antt =====
-- Where the machines of lumenos_sandbox/multi_host.py are: the two tables of a cluster agree.
use lumenos_hiper_v.Prelude.{
  Bool, true, false, ◌||◌, String, Option, none, some, List, [], ◌∷◌, ◌++◌, ◌≡◌, refl, sym, ap, ◌∙◌,
  ◌⊎◌, inl, inr, is_nonempty, str_eq, eq_iff, eq_refl, Dict, lookup, insert, erase, lookup-insert,
  lookup-erase, if◌then◌else◌, arith, Bool-cases,
}
use lumenos_hiper_v.Cluster.{
  HostNode, HostRole, MultiHostManager, new_host, put_host, appoint, coordinator, worker, storage,
  add_host, is_in, with_vms, registered, register_at, is_online,
}
use lumenos_hiper_v.Cluster.Failover.{remove_first, strike, unregister_at}

-- A host that lists the machine.
abbrev pub Lists : String → Option HostNode → Type 0
Lists vm_id none = ⊥
Lists vm_id (some host) = is_in vm_id host.vm_ids ≡ true

-- The machine is on no host, or on a host that lists it.
abbrev pub At : String → Option String → Dict HostNode → Type 0
At vm_id none hosts = Unit
At vm_id (some name) hosts = Lists vm_id (lookup name hosts)

-- No host has an empty name, and every machine that is found by its id is listed by its host.
pub record Sane (m : MultiHostManager) : Type 0 where
  pub no_blank : lookup "" m.hosts ≡ none
  pub located : (vm_id : String) → At vm_id (lookup vm_id m.vm_hosts) m.hosts

is_in-append :
    (u v : String) (vm_ids : List String)
    → is_in u (vm_ids ++ v ∷ []) ≡ (is_in u vm_ids || str_eq u v)
is_in-append u v [] = ground arith
is_in-append u v (x ∷ xs) = ground (arith, is_in-append u v xs)

is_in-remove_first :
    (u v : String) (vm_ids : List String)
    → str_eq u v ≡ false
    → is_in u (remove_first v vm_ids) ≡ is_in u vm_ids
unfolding remove_first
is_in-remove_first u v [] d = refl
is_in-remove_first u v (x ∷ xs) d =
    ground (arith, eq_iff v x, eq_iff u x, eq_iff u v, d, is_in-remove_first u v xs d)

-- A host that is written back, and still lists the machine if it was the machine's host.
pub At-insert :
    (vm_id : String) (o : Option String) (name : String) (host : HostNode) (hosts : Dict HostNode)
    → At vm_id o hosts
    → (o ≡ some name → is_in vm_id host.vm_ids ≡ true)
    → At vm_id o (insert name host hosts)
At-insert vm_id none name host hosts h k = tt
At-insert vm_id (some other) name host hosts h k = elim (Bool-cases (str_eq name other)) [
  | inl t ↦
      rw (lookup-insert name other host hosts, t)
        (k (ap (λ x. some x) (sym ((eq_iff name other).0 t))))
  | inr t ↦ rw (lookup-insert name other host hosts, t) h
]

pub no_blank-insert :
    (name : String) (host : HostNode) (hosts : Dict HostNode)
    → is_nonempty name ≡ true
    → lookup "" hosts ≡ none
    → lookup "" (insert name host hosts) ≡ none
no_blank-insert name host hosts n h =
    ground (arith, lookup-insert name "" host hosts, n, h, eq_iff name "")

listed :
    (vm_id : String) (o : Option String) (name : String) (host : HostNode) (hosts : Dict HostNode)
    → At vm_id o hosts
    → o ≡ some name
    → lookup name hosts ≡ some host
    → is_in vm_id host.vm_ids ≡ true
listed vm_id o name host hosts h e l = rw l at (rw e at h)

module _ (m : MultiHostManager) (sane : Sane m) where
  pub known-nonempty :
      (name : String) (host : HostNode) → lookup name m.hosts ≡ some host → is_nonempty name ≡ true
  known-nonempty name host e = elim (Bool-cases (str_eq name "")) [
    | inl t ↦ ground (arith, sane.no_blank, ap (λ n. lookup n m.hosts) ((eq_iff name "").0 t), e)
    | inr t ↦ rw t refl
  ]

  -- The machine is listed by the host that it is found on.
  pub found-listed :
      (vm_id name : String) (host : HostNode)
      → lookup vm_id m.vm_hosts ≡ some name
      → lookup name m.hosts ≡ some host
      → is_in vm_id host.vm_ids ≡ true
  found-listed vm_id name host =
      listed vm_id (lookup vm_id m.vm_hosts) name host m.hosts (sane.located vm_id)

  put_host-Sane :
      (name : String) (host : HostNode)
      → lookup name m.hosts ≡ none
      → is_nonempty name ≡ true
      → Sane (put_host name host m)
  put_host-Sane name host e n = record {
    no_blank = no_blank-insert name host m.hosts n sane.no_blank;
    located = λ u.
        At-insert u (lookup u m.vm_hosts) name host m.hosts (sane.located u)
          λ q. elim (rw e at (rw q at (sane.located u))) [ ];
  }

  appoint-Sane :
      (role : HostRole) (name : String) (t : MultiHostManager) → Sane t → Sane (appoint role name t)
  appoint-Sane worker name t h = h
  appoint-Sane storage name t h = h
  appoint-Sane coordinator name t h = record { no_blank = h.no_blank; located = h.located }

  pub add_host-Sane :
      (name address : String) (role : HostRole)
      → lookup name m.hosts ≡ none
      → is_nonempty name ≡ true
      → Sane (add_host name address role m).1
  unfolding add_host
  add_host-Sane name address role e n =
      appoint-Sane role name _ (put_host-Sane name (new_host name address role) e n)

  registered-lists :
      (u vm_id : String) (host : HostNode)
      → (is_in u host.vm_ids ≡ true) ⊎ (str_eq u vm_id ≡ true)
      → is_in u (registered vm_id host).vm_ids ≡ true
  registered-lists u vm_id host (inl h) = ground (arith, h, is_in-append u vm_id host.vm_ids)
  registered-lists u vm_id host (inr h) = ground (
    arith,
    h,
    is_in-append u vm_id host.vm_ids,
    ap (λ x. is_in x host.vm_ids) ((eq_iff u vm_id).0 h),
  )

  register-located :
      (host : HostNode) (vm_id name : String)
      → lookup name m.hosts ≡ some host
      → (u : String)
      → At u (lookup u (insert vm_id name m.vm_hosts)) (insert name (registered vm_id host) m.hosts)
  register-located host vm_id name e u = elim (Bool-cases (str_eq vm_id u)) [
    | inl t ↦
        rw
          (
            lookup-insert vm_id u name m.vm_hosts,
            t,
            lookup-insert name name (registered vm_id host) m.hosts,
            eq_refl name,
          )
          (registered-lists u vm_id host (inr (ground (arith, t, eq_iff vm_id u, eq_iff u vm_id))))
    | inr t ↦
        rw (lookup-insert vm_id u name m.vm_hosts, t)
          (At-insert u (lookup u m.vm_hosts) name (registered vm_id host) m.hosts (sane.located u)
            λ q. registered-lists u vm_id host (inl (found-listed u name host q e)))
  ]

  pub register_at-Sane :
      (o : Option HostNode) (vm_id name : String)
      → lookup name m.hosts ≡ o
      → Sane (register_at o vm_id name m).1
  register_at-Sane none vm_id name e = sane
  register_at-Sane (some host) vm_id name e = elim (Bool-cases (is_online host)) [
    | inl t ↦ rw t (record {
      no_blank =
          no_blank-insert name (registered vm_id host) m.hosts (known-nonempty name host e)
            sane.no_blank;
      located = register-located host vm_id name e;
    })
    | inr t ↦ rw t sane
  ]

  -- What `unregister_vm` does to the table of machines, in a sane cluster.
  abbrev pub Struck : (String → Bool) → MultiHostManager → Type 0
  Struck struck t =
      Sane t
      × ((u : String) → lookup u t.vm_hosts ≡ (if struck u then none else lookup u m.vm_hosts))

  strike-At :
      (o : Option HostNode) (u vm_id name : String)
      → lookup name m.hosts ≡ o
      → str_eq u vm_id ≡ false
      → At u (lookup u m.vm_hosts) (strike o vm_id name m.hosts)
  unfolding strike
  strike-At none u vm_id name e d = sane.located u
  strike-At (some host) u vm_id name e d = elim (Bool-cases (is_in vm_id host.vm_ids)) [
    | inl t ↦ rw t (
        At-insert u (lookup u m.vm_hosts) name (with_vms (remove_first vm_id host.vm_ids) host)
          m.hosts (sane.located u)
          λ q. is_in-remove_first u vm_id host.vm_ids d ∙ found-listed u name host q e)
    | inr t ↦ rw t (sane.located u)
  ]

  strike-no_blank :
      (o : Option HostNode) (vm_id name : String)
      → is_nonempty name ≡ true
      → lookup "" (strike o vm_id name m.hosts) ≡ none
  unfolding strike
  strike-no_blank none vm_id name n = sane.no_blank
  strike-no_blank (some host) vm_id name n = ground (
    arith,
    sane.no_blank,
    no_blank-insert name (with_vms (remove_first vm_id host.vm_ids) host) m.hosts n sane.no_blank,
  )

  struck-located :
      (vm_id name : String) (u : String)
      → At u (lookup u (erase vm_id m.vm_hosts)) (strike (lookup name m.hosts) vm_id name m.hosts)
  struck-located vm_id name u = elim (Bool-cases (str_eq vm_id u)) [
    | inl t ↦ rw (lookup-erase vm_id u m.vm_hosts, t) tt
    | inr t ↦
        rw (lookup-erase vm_id u m.vm_hosts, t)
          (strike-At (lookup name m.hosts) u vm_id name refl
            (ground (arith, t, eq_iff vm_id u, eq_iff u vm_id)))
  ]

  pub unregister_at-Struck :
      (o : Option String) (vm_id : String)
      → lookup vm_id m.vm_hosts ≡ o
      → Struck (λ u. str_eq u vm_id) (unregister_at o vm_id m).1
  unfolding unregister_at
  unregister_at-Struck none vm_id e = (
    sane,
    λ u. elim (Bool-cases (str_eq u vm_id)) [
      | inl t ↦ rw t (ap (λ v. lookup v m.vm_hosts) ((eq_iff u vm_id).0 t) ∙ e)
      | inr t ↦ rw t refl
    ],
  )
  unregister_at-Struck (some name) vm_id e = elim (Bool-cases (is_nonempty name)) [
    | inl t ↦ rw t (
      record {
        no_blank = strike-no_blank (lookup name m.hosts) vm_id name t;
        located = struck-located vm_id name;
      },
      λ u.
          lookup-erase vm_id u m.vm_hosts
          ∙ ap (λ b. if b then none else lookup u m.vm_hosts)
              (ground (arith, eq_iff vm_id u, eq_iff u vm_id)),
    )
    | inr t ↦
        let blank : name ≡ "" = ground (arith, t, eq_iff name "") in
        elim (rw sane.no_blank at (rw blank at (rw e at (sane.located vm_id)))) [ ]
  ]
