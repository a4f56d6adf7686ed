-- ===== src/Cluster/Best.antt =====
-- Which host lumenos_sandbox/multi_host.py chooses for a new machine.
use native.Mathlib.Nat.{div-le_of_le-mul}
use lumenos_hiper_v.Prelude.{
  ℕ, ◌*◌, ◌/◌, ◌≤◌, ◌<◌, max, ltb, leb, none, some, List, [], ◌∷◌, ◌++◌, ◌≡◌, refl, ap, ◌⊎◌, inl,
  inr, ◌↔◌, All, All-append, arith, Bool-cases,
}
use lumenos_hiper_v.Cluster.{HostNode, ClusterConfig, MultiHostManager, get_online_hosts}
use lumenos_hiper_v.Cluster.Choice.{Demand, host_score, place, ranked, head_above, find_best_host}

-- The first of the hosts with the highest score.
abbrev pub FirstBest : (HostNode → ℕ) → HostNode → List HostNode → Type 0
FirstBest f host hosts =
    (before : List HostNode) × (after : List HostNode) × (hosts ≡ before ++ host ∷ after)
    × All (λ other. f other < f host) before
    × All (λ other. f other ≤ f host) after

All-weaken :
    {P Q : HostNode → Type 0} (hosts : List HostNode)
    → ((host : HostNode) → P host → Q host)
    → All P hosts
    → All Q hosts
All-weaken [] k h = tt
All-weaken (host ∷ hosts) k h = (k host h.0, All-weaken hosts k h.1)

FirstBest-All :
    (f : HostNode → ℕ) (host : HostNode) (hosts : List HostNode)
    → FirstBest f host hosts
    → All (λ other. f other ≤ f host) hosts
FirstBest-All f host hosts (before, after, e, b, a) = rw e (
    All-append (λ other. f other ≤ f host) before (host ∷ after)
      (All-weaken before (λ other h. omega (arith, h)) b) (omega arith, a))

-- What is known of the first of the ranked hosts.
abbrev Led : (HostNode → ℕ) → List HostNode → List HostNode → Type 0
Led f hosts [] = hosts ≡ []
Led f hosts (best ∷ others) = FirstBest f best hosts

place-Led :
    (f : HostNode → ℕ) (host : HostNode) (hosts rest : List HostNode)
    → Led f hosts rest
    → Led f (host ∷ hosts) (place f host rest)
unfolding place
place-Led f host hosts [] h = ([], hosts, refl, tt, rw h tt)
place-Led f host hosts (best ∷ others) h = elim (Bool-cases (leb (f best) (f host))) [
  | inl t ↦ rw t (
    [],
    hosts,
    refl,
    tt,
    All-weaken hosts (λ other k. ground (arith, k, t)) (FirstBest-All f best hosts h),
  )
  | inr t ↦ rw t (host ∷ h.0, h.1, ap (λ xs. host ∷ xs) h.2, (ground (arith, t), h.3), h.4)
]

ranked-Led : (f : HostNode → ℕ) (hosts : List HostNode) → Led f hosts (ranked f hosts)
unfolding ranked
ranked-Led f [] = refl
ranked-Led f (host ∷ hosts) = place-Led f host hosts (ranked f hosts) (ranked-Led f hosts)

head_above_outcome :
    (f : HostNode → ℕ) (hosts rest : List HostNode)
    → Led f hosts rest
    → ((head_above f rest ≡ none) × All (λ host. f host ≤ 100) hosts)
      ⊎ ((host : HostNode) × (head_above f rest ≡ some host)
          × (100 < f host)
          × FirstBest f host hosts)
head_above_outcome f hosts [] h = inl (refl, rw h tt)
head_above_outcome f hosts (best ∷ others) h = elim (Bool-cases (ltb 100 (f best))) [
  | inl t ↦ inr (best, rw t refl, ground (arith, t), h)
  | inr t ↦
      inl (
        rw t refl,
        All-weaken hosts (λ other k. ground (arith, k, t)) (FirstBest-All f best hosts h),
      )
]

-- `find_best_host` gives the first of the online hosts with the highest score, and nothing exactly if
-- no online host has a positive one.
pub find_best_host_outcome :
    (demand : Demand) (m : MultiHostManager)
    → let f = host_score m.config demand in
      let hosts = get_online_hosts m in
      ((find_best_host demand m ≡ none) × All (λ host. f host ≤ 100) hosts)
      ⊎ ((host : HostNode) × (find_best_host demand m ≡ some host)
          × (100 < f host)
          × FirstBest f host hosts)
unfolding find_best_host
find_best_host_outcome demand m =
    let f = host_score m.config demand in
    let hosts = get_online_hosts m in
    head_above_outcome f hosts (ranked f hosts) (ranked-Led f hosts)

fit-le : (m a : ℕ) → (a < m) ⊎ (m * 20 / max a 1 ≤ 20)
fit-le m a = elim (Bool-cases (leb m a)) [
  | inl t ↦ inr (div-le_of_le-mul (max a 1) (ground (arith, t)))
  | inr t ↦ inl (ground (arith, t))
]

-- The score of a host is positive exactly if the host has fewer machines than the limit, whatever the
-- machine asks for, or if everything that is asked for fits, a GPU among it, with more than half of
-- the free memory.
score-positive :
    (config : ClusterConfig) (demand : Demand) (host : HostNode)
    → (100 < host_score config demand host) ↔ (
        (host.vm_count < config.max_vms_per_host)
        ⊎ ((demand.memory_mb ≤ host.available_memory_mb)
            × (10 < demand.memory_mb * 20 / max host.available_memory_mb 1)
            × (demand.cpu_cores ≤ host.available_cpu_cores)
            × (0 < demand.gpu_count)
            × (demand.gpu_count ≤ host.available_gpu_count)))
unfolding host_score
score-positive config demand host = ground (arith, fit-le demand.memory_mb host.available_memory_mb)
