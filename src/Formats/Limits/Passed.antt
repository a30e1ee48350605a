-- ===== src/Formats/Limits/Passed.antt =====
-- What the system is told of the limits.
use horust.Prelude.{
  ℕ, ◌<◌, ◌≤◌, ◌-◌, ◌^◌, ◌≡◌, refl, subst, sym, ◌⊎◌, inl, inr, true, Option, none, some, List, [],
  ◌∷◌, ◌++◌, arith,
}
use horust.Prelude.Tests.{Bool-cases, ltb}
use horust.Prelude.Int.{ℤ, pos, negsuc}
use horust.Prelude.Lists.{In, In-cons, here, In-append, In-append_left, In-append_right}
use horust.Prelude.Strings.{◌⊕◌}
use horust.Formats.Service.{ServiceName, ResourceLimit, has_no_limit}
use horust.Formats.Event.{Pid}
use horust.Formats.Limits.{
  Limit, cpu, memory, pids, Call, create_cgroup_manager, add_task, apply_limits, Cgroups, as_i64,
  when_some, resources, apply,
}

-- The number of a limit that is configured: itself below 2 ^ 63, and a negative number from there.
abbrev pub IsNumber : ℕ → ℤ → Type 0
IsNumber n v = ((n < 2 ^ 63) × (v ≡ pos n)) ⊎ ((2 ^ 63 ≤ n) × ((k : ℕ) × (v ≡ negsuc k)))

-- The limits that are configured, as the system should be told.
abbrev pub Wanted : Cgroups → ResourceLimit → Limit → Type 0
Wanted c r (cpu period v) = (x : ℕ) × (r.cpu ≡ some x) × (period ≡ 100000) × (v ≡ c.quota x)
Wanted c r (memory v) = (n : ℕ) × (r.memory ≡ some n) × IsNumber n v
Wanted c r (pids v) = (n : ℕ) × (r.pids_max ≡ some n) × IsNumber n v

as_i64-IsNumber : (n : ℕ) → IsNumber n (as_i64 n)
as_i64-IsNumber n = elim (Bool-cases (ltb n (2 ^ 63))) [
  | inl e ↦ inl (ground arith, rw e refl)
  | inr e ↦ inr (ground arith, (2 ^ 64 - 1 - n, rw e refl))
]

In-when_some {ℓ} :
    {A : Type ℓ} (f : A → Limit) (o : Option A) {l : Limit}
    → In l (when_some f o)
    → (a : A) × (o ≡ some a) × (l ≡ f a)
In-when_some f none i = elim i [ ]
In-when_some f (some a) i = elim (In-cons i) [ inl e ↦ (a, refl, e) | inr j ↦ elim j [ ] ]

when_some-In {ℓ} :
    {A : Type ℓ} (f : A → Limit) (o : Option A) (a : A) → o ≡ some a → In (f a) (when_some f o)
when_some-In f o a e = rw e here

-- The limits tell of what is configured, and of nothing else.
abbrev pub Tells : Cgroups → ResourceLimit → List Limit → Type 0
Tells c r limits =
    ((l : Limit) → In l limits → Wanted c r l)
    × ((x : ℕ) → r.cpu ≡ some x → In (cpu 100000 (c.quota x)) limits)
    × ((n : ℕ) → r.memory ≡ some n → In (memory (as_i64 n)) limits)
    × ((n : ℕ) → r.pids_max ≡ some n → In (pids (as_i64 n)) limits)

module _ (c : Cgroups) (r : ResourceLimit) where
  abbrev cpus : List Limit
  cpus = when_some (λ x. cpu 100000 (c.quota x)) r.cpu

  abbrev memories : List Limit
  memories = when_some (λ n. memory (as_i64 n)) r.memory

  abbrev processes : List Limit
  processes = when_some (λ n. pids (as_i64 n)) r.pids_max

  wanted : (l : Limit) → In l (resources c r) → Wanted c r l
  wanted l i = elim (In-append cpus (memories ++ processes) i) [
    | inl j ↦
        let (x, e, is) = In-when_some (λ x. cpu 100000 (c.quota x)) r.cpu j in
        subst (Wanted c r) (sym is) (x, e, refl, refl)
    | inr j ↦ elim (In-append memories processes j) [
      | inl k ↦
          let (n, e, is) = In-when_some (λ n. memory (as_i64 n)) r.memory k in
          subst (Wanted c r) (sym is) (n, e, as_i64-IsNumber n)
      | inr k ↦
          let (n, e, is) = In-when_some (λ n. pids (as_i64 n)) r.pids_max k in
          subst (Wanted c r) (sym is) (n, e, as_i64-IsNumber n)
    ]
  ]

  resources-Tells : Tells c r (resources c r)
  resources-Tells = (
    wanted,
    λ x e.
        In-append_left (memories ++ processes)
          (when_some-In (λ y. cpu 100000 (c.quota y)) r.cpu x e),
    λ n e.
        In-append_right cpus
          (In-append_left processes (when_some-In (λ k. memory (as_i64 k)) r.memory n e)),
    λ n e.
        In-append_right cpus
          (In-append_right memories (when_some-In (λ k. pids (as_i64 k)) r.pids_max n e)),
  )

  -- Nothing is configured, and nothing done.
  abbrev pub IsUnlimited : List Call → Type 0
  IsUnlimited calls = (r.cpu ≡ none) × (r.memory ≡ none) × (r.pids_max ≡ none) × (calls ≡ [])

  -- The process is put into a new group of the service, then the limits are set.
  abbrev pub IsLimited : ServiceName → Pid → List Call → Type 0
  IsLimited name pid calls =
      (limits : List Limit) × (calls
        ≡ create_cgroup_manager (c.join c.root ("horust_" ⊕ name)) name
          ∷ add_task pid
          ∷ apply_limits limits
          ∷ [])
      × Tells c r limits
      × (c.applies limits ≡ true)

-- When the limits of a service have been applied to a process without an error, then either the service
-- has none, and nothing was done, or the process was put into the group of the service first, and the
-- limits that were set are exactly those that are configured: the quota of the cpu in each 100000, and
-- the bytes and the processes as they are below 2 ^ 63, and as a negative number from there.
pub apply-IsLimited :
    (c : Cgroups) (r : ResourceLimit) (name : ServiceName) (pid : Pid) {calls : List Call}
    → apply c r name pid ≡ (calls, true)
    → IsUnlimited c r calls ⊎ IsLimited c r name pid calls
unfolding apply has_no_limit
apply-IsLimited c r name pid {calls} h = elim (Bool-cases (has_no_limit r)) [
  | inl q ↦ inl (ground arith, ground arith, ground arith, ground arith)
  | inr q ↦ inr (resources c r, ground arith, resources-Tells c r, ground arith)
]
