-- ===== src/Formats/Limits.antt =====
-- The limits of a service's resources: ResourceLimit::apply of horust/src/horust/formats/service.rs on
-- Linux. `Cgroups` is what it asks of libcgroups and oci_spec: whether each of their calls succeeds.
-- Its effects are the calls that change a group, in order.
pub mod Passed
use horust.Prelude.{ℕ, ◌-◌, ◌^◌, Bool, true, false, String, Option, none, some, List, [], ◌∷◌, ◌++◌}
use horust.Prelude.Tests.{ltb, if◌then◌else◌}
use horust.Prelude.Int.{ℤ, pos, negsuc}
use horust.Prelude.Lists.{all}
use horust.Prelude.Strings.{◌⊕◌}
use horust.Formats.Service.{ServiceName, PathBuf, ResourceLimit, has_no_limit}
use horust.Formats.Event.{Pid}

-- A limit as it is given to the system: of the time in each period, of the bytes, of the processes.
pub data Limit : Type 0 where
  cpu : ℕ → ℤ → Limit
  memory : ℤ → Limit
  pids : ℤ → Limit

pub data Call : Type 0 where
  create_cgroup_manager : PathBuf → ServiceName → Call
  add_task : Pid → Call
  apply_limits : List Limit → Call

-- The root of the groups, Path::join, the quota `(cpu * 100_000.0) as i64` of an `f64`, and the
-- outcomes of the calls.
pub record Cgroups : Type 0 where
  pub root : PathBuf
  pub join : PathBuf → String → PathBuf
  pub quota : ℕ → ℤ
  pub creates : PathBuf → ServiceName → Bool
  pub builds : Limit → Bool
  pub adds : Pid → Bool
  pub applies : List Limit → Bool

-- `as i64` of a `u64`
abbrev pub as_i64 : ℕ → ℤ
as_i64 n = if ltb n (2 ^ 63) then pos n else negsuc (2 ^ 64 - 1 - n)

abbrev when_some {ℓ} : {A : Type ℓ} → (A → Limit) → Option A → List Limit
when_some f none = []
when_some f (some a) = f a ∷ []

abbrev pub resources : Cgroups → ResourceLimit → List Limit
resources c r =
    when_some (λ x. cpu 100000 (c.quota x)) r.cpu
    ++ (when_some (λ m. memory (as_i64 m)) r.memory ++ when_some (λ n. pids (as_i64 n)) r.pids_max)

-- The calls, and whether all went well.
unfoldable pub apply : Cgroups → ResourceLimit → ServiceName → Pid → List Call × Bool
apply c r name pid =
    let path = c.join c.root ("horust_" ⊕ name) in
    let limits = resources c r in
    let created = create_cgroup_manager path name ∷ [] in
    let added = created ++ add_task pid ∷ [] in
    if has_no_limit r
    then ([], true)
    else if c.creates path name
    then (if all c.builds limits
        then (if c.adds pid
            then (added ++ apply_limits limits ∷ [], c.applies limits)
            else (added, false))
        else (created, false))
    else (created, false)
