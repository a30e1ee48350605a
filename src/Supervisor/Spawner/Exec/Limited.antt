-- ===== src/Supervisor/Spawner/Exec/Limited.antt =====
-- The limits of a process that is spawned.
use horust.Prelude.{◌≡◌, ◌⊎◌, refl, Bool, true, List, arith}
use horust.Prelude.Outcome.{ok, of_option, bind-eq-ok}
use horust.Formats.Service.{Service}
use horust.Formats.Environment.{Variables}
use horust.Formats.User.{Users, get_uid}
use horust.Formats.Limits.{Call, apply}
use horust.Formats.Limits.Passed.{IsUnlimited, IsLimited, apply-IsLimited}
use horust.Healthcheck.Host.{Host}
use horust.Supervisor.Spawner.Exec.{Forking, Spawned, exec_args, service_copy, spawn_process}

pair-eq :
    (x : List Call × Bool) {calls : List Call} {b : Bool} → x.0 ≡ calls → x.1 ≡ b → x ≡ (calls, b)
pair-eq x h k = rw (← h, ← k) refl

-- A process that is spawned without an error of its limits has exactly those of its service.
pub spawn_process-IsLimited :
    (host : Host) (v : Variables) (users : Users) (f : Forking) (service : Service) {sp : Spawned}
    → spawn_process host v users f service ≡ ok sp
    → (apply f.cgroups service.resource_limit service.name sp.pid).1 ≡ true
    → IsUnlimited f.cgroups service.resource_limit sp.limited
      ⊎ IsLimited f.cgroups service.resource_limit service.name sp.pid sp.limited
unfolding spawn_process
spawn_process-IsLimited host v users f service {sp} h fine =
    let (program, e₁, h₁) = bind-eq-ok (exec_args host v users service) _ h in
    let (uid, e₂, h₂) = bind-eq-ok (of_option (get_uid users service.user)) _ h₁ in
    let (child, e₃, h₃) = bind-eq-ok (service_copy service f) _ h₂ in
    let (pid, e₄, h₄) = bind-eq-ok (of_option f.fork) _ h₃ in
    apply-IsLimited f.cgroups service.resource_limit service.name sp.pid (
      let here : pid ≡ sp.pid = ground arith in
      let done : (apply f.cgroups service.resource_limit service.name pid).0 ≡ sp.limited =
        ground arith in
      let done' : (apply f.cgroups service.resource_limit service.name sp.pid).0 ≡ sp.limited =
        rw (← here) done in
      pair-eq (apply f.cgroups service.resource_limit service.name sp.pid) done' fine)
