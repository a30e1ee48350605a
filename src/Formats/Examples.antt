-- ===== src/Formats/Examples.antt =====
-- The environment of a service that sets one variable and asks for another of Horust's, and the limits
-- of one that may use some memory and a few processes.
use horust.Prelude.{◌≡◌, ◌⊎◌, refl, true, false, none, some, [], ◌∷◌}
use horust.Prelude.Int.{pos}
use horust.Prelude.Strings.{◌⊕◌}
use horust.Prelude.Tests.{String_eq}
use horust.Prelude.HashMap.{get}
use horust.Formats.Service.{
  Environment, default_environment, ResourceLimit, default_resource_limit, has_no_limit,
}
use horust.Formats.Limits.{
  memory, pids, create_cgroup_manager, add_task, apply_limits, Cgroups, apply,
}
use horust.Formats.Limits.Passed
use horust.Formats.Limits.Passed.{IsUnlimited, IsLimited}
use horust.Formats.Environment.{Variables, environment}
use horust.Formats.Environment.Precedence

abbrev variables : Variables
variables = record {
  vars = ("HOME", "/root") ∷ ("LANG", "C") ∷ ("DEBUG", "0") ∷ [];
  are_unicode = true;
  is_hostname_file = false;
  hostname_file = none;
}

abbrev debugged : Environment
debugged = record default_environment {
  re_export = "HOME" ∷ "DEBUG" ∷ [];
  additional = ("DEBUG", "1") ∷ [];
}

environment-get_example :
    get (environment variables debugged "web" "/home/web") "HOME" ≡ some "/root"
environment-get_example = Precedence.environment-get variables debugged "web" "/home/web" "HOME"

abbrev cgroups : Cgroups
cgroups = record {
  root = "/sys/fs/cgroup/";
  join = λ p n. p ⊕ n;
  quota = λ x. pos x;
  creates = λ p n. true;
  builds = λ l. true;
  adds = λ p. true;
  applies = λ ls. true;
}

abbrev modest : ResourceLimit
modest = record default_resource_limit { memory = some 1048576; pids_max = some 10 }

apply-IsLimited_example :
    let limits = memory (pos 1048576) ∷ pids (pos 10) ∷ [] in
    let calls =
      create_cgroup_manager "/sys/fs/cgroup/horust_web" "web"
      ∷ add_task 42
      ∷ apply_limits limits
      ∷ [] in
    IsUnlimited cgroups modest calls ⊎ IsLimited cgroups modest "web" 42 calls
unfolding apply has_no_limit
apply-IsLimited_example = Passed.apply-IsLimited cgroups modest "web" 42 refl
