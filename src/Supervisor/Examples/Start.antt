-- ===== src/Supervisor/Examples/Start.antt =====
-- The start of the web service after the database.
use horust.Prelude.{ℕ, ◌<◌, ◌≡◌, ◌⊎◌, refl, inl, inr, some, [], ◌∷◌, arith}
use horust.Prelude.Tests.{◌==◌, if◌then◌else◌, String_eq}
use horust.Prelude.Lists.{All, All-In, In, here}
use horust.Prelude.HashMap.{In-get}
use horust.Formats.Status.{running, initial}
use horust.Formats.Service.{ServiceName}
use horust.Formats.Event.{LifecycleStatus}
use horust.Supervisor.Repo.{Repo}
use horust.Supervisor.Next.{next}
use horust.Supervisor.Repo.Readiness.{IsKnown, IsReady}
use horust.Supervisor.Repo.Lowest.{IsOrdered}
use horust.Supervisor.Next.Progress
use horust.Supervisor.Next.Progress.{IsStarting, IsDue, IsStuck, IsMoving}
use horust.Supervisor.Examples.{db, web, with_status}

abbrev up_to_web : Repo
up_to_web = record {
  services = ("web", with_status web initial) ∷ ("db", with_status db running) ∷ [];
  sent = [];
  pid_map = [];
}

abbrev level : ServiceName → ℕ
level n = if n == "web" then 1 else 0

up_to_web-IsOrdered : IsOrdered (λ sh. sh.service.start_after) level up_to_web
up_to_web-IsOrdered n d at =
    All-In
      (λ entry.
        All (λ m. IsKnown up_to_web m × (level m < level entry.0)) entry.1.service.start_after)
      up_to_web.services ((((_, refl), omega arith), tt), (tt, tt))
      (In-get up_to_web.services n d at)

up_to_web-IsStarting : IsStarting up_to_web
up_to_web-IsStarting n d at =
    All-In (λ entry. (entry.1.status ≡ initial) ⊎ IsReady entry.1.status) up_to_web.services
      (inl refl, (inr (inl refl), tt)) (In-get up_to_web.services n d at)

initial-IsDue_example : IsDue up_to_web
initial-IsDue_example =
    Progress.initial-IsDue level up_to_web "web" (with_status web initial) up_to_web-IsOrdered
      up_to_web-IsStarting refl refl

-- A database that starts after the web service, which starts after it.
abbrev circle : Repo
circle = record up_to_web {
  services =
      ("web", with_status web initial)
      ∷ ("db", with_status (record db { start_after = "web" ∷ [] }) initial)
      ∷ [];
}

abbrev Any : ServiceName → Type 0
Any n = Unit

circle-IsStuck : IsStuck Any circle
circle-IsStuck n d c at =
    All-In
      (λ entry.
        (entry.1.status ≡ initial)
        × All (IsKnown circle) entry.1.service.start_after
        × ((m : ServiceName) × In m entry.1.service.start_after × Any m))
      circle.services
      ((refl, ((_, refl), tt), ("db", here, tt)), ((refl, ((_, refl), tt), ("web", here, tt)), tt))
      (In-get circle.services n d at)

next-IsStuck_example : next 5 (with_status web initial) circle LifecycleStatus.running ≡ some []
next-IsStuck_example =
    Progress.next-IsStuck Any circle "web" (with_status web initial) 5 circle-IsStuck tt refl

-- The database runs, and shuts down after the web service, which runs.
abbrev both_up : Repo
both_up = record up_to_web {
  services = ("db", with_status db running) ∷ ("web", with_status web running) ∷ [];
}

abbrev depth : ServiceName → ℕ
depth n = if n == "db" then 1 else 0

both_up-IsOrdered : IsOrdered (λ sh. sh.service.shutdown_after) depth both_up
both_up-IsOrdered n d at =
    All-In
      (λ entry.
        All (λ m. IsKnown both_up m × (depth m < depth entry.0)) entry.1.service.shutdown_after)
      both_up.services ((((_, refl), omega arith), tt), (tt, tt)) (In-get both_up.services n d at)

shutdown-IsMoving_example : IsMoving both_up
shutdown-IsMoving_example =
    Progress.shutdown-IsMoving depth both_up "db" (with_status db running) both_up-IsOrdered refl
      (λ t. ground arith)
