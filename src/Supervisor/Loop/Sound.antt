-- ===== src/Supervisor/Loop/Sound.antt =====
-- The table with which the loop starts: one entry for each service, with counters that fit their types.
use horust.Prelude.{◌≡◌, subst, inl, inr, some, List, [], ◌∷◌, map, arith}
use horust.Prelude.Tests.{Bool-cases, String_eq, ◌==◌, eq_of_beq}
use horust.Prelude.HashMap.{HashMap, IsDistinct, get, insert, extend, get-insert, insert-IsDistinct}
use horust.Formats.Service.{Service, ServiceName}
use horust.Supervisor.ServiceHandler.{ServiceHandler, of_service, sh_name}
use horust.Supervisor.Repo.{new_repo}
use horust.Supervisor.Handler.Sound.{IsWide}

-- A table as IsSound has it.
abbrev pub Filed : HashMap ServiceName ServiceHandler → Type 0
Filed m =
    IsDistinct m
    × ((n : ServiceName) (d : ServiceHandler) → get m n ≡ some d → (sh_name d ≡ n) × IsWide d)

insert-Filed :
    (m : HashMap ServiceName ServiceHandler) (s : Service)
    → Filed m
    → Filed (insert m s.name (of_service s))
insert-Filed m s (distinct, each) = (
  insert-IsDistinct m s.name (of_service s) distinct,
  λ n d e. elim (Bool-cases (s.name == n)) [
    | inl p ↦
        let same : s.name ≡ n = eq_of_beq p in
        let is : of_service s ≡ d = ground (arith, get-insert m s.name n (of_service s)) in
        subst (λ (x : ServiceHandler). (sh_name x ≡ n) × IsWide x) is (same, (omega arith, tt))
    | inr p ↦ each n d (ground (arith, get-insert m s.name n (of_service s)))
  ],
)

extend-Filed :
    (services : List Service) (m : HashMap ServiceName ServiceHandler)
    → Filed m
    → Filed (extend m (map (λ s. (s.name, of_service s)) services))
extend-Filed [] m h = h
extend-Filed (s ∷ ss) m h = extend-Filed ss (insert m s.name (of_service s)) (insert-Filed m s h)

pub new_repo-Filed : (services : List Service) → Filed (new_repo services).services
unfolding new_repo
new_repo-Filed services = extend-Filed services [] (tt, λ n d e. absurd (ground arith))
