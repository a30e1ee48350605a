-- ===== src/Formats/Validation.antt =====
-- The checks on the services that were loaded: `validate` of
-- horust/src/horust/formats/service.rs, and the errors of horust/src/horust/error.rs.
pub mod Laws
use Prim.Native.String
use horust.Prelude.{◌≡◌, Bool, true, false, String, List, [], ◌∷◌, ◌++◌, map}
use horust.Prelude.Tests.{◌==◌, if◌then◌else◌, String_eq}
use horust.Prelude.Lists.{any, flat_map}
use horust.Formats.Service.{Service, ServiceName}

pub data ValidationError : Type 0 where
  missing_dependency : (before after : ServiceName) → ValidationError
  missing_shutdown_dependency : (before after : ServiceName) → ValidationError
  command_empty : (service : ServiceName) → ValidationError

pub data Result : Type 0 where
  ok : List Service → Result
  err : List ValidationError → Result

abbrev pub is_service : List Service → ServiceName → Bool
is_service services name = any (λ s. s.name == name) services

-- The errors of one list of dependencies.
abbrev pub missing :
    (ServiceName → ServiceName → ValidationError)
    → List Service
    → Service
    → List ServiceName
    → List ValidationError
missing error services service =
    flat_map (λ name. if is_service services name then [] else error name service.name ∷ [])

abbrev pub command_errors : Service → List ValidationError
command_errors service = if service.command == "" then command_empty service.name ∷ [] else []

abbrev pub check_service : List Service → Service → List ValidationError
check_service services service =
    command_errors service
    ++ (missing missing_dependency services service service.start_after
        ++ missing missing_shutdown_dependency services service service.shutdown_after)

abbrev judge : List Service → List ValidationError → Result
judge services [] = ok services
judge services (e ∷ es) = err (e ∷ es)

unfoldable pub validate : List Service → Result
validate services = judge services (flat_map (check_service services) services)

infixr 66 ◌⊕◌
abbrev ◌⊕◌ : String → String → String
a ⊕ b = String.◌++◌ a b

-- The messages, of the derived Display.
unfoldable pub fmt_error : ValidationError → String
fmt_error (missing_dependency before after) =
    "Service '" ⊕ before ⊕ "', should start after '" ⊕ after
    ⊕ "', but there is no service with such name."
fmt_error (missing_shutdown_dependency before after) =
    "Service '" ⊕ after ⊕ "' has shutdown-after = ['" ⊕ before
    ⊕ "'], but there is no service with such name."
fmt_error (command_empty service) = "Command is defined, but it is empty for service: " ⊕ service

abbrev join_lines : List String → String
join_lines [] = ""
join_lines (s ∷ []) = s
join_lines (s ∷ t ∷ rest) = s ⊕ "\n" ⊕ join_lines (t ∷ rest)

unfoldable pub validation_errors : List ValidationError → String
unfolding fmt_error
validation_errors errors = join_lines (map (λ e. "* " ⊕ fmt_error e) errors)
