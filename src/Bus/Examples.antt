-- ===== src/Bus/Examples.antt =====
-- The bus with two connectors.
use horust.Prelude.{refl, List, [], ◌∷◌, String}
use horust.Bus.{Bus, new_bus, join_bus, queue_of, Step, send, turn, receive, steps}
use horust.Bus.Order
use horust.Bus.Order.{Keeps}

abbrev two_joined : Bus String
two_joined = join_bus (join_bus new_bus)

abbrev run_and_kill : List (Step String)
run_and_kill = send "run" ∷ turn ∷ receive 0 ∷ send "kill" ∷ turn ∷ receive 1 ∷ []

steps-Keeps_example : Keeps 1 [] ("run" ∷ "kill" ∷ []) (steps 1 run_and_kill two_joined)
unfolding join_bus queue_of
steps-Keeps_example =
    Order.steps-Keeps 1 run_and_kill two_joined refl
      (λ e. cc, (λ e. cc, (λ e. cc, (λ e. cc, (λ e. cc, (λ e. cc, tt))))))
