-- ===== src/Tests/Loops.antt =====
-- The loops of the threads and the registry of stops.
use qsp_protocol_node.Prelude.{◌≡◌, refl, false, true, List, [], ◌∷◌, none, some, ok}
use qsp_protocol_node.Threads.Loops.{Turn, time_interval_run, block_mined_run, subscriber_run}
use qsp_protocol_node.Threads.Loops.Order.{
  Spaced, Ascending, time_interval_run-Spaced, subscribed_blocks-Ascending,
}
use qsp_protocol_node.Stop.{Process, handle_sigkill_signal}
use qsp_protocol_node.Stop.Signal.{handle_sigkill_signal_lem}

time_interval_run-Spaced_example : Spaced 5 0 (time_interval_run 5 0 (3 ∷ 6 ∷ 9 ∷ 12 ∷ []))
time_interval_run-Spaced_example = time_interval_run-Spaced 5 0 (3 ∷ 6 ∷ 9 ∷ 12 ∷ [])

-- A chain that goes back by one block in its second turn.
abbrev turns : List Turn
turns =
    record { now = 10; remote_block_number = 41 }
    ∷ record { now = 20; remote_block_number = 40 }
    ∷ record { now = 30; remote_block_number = 43 }
    ∷ []

subscribed_blocks-Ascending_example : Ascending 0 (subscriber_run 0 (block_mined_run 5 0 0 turns))
subscribed_blocks-Ascending_example = subscribed_blocks-Ascending 5 0 turns

abbrev two_objects : Process
two_objects = record { objects = 1 ∷ 2 ∷ []; stopped = []; stopping = false; exit = none }

handle_sigkill_signal_lem_example :
    (handle_sigkill_signal (λ x. ok tt) two_objects
      ≡ record two_objects { stopped = 1 ∷ 2 ∷ []; stopping = true; exit = some 0 })
    × (handle_sigkill_signal (λ x. ok tt) (handle_sigkill_signal (λ x. ok tt) two_objects)
        ≡ handle_sigkill_signal (λ x. ok tt) two_objects)
handle_sigkill_signal_lem_example =
    handle_sigkill_signal_lem (λ x. ok tt) two_objects refl (refl, (refl, tt))
