-- ===== src/Examples/Queues.antt =====
-- The theorem about the event queue of hsmc/src/lib.rs applied to calls on a queue of two places: an event is
-- refused, two are given out, and at last there is none.
use hsmc.EventQueue.Runs.{QueueCall, push_call, pop_call, IsFifo, run, run-IsFifo}
use hsmc.Examples.{list_deque}
use hsmc.Prelude.{ℕ, List, [], ◌∷◌, arith}

abbrev calls : List (QueueCall ℕ)
calls = push_call 5 ∷ push_call 6 ∷ pop_call ∷ pop_call ∷ pop_call ∷ push_call 7 ∷ []

push_queue_example : IsFifo 2 (4 ∷ []) (run list_deque 2 calls (4 ∷ []))
push_queue_example = run-IsFifo list_deque 2 calls (4 ∷ []) (omega arith)
