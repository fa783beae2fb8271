-- ===== src/Concurrency/Tests.antt =====
-- Runs of the work queue.
use rust_api_modular_monolit.Base.{ℕ, ◌≡◌, refl, List, [], ◌∷◌, arith}
use rust_api_modular_monolit.Concurrency.{
  Move, reserves, counts, sends, receives, uncounts, finishes, new_queue, run_moves,
}
use rust_api_modular_monolit.Concurrency.Queue.{IsSound, new_queue-IsSound, run_moves-IsSound}

-- Two producers of a queue of one place: the second waits until the first item is taken.
abbrev two_producers : List (Move ℕ)
two_producers =
    reserves
    ∷ reserves
    ∷ counts
    ∷ sends 7
    ∷ receives
    ∷ reserves
    ∷ counts
    ∷ uncounts
    ∷ finishes
    ∷ sends 8
    ∷ receives
    ∷ uncounts
    ∷ finishes
    ∷ []

two_producers_finished : (run_moves two_producers (new_queue 1)).finished ≡ 7 ∷ 8 ∷ []
unfolding run_moves
two_producers_finished = refl

two_producers_waiting : (run_moves two_producers (new_queue 1)).waiting ≡ 0
unfolding run_moves
two_producers_waiting = refl

run_moves-IsSound_example : IsSound 1 (run_moves two_producers (new_queue 1))
run_moves-IsSound_example =
    run_moves-IsSound 1 two_producers (new_queue 1) (omega arith) (new_queue-IsSound 1)
