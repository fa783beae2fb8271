-- ===== src/Concurrency.antt =====
-- crates/shared-kernel/src/concurrency.rs: `ModuleWorkQueue`. tokio's channel is the list of what was
-- sent and the permits that producers hold: a permit is given while sent items and permits are fewer
-- than the capacity. Producers run in parallel, so each of the three moves of `enqueue` is a step of
-- its own, and so are those of the consumer's loop. `sent` and `finished` record the history.
pub mod Queue
mod Tests
use rust_api_modular_monolit.Base.{
  ℕ, zero, suc, ◌+◌, ◌-◌, ◌%◌, ◌^◌, ◌≡◌, Bool, List, [], ◌∷◌, ◌++◌, Option, none, some, length, ltb,
  if◌then◌else◌,
}

-- Where the consumer stands in its loop.
pub data Consumer (Item : Type 0) : Type 0 where
  idle : Consumer Item
  received : Item → Consumer Item
  running : Item → Consumer Item

-- `ModuleWorkQueue`
pub record ModuleWorkQueue (Item : Type 0) : Type 0 where
  pub capacity : ℕ
  pub waiting : ℕ
  pub reserved : ℕ
  pub counted : ℕ
  pub queue : List Item
  pub consumer : Consumer Item
  pub sent : List Item
  pub finished : List Item

-- `fetch_add(1)` and `fetch_sub(1)` of an `AtomicUsize`, which wrap around.
abbrev pub fetch_add : ℕ → ℕ
fetch_add n = (n + 1) % 2 ^ 64

abbrev pub fetch_sub : ℕ → ℕ
fetch_sub n = (n + (2 ^ 64 - 1)) % 2 ^ 64

-- The moves of `enqueue` and of `execute`.
pub data Move (Item : Type 0) : Type 0 where
  reserves : Move Item
  counts : Move Item
  sends : Item → Move Item
  receives : Move Item
  uncounts : Move Item
  finishes : Move Item

module _ {Item : Type 0} where
  -- `ModuleWorkQueue::new`
  abbrev pub new_queue : ℕ → ModuleWorkQueue Item
  new_queue capacity = record {
    capacity = capacity;
    waiting = 0;
    reserved = 0;
    counted = 0;
    queue = [];
    consumer = idle;
    sent = [];
    finished = [];
  }

  -- `reserve().await`, which waits while the channel is full.
  abbrev pub reserve : ModuleWorkQueue Item → Option (ModuleWorkQueue Item)
  reserve q =
      if ltb (length q.queue + q.reserved + q.counted) q.capacity
      then some (record q { reserved = suc q.reserved })
      else none

  -- `waiting.fetch_add(1)`, by a producer that holds a permit.
  abbrev pub count_up : ModuleWorkQueue Item → Option (ModuleWorkQueue Item)
  count_up q =
      if ltb 0 q.reserved
      then some (record q {
        waiting = fetch_add q.waiting;
        reserved = q.reserved - 1;
        counted = suc q.counted;
      })
      else none

  -- `permit.send(item)`, by a producer that has counted.
  abbrev pub send : Item → ModuleWorkQueue Item → Option (ModuleWorkQueue Item)
  send item q =
      if ltb 0 q.counted
      then some (record q {
        counted = q.counted - 1;
        queue = q.queue ++ item ∷ [];
        sent = q.sent ++ item ∷ [];
      })
      else none

  abbrev pub receive_from :
      Consumer Item → List Item → ModuleWorkQueue Item → Option (ModuleWorkQueue Item)
  receive_from idle (item ∷ items) q = some (record q { queue = items; consumer = received item })
  receive_from _ _ q = none

  -- `receiver.recv()`
  abbrev pub receive : ModuleWorkQueue Item → Option (ModuleWorkQueue Item)
  receive q = receive_from q.consumer q.queue q

  abbrev pub count_down_from : Consumer Item → ModuleWorkQueue Item → Option (ModuleWorkQueue Item)
  count_down_from (received item) q =
      some (record q { waiting = fetch_sub q.waiting; consumer = running item })
  count_down_from _ q = none

  -- `waiting.fetch_sub(1)`
  abbrev pub count_down : ModuleWorkQueue Item → Option (ModuleWorkQueue Item)
  count_down q = count_down_from q.consumer q

  abbrev pub finish_from : Consumer Item → ModuleWorkQueue Item → Option (ModuleWorkQueue Item)
  finish_from (running item) q =
      some (record q { consumer = idle; finished = q.finished ++ item ∷ [] })
  finish_from _ q = none

  -- The item's end, by its result or by a panic, which is caught.
  abbrev pub finish_item : ModuleWorkQueue Item → Option (ModuleWorkQueue Item)
  finish_item q = finish_from q.consumer q

  unfoldable pub perform_move : Move Item → ModuleWorkQueue Item → Option (ModuleWorkQueue Item)
  perform_move reserves q = reserve q
  perform_move counts q = count_up q
  perform_move (sends item) q = send item q
  perform_move receives q = receive q
  perform_move uncounts q = count_down q
  perform_move finishes q = finish_item q

  -- A move that cannot be made waits: the schedule goes on without it.
  abbrev after : ModuleWorkQueue Item → Option (ModuleWorkQueue Item) → ModuleWorkQueue Item
  after q none = q
  after q (some next) = next

  -- Any schedule of moves.
  unfoldable pub run_moves : List (Move Item) → ModuleWorkQueue Item → ModuleWorkQueue Item
  unfolding perform_move
  run_moves [] q = q
  run_moves (move ∷ moves) q = run_moves moves (after q (perform_move move q))
