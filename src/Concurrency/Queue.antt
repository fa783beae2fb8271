-- ===== src/Concurrency/Queue.antt =====
-- What every schedule of the work queue of crates/shared-kernel/src/concurrency.rs keeps to.
use mathlib.Core.List.{append_assoc}
use rust_api_modular_monolit.Base.{
  ℕ, suc, ◌+◌, ◌^◌, ◌≤◌, ◌<◌, ◌≡◌, refl, sym, ap, ◌∙◌, Bool, List, [], ◌∷◌, ◌++◌, none, some,
  length, length-append, if◌then◌else◌, arith, true, false,
}
use rust_api_modular_monolit.Concurrency.{
  ModuleWorkQueue, Consumer, idle, received, running, Move, reserves, counts, sends, receives,
  uncounts, finishes, new_queue, reserve, count_up, send, perform_move, after, run_moves,
  receive_from, count_down_from, finish_from, fetch_add, fetch_sub,
}

fetch_add-fits : (a b c : ℕ) → a + suc b + c < 2 ^ 64 → fetch_add (a + b + c) ≡ a + suc b + c
fetch_add-fits a b c h = omega arith

fetch_sub-fits : (n : ℕ) → suc n < 2 ^ 64 → fetch_sub (n + 1) ≡ n + 0
fetch_sub-fits n h = omega arith

module _ {Item : Type 0} where
  -- The item that the consumer has.
  abbrev pub held : Consumer Item → List Item
  held idle = []
  held (received item) = item ∷ []
  held (running item) = item ∷ []

  -- What the consumer has taken and not counted down.
  abbrev pub pending : Consumer Item → ℕ
  pending (received item) = 1
  pending _ = 0

  -- The count is exact, the queue is bounded, and items run one by one in the order they were sent.
  pub record IsSound (capacity : ℕ) (q : ModuleWorkQueue Item) : Type 0 where
    pub same : q.capacity ≡ capacity
    pub exact : q.waiting ≡ length q.queue + q.counted + pending q.consumer
    pub bounded : length q.queue + q.reserved + q.counted ≤ capacity
    pub ordered : q.sent ≡ q.finished ++ (held q.consumer ++ q.queue)

  pub new_queue-IsSound : (capacity : ℕ) → IsSound capacity (new_queue capacity)
  new_queue-IsSound capacity = record {
    same = refl;
    exact = omega arith;
    bounded = omega arith;
    ordered = refl;
  }

  pending-le : (consumer : Consumer Item) → pending consumer ≤ 1
  pending-le idle = omega arith
  pending-le (received item) = omega arith
  pending-le (running item) = omega arith

  -- A guarded move: it is made where the test passes, and waits where it does not.
  guarded-IsSound :
      (capacity : ℕ) (b : Bool) (q next : ModuleWorkQueue Item)
      → IsSound capacity q
      → (b ≡ true → IsSound capacity next)
      → IsSound capacity (after q (if b then some next else none))
  guarded-IsSound capacity true q next s f = f refl
  guarded-IsSound capacity false q next s f = s

  reserve-IsSound :
      (capacity : ℕ) (q : ModuleWorkQueue Item)
      → IsSound capacity q
      → IsSound capacity (after q (reserve q))
  reserve-IsSound capacity q s = guarded-IsSound capacity _ q _ s (λ e. record {
    same = s.same;
    exact = s.exact;
    bounded = ground (arith, s.same, s.bounded, e);
    ordered = s.ordered;
  })

  count_up-IsSound :
      (capacity : ℕ) (q : ModuleWorkQueue Item)
      → suc capacity < 2 ^ 64
      → IsSound capacity q
      → IsSound capacity (after q (count_up q))
  count_up-IsSound capacity q h s = guarded-IsSound capacity _ q _ s (λ e. record {
    same = s.same;
    exact =
        ap fetch_add s.exact
        ∙ fetch_add-fits (length q.queue) q.counted (pending q.consumer)
            (ground (arith, h, s.bounded, e, pending-le q.consumer));
    bounded = ground (arith, s.bounded, e);
    ordered = s.ordered;
  })

  send-IsSound :
      (capacity : ℕ) (item : Item) (q : ModuleWorkQueue Item)
      → IsSound capacity q
      → IsSound capacity (after q (send item q))
  send-IsSound capacity item q s =
      let longer : length (q.queue ++ item ∷ []) ≡ length q.queue + 1 =
        length-append q.queue (item ∷ []) in
      guarded-IsSound capacity _ q _ s (λ e. record {
        same = s.same;
        exact = ground (arith, s.exact, longer, e);
        bounded = ground (arith, s.bounded, longer, e);
        ordered =
            ap (λ items. items ++ item ∷ []) s.ordered
            ∙ append_assoc q.finished (held q.consumer ++ q.queue) (item ∷ [])
            ∙ ap (λ items. q.finished ++ items)
                (append_assoc (held q.consumer) q.queue (item ∷ []));
      })

  receive_from-IsSound :
      (capacity : ℕ) (consumer : Consumer Item) (queue : List Item) (q : ModuleWorkQueue Item)
      → q.consumer ≡ consumer
      → q.queue ≡ queue
      → IsSound capacity q
      → IsSound capacity (after q (receive_from consumer queue q))
  receive_from-IsSound capacity idle [] q c i s = s
  receive_from-IsSound capacity idle (item ∷ items) q c i s = record {
    same = s.same;
    exact = s.exact ∙ rw (c, i) (omega arith);
    bounded = ground (arith, s.bounded, ap length i);
    ordered = s.ordered ∙ rw (c, i) refl;
  }
  receive_from-IsSound capacity (received item) queue q c i s = s
  receive_from-IsSound capacity (running item) queue q c i s = s

  count_down_from-IsSound :
      (capacity : ℕ) (consumer : Consumer Item) (q : ModuleWorkQueue Item)
      → suc capacity < 2 ^ 64
      → q.consumer ≡ consumer
      → IsSound capacity q
      → IsSound capacity (after q (count_down_from consumer q))
  count_down_from-IsSound capacity idle q h c s = s
  count_down_from-IsSound capacity (received item) q h c s = record {
    same = s.same;
    exact =
        ap fetch_sub (s.exact ∙ rw c refl)
        ∙ fetch_sub-fits (length q.queue + q.counted) (ground (arith, h, s.bounded));
    bounded = s.bounded;
    ordered = s.ordered ∙ rw c refl;
  }
  count_down_from-IsSound capacity (running item) q h c s = s

  finish_from-IsSound :
      (capacity : ℕ) (consumer : Consumer Item) (q : ModuleWorkQueue Item)
      → q.consumer ≡ consumer
      → IsSound capacity q
      → IsSound capacity (after q (finish_from consumer q))
  finish_from-IsSound capacity idle q c s = s
  finish_from-IsSound capacity (received item) q c s = s
  finish_from-IsSound capacity (running item) q c s = record {
    same = s.same;
    exact = s.exact ∙ rw c refl;
    bounded = s.bounded;
    ordered = s.ordered ∙ rw c (sym (append_assoc q.finished (item ∷ []) q.queue));
  }

  perform_move-IsSound :
      (capacity : ℕ) (move : Move Item) (q : ModuleWorkQueue Item)
      → suc capacity < 2 ^ 64
      → IsSound capacity q
      → IsSound capacity (after q (perform_move move q))
  unfolding perform_move
  perform_move-IsSound capacity reserves q h s = reserve-IsSound capacity q s
  perform_move-IsSound capacity counts q h s = count_up-IsSound capacity q h s
  perform_move-IsSound capacity (sends item) q h s = send-IsSound capacity item q s
  perform_move-IsSound capacity receives q h s = receive_from-IsSound capacity _ _ q refl refl s
  perform_move-IsSound capacity uncounts q h s = count_down_from-IsSound capacity _ q h refl s
  perform_move-IsSound capacity finishes q h s = finish_from-IsSound capacity _ q refl s

  -- However the producers and the consumer take their turns, `waiting` is the number of items that
  -- are counted and not taken up, without a wrap-around, sent items and permits are at most the
  -- capacity, and the items that have run, the one at hand and those in the queue are those that
  -- were sent, in that order. The capacity and one fit in a `usize`.
  pub run_moves-IsSound :
      (capacity : ℕ) (moves : List (Move Item)) (q : ModuleWorkQueue Item)
      → suc capacity < 2 ^ 64
      → IsSound capacity q
      → IsSound capacity (run_moves moves q)
  unfolding run_moves
  run_moves-IsSound capacity [] q h s = s
  run_moves-IsSound capacity (move ∷ moves) q h s =
      run_moves-IsSound capacity moves _ h (perform_move-IsSound capacity move q h s)
