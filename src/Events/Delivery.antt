-- ===== src/Events/Delivery.antt =====
-- What a delivery does to the modules' databases: `deliver` of
-- crates/shared-kernel/src/events/dispatcher.rs.
use rust_api_modular_monolit.Base.{
  ℕ, ◌≡◌, refl, sym, ap, ◌∙◌, inl, inr, String, Bool, true, false, List, [], ◌∷◌, ◌++◌, Option,
  none, some, arith, ◌==◌, eq_nat, eq_string, eq_pair, beq_self, contains, Bool-cases, Option-cases,
  All, is_some, All-imp,
}
use rust_api_modular_monolit.Base.Map.{get, get-insert}
use rust_api_modular_monolit.Base.Result.{ok, err, Result-cases}
use rust_api_modular_monolit.Base.Text.{format}
use rust_api_modular_monolit.Events.Inbox
use rust_api_modular_monolit.Events.Inbox.{Database, Handle, run-Handled, run_keeps, run_twice}
use rust_api_modular_monolit.Events.Outbox.{OutboxRow}
use rust_api_modular_monolit.Events.Dispatcher.{
  Subscription, Dispatcher, ModuleDatabases, Faults, for_event, no_database, deliver_to,
  deliver_all, report, deliver, read_event,
}

module _ {D : Type 0} where
  -- Two stores of databases are alike: every module has the same one in both.
  abbrev pub Same : ModuleDatabases D → ModuleDatabases D → Type 0
  Same a b = (k : String) → get k a ≡ get k b

report-none : (failures : List String) → report failures ≡ none → failures ≡ []
report-none [] h = refl
report-none (failure ∷ failures) h = cc

module _ {E D : Type 0} where
  -- The subscriber has applied the event.
  abbrev pub has_handled : ℕ → Subscription E D → Option (Database D) → Bool
  has_handled id s none = false
  has_handled id s (some db) = contains db.inbox (id, s.handler_name)

  abbrev pub HandledIn : ℕ → ModuleDatabases D → Subscription E D → Type 0
  HandledIn id databases s = has_handled id s (get s.module_key databases) ≡ true

  module _ (faults : Faults) (id : ℕ) (event : E) where
    deliver_to-HandledIn :
        (s : Subscription E D) (databases : ModuleDatabases D) (done : Bool)
        → (deliver_to faults id event s databases).0 ≡ ok done
        → HandledIn id (deliver_to faults id event s databases).1 s
    unfolding deliver_to
    deliver_to-HandledIn s databases done h = elim (Option-cases (get s.module_key databases)) [
      | inl e ↦ let no : err (no_database s) ≡ ok done = rw (e, deliver_to) at h in cc
      | inr (db, e) ↦
          rw (e, deliver_to, get-insert, beq_self)
            (run-Handled (faults (id, s.handler_name)) db (id, s.handler_name) (s.handle event) done
              (rw (e, deliver_to) at h))
    ]

    deliver_to_keeps :
        (other : ℕ) (s t : Subscription E D) (databases : ModuleDatabases D)
        → HandledIn other databases t
        → HandledIn other (deliver_to faults id event s databases).1 t
    unfolding deliver_to
    deliver_to_keeps other s t databases h = elim (Option-cases (get s.module_key databases)) [
      | inl e ↦ rw (e, deliver_to) h
      | inr (db, e) ↦ elim (Bool-cases (s.module_key == t.module_key)) [
        | inl hit ↦
            let same : s.module_key ≡ t.module_key = (eq_string.equals_iff _ _).0 hit in
            let there : get t.module_key databases ≡ some db = rw (sym same) e in
            rw (e, deliver_to, get-insert, hit)
              (run_keeps (faults (id, s.handler_name)) db (id, s.handler_name)
                (other, t.handler_name) (s.handle event) (rw there at h))
        | inr miss ↦ rw (e, deliver_to, get-insert, miss) h
      ]
    ]

    deliver_all_keeps :
        (other : ℕ) (t : Subscription E D) (subscriptions : List (Subscription E D))
        (databases : ModuleDatabases D)
        → HandledIn other databases t
        → HandledIn other (deliver_all faults id event subscriptions databases).1 t
    unfolding deliver_all
    deliver_all_keeps other t [] databases h = h
    deliver_all_keeps other t (s ∷ subscriptions) databases h =
        deliver_all_keeps other t subscriptions (deliver_to faults id event s databases).1
          (deliver_to_keeps other s t databases h)

    deliver_all-HandledIn :
        (subscriptions : List (Subscription E D)) (databases : ModuleDatabases D)
        → (deliver_all faults id event subscriptions databases).0 ≡ []
        → All (HandledIn id (deliver_all faults id event subscriptions databases).1) subscriptions
    unfolding deliver_all
    deliver_all-HandledIn [] databases h = tt
    deliver_all-HandledIn (s ∷ subscriptions) databases h =
        let there = (deliver_to faults id event s databases).1 in
        elim (Result-cases (deliver_to faults id event s databases).0) [
          | inl (done, e) ↦ (
            deliver_all_keeps id s subscriptions there (deliver_to-HandledIn s databases done e),
            deliver_all-HandledIn subscriptions there (rw e at h),
          )
          | inr (reason, e) ↦
              let no : format (s.handler_name ∷ ": " ∷ reason ∷ [])
                    ∷ (deliver_all faults id event subscriptions there).0
                  ≡ [] =
                rw e at h in
              cc
        ]

    deliver_to-Same :
        (s : Subscription E D) (databases : ModuleDatabases D)
        → HandledIn id databases s
        → Same (deliver_to faults id event s databases).1 databases
    unfolding deliver_to
    deliver_to-Same s databases h k = elim (Option-cases (get s.module_key databases)) [
      | inl e ↦ rw (e, deliver_to) refl
      | inr (db, e) ↦ elim (Bool-cases (s.module_key == k)) [
        | inl hit ↦
            let same : s.module_key ≡ k = (eq_string.equals_iff _ _).0 hit in
            let there : get k databases ≡ some db = rw (sym same) e in
            rw (e, deliver_to, get-insert, hit, there)
              (ap some (
                run_twice (faults (id, s.handler_name)) db (id, s.handler_name) (s.handle event)
                  (rw e at h)))
        | inr miss ↦ rw (e, deliver_to, get-insert, miss) refl
      ]
    ]

    deliver_all-Same :
        (subscriptions : List (Subscription E D)) (databases : ModuleDatabases D)
        → All (HandledIn id databases) subscriptions
        → Same (deliver_all faults id event subscriptions databases).1 databases
    unfolding deliver_all
    deliver_all-Same [] databases h k = refl
    deliver_all-Same (s ∷ subscriptions) databases h k =
        deliver_all-Same subscriptions (deliver_to faults id event s databases).1
          (All-imp (HandledIn id databases)
            (HandledIn id (deliver_to faults id event s databases).1)
            (λ t. deliver_to_keeps id s t databases) subscriptions h.1)
          k
        ∙ deliver_to-Same s databases h.0 k

    is_some-deliver_to :
        (s t : Subscription E D) (databases : ModuleDatabases D)
        → is_some (get t.module_key databases) ≡ true
        → is_some (get t.module_key (deliver_to faults id event s databases).1) ≡ true
    unfolding deliver_to
    is_some-deliver_to s t databases h = elim (Option-cases (get s.module_key databases)) [
      | inl e ↦ rw (e, deliver_to) h
      | inr (db, e) ↦ elim (Bool-cases (s.module_key == t.module_key)) [
        | inl hit ↦ rw (e, deliver_to, get-insert, hit) refl
        | inr miss ↦ rw (e, deliver_to, get-insert, miss) h
      ]
    ]

    run_sound :
        (s : Subscription E D) (db : Database D)
        → faults (id, s.handler_name) ≡ none
        → ((t : D) → (u : D) × (s.handle event t ≡ ok u))
        → Inbox.Handled
            (id, s.handler_name)
            (Inbox.run (faults (id, s.handler_name)) db (id, s.handler_name) (s.handle event)).1
    unfolding Inbox.run
    run_sound s db quiet total =
        rw quiet
          (ground (arith, total db.tables, beq_self {A = Inbox.InboxKey} (id, s.handler_name)))

    deliver_to_sound :
        (s : Subscription E D) (databases : ModuleDatabases D)
        → is_some (get s.module_key databases) ≡ true
        → faults (id, s.handler_name) ≡ none
        → ((t : D) → (u : D) × (s.handle event t ≡ ok u))
        → HandledIn id (deliver_to faults id event s databases).1 s
    unfolding deliver_to
    deliver_to_sound s databases registered quiet total =
        elim (Option-cases (get s.module_key databases)) [
          | inl e ↦ let no : false ≡ true = rw e at registered in cc
          | inr (db, e) ↦ rw (e, deliver_to, get-insert, beq_self) (run_sound s db quiet total)
        ]

    deliver_all_sound :
        (before : List (Subscription E D)) (s : Subscription E D) (rest : List (Subscription E D))
        (databases : ModuleDatabases D)
        → is_some (get s.module_key databases) ≡ true
        → faults (id, s.handler_name) ≡ none
        → ((t : D) → (u : D) × (s.handle event t ≡ ok u))
        → HandledIn id (deliver_all faults id event (before ++ s ∷ rest) databases).1 s
    unfolding deliver_all
    deliver_all_sound [] s rest databases registered quiet total =
        deliver_all_keeps id s rest _ (deliver_to_sound s databases registered quiet total)
    deliver_all_sound (b ∷ before) s rest databases registered quiet total =
        deliver_all_sound before s rest (deliver_to faults id event b databases).1
          (is_some-deliver_to b s databases registered) quiet total

  -- When a delivery reports no error, every subscriber of the event's type has applied the event,
  -- in its own module's database.
  pub deliver-HandledIn :
      (d : Dispatcher E D) (faults : Faults) (message : OutboxRow) (databases : ModuleDatabases D)
      → (deliver d faults message databases).0 ≡ none
      → All
          (HandledIn message.id (deliver d faults message databases).1)
          (for_event message.event_type d.subscriptions)
  unfolding deliver
  deliver-HandledIn d faults message databases h = elim (Result-cases (read_event d message)) [
    | inl (event, e) ↦
        rw (e, deliver)
          (deliver_all-HandledIn faults message.id event
            (for_event message.event_type d.subscriptions) databases
            (report-none _ (rw (e, deliver) at h)))
    | inr (reason, e) ↦ let no : some reason ≡ none = rw (e, deliver) at h in cc
  ]

  pub deliver_keeps :
      (d : Dispatcher E D) (faults : Faults) (message : OutboxRow) (databases : ModuleDatabases D)
      (other : ℕ) (t : Subscription E D)
      → HandledIn other databases t
      → HandledIn other (deliver d faults message databases).1 t
  unfolding deliver
  deliver_keeps d faults message databases other t h = elim (Result-cases (read_event d message)) [
    | inl (event, e) ↦
        rw (e, deliver)
          (deliver_all_keeps faults message.id event other t
            (for_event message.event_type d.subscriptions) databases h)
    | inr (reason, e) ↦ rw (e, deliver) h
  ]

  deliver-Same :
      (d : Dispatcher E D) (faults : Faults) (message : OutboxRow) (databases : ModuleDatabases D)
      → All (HandledIn message.id databases) (for_event message.event_type d.subscriptions)
      → Same (deliver d faults message databases).1 databases
  unfolding deliver
  deliver-Same d faults message databases handled k = elim (Result-cases (read_event d message)) [
    | inl (event, e) ↦
        rw (e, deliver)
          (deliver_all-Same faults message.id event (for_event message.event_type d.subscriptions)
            databases handled k)
    | inr (reason, e) ↦ rw (e, deliver) refl
  ]

  -- When a delivery has reported no error, a second delivery of the same message (after a crash
  -- before the outbox row was marked, say) leaves every module's database as it is, whatever
  -- fails this time.
  deliver-again :
      (d : Dispatcher E D) (faults again : Faults) (message : OutboxRow)
      (databases : ModuleDatabases D)
      → (deliver d faults message databases).0 ≡ none
      → Same
          (deliver d again message (deliver d faults message databases).1).1
          (deliver d faults message databases).1
  deliver-again d faults again message databases h =
      deliver-Same d again message (deliver d faults message databases).1
        (deliver-HandledIn d faults message databases h)

  -- A handler is not held up by the others: where the message's event can be read, a subscriber
  -- whose module has a database that accepts its transaction, and whose handler succeeds, has
  -- applied the event after the delivery, wherever it stands among the event's subscribers and
  -- whatever becomes of those.
  pub deliver-isolated :
      (d : Dispatcher E D) (faults : Faults) (message : OutboxRow) (databases : ModuleDatabases D)
      (event : E) (before : List (Subscription E D)) (s : Subscription E D)
      (rest : List (Subscription E D))
      → read_event d message ≡ ok event
      → for_event message.event_type d.subscriptions ≡ before ++ s ∷ rest
      → is_some (get s.module_key databases) ≡ true
      → faults (message.id, s.handler_name) ≡ none
      → ((t : D) → (u : D) × (s.handle event t ≡ ok u))
      → HandledIn message.id (deliver d faults message databases).1 s
  unfolding deliver
  deliver-isolated d faults message databases event before s rest readable order registered quiet
        total =
      rw (readable, order, deliver)
        (deliver_all_sound faults message.id event before s rest databases registered quiet total)
