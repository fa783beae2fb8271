-- ===== src/Events/Inbox.antt =====
-- crates/shared-kernel/src/events/inbox.rs: an event is applied at most once per handler. A
-- module's database is its inbox and the tables that its handlers write; what PostgreSQL does is
-- told by the statements of the source, and a fault of its own (of `begin`, of a statement or of
-- `commit`) is an argument.
use rust_api_modular_monolit.Base.{
  ℕ, ◌≡◌, refl, ◌⊎◌, inl, inr, String, Bool, true, false, List, [], ◌∷◌, Option, none, some, arith,
  eq_nat, eq_string, eq_pair, beq_self, if◌then◌else◌, contains,
}
use rust_api_modular_monolit.Base.Result.{Result, ok, err, Result-cases}

-- `(EventId, HandlerName)`, the primary key of `InboxMessage`.
abbrev pub InboxKey : Type 0
InboxKey = ℕ × String

pub record Database (D : Type 0) : Type 0 where
  pub inbox : List InboxKey
  pub tables : D

-- What a handler makes of its tables, or why it failed.
abbrev pub Handle : Type 0 → Type 0 → Type 0
Handle E D = E → D → Result D String

module _ {D : Type 0} where
  -- `commit` after the handler; its failure, and the database's, roll everything back.
  abbrev pub commit_with :
      Option String → Database D → InboxKey → Result D String → Result Bool String × Database D
  commit_with (some fault) db key result = (err fault, db)
  commit_with none db key (err reason) = (err reason, db)
  commit_with none db key (ok tables) =
      (ok true, record { inbox = key ∷ db.inbox; tables = tables })

  abbrev pub skip : Option String → Database D → Result Bool String × Database D
  skip (some fault) db = (err fault, db)
  skip none db = (ok false, db)

  -- `inbox::run`
  unfoldable pub run :
      Option String
      → Database D
      → InboxKey
      → (D → Result D String)
      → Result Bool String × Database D
  run fault db key handle =
      if contains db.inbox key then skip fault db else commit_with fault db key (handle db.tables)

  -- The handler behind the key has committed.
  abbrev pub Handled : InboxKey → Database D → Type 0
  Handled key db = contains db.inbox key ≡ true

  -- A delivery that reports no error leaves the event handled.
  pub run-Handled :
      (fault : Option String) (db : Database D) (key : InboxKey) (handle : D → Result D String)
      (done : Bool)
      → (run fault db key handle).0 ≡ ok done
      → Handled key (run fault db key handle).1
  unfolding run
  run-Handled none db key handle done h = ground (arith, beq_self key)
  run-Handled (some fault) db key handle done h = ground arith

  -- What was handled stays handled.
  pub run_keeps :
      (fault : Option String) (db : Database D) (key k : InboxKey) (handle : D → Result D String)
      → Handled k db
      → Handled k (run fault db key handle).1
  unfolding run
  run_keeps none db key k handle h = ground arith
  run_keeps (some fault) db key k handle h = ground arith

  -- A handled event is not applied again: the database stays as it is, whatever the handler would
  -- do and whatever fails.
  pub run_twice :
      (fault : Option String) (db : Database D) (key : InboxKey) (handle : D → Result D String)
      → Handled key db
      → (run fault db key handle).1 ≡ db
  unfolding run
  run_twice none db key handle h = ground arith
  run_twice (some fault) db key handle h = ground arith

  -- A delivery that reports an error has changed nothing.
  pub run_failed :
      (fault : Option String) (db : Database D) (key : InboxKey) (handle : D → Result D String)
      (reason : String)
      → (run fault db key handle).0 ≡ err reason
      → (run fault db key handle).1 ≡ db
  unfolding run
  run_failed none db key handle reason h = ground arith
  run_failed (some fault) db key handle reason h = ground arith

  -- The handler runs exactly when the delivery reports `true`, and then its writes and its inbox
  -- row stand together.
  pub run_applied :
      (fault : Option String) (db : Database D) (key : InboxKey) (handle : D → Result D String)
      → (run fault db key handle).0 ≡ ok true
      → (contains db.inbox key ≡ false)
        × (handle db.tables ≡ ok (run fault db key handle).1.tables)
        × ((run fault db key handle).1.inbox ≡ key ∷ db.inbox)
  unfolding run
  run_applied none db key handle h = ground arith
  run_applied (some fault) db key handle h = ground arith

  run_fault :
      (fault : String) (db : Database D) (key : InboxKey) (handle : D → Result D String)
      → (run (some fault) db key handle).1 ≡ db
  unfolding run
  run_fault fault db key handle = ground arith

  run_err :
      (db : Database D) (key : InboxKey) (handle : D → Result D String) (reason : String)
      → contains db.inbox key ≡ false
      → handle db.tables ≡ err reason
      → (run none db key handle).1 ≡ db
  unfolding run
  run_err db key handle reason h e = rw (h, run, e)

  run_ok :
      (db : Database D) (key : InboxKey) (handle : D → Result D String) (tables : D)
      → contains db.inbox key ≡ false
      → handle db.tables ≡ ok tables
      → (run none db key handle).1 ≡ record { inbox = key ∷ db.inbox; tables = tables }
  unfolding run
  run_ok db key handle tables h e = rw (h, run, e)

  -- The deliveries of one event to one handler, each with the fault that it meets.
  pub redeliver : List (Option String) → Database D → InboxKey → (D → Result D String) → Database D
  redeliver [] db key handle = db
  redeliver (fault ∷ faults) db key handle = redeliver faults (run fault db key handle).1 key handle

  redeliver-Handled :
      (faults : List (Option String)) (db : Database D) (key : InboxKey)
      (handle : D → Result D String)
      → Handled key db
      → redeliver faults db key handle ≡ db
  unfolding redeliver
  redeliver-Handled [] db key handle h = refl
  redeliver-Handled (fault ∷ faults) db key handle h =
      rw (run_twice fault db key handle h) (redeliver-Handled faults db key handle h)

  -- However often an event is delivered to a handler, and whatever fails on the way, the handler is
  -- applied at most once: the database ends as it was, or with the handler's writes on the tables
  -- as they were and its inbox row. The event had not been handled before.
  pub redeliver_once :
      (faults : List (Option String)) (db : Database D) (key : InboxKey)
      (handle : D → Result D String)
      → contains db.inbox key ≡ false
      → (redeliver faults db key handle ≡ db)
        ⊎ ((tables : D) × (handle db.tables ≡ ok tables)
            × (redeliver faults db key handle ≡ record { inbox = key ∷ db.inbox; tables = tables }))
  unfolding redeliver
  redeliver_once [] db key handle h = inl refl
  redeliver_once (some fault ∷ faults) db key handle h =
      rw (run_fault fault db key handle) (redeliver_once faults db key handle h)
  redeliver_once (none ∷ faults) db key handle h = elim (Result-cases (handle db.tables)) [
    | inl (tables, e) ↦ inr (
      tables,
      e,
      rw (run_ok db key handle tables h e)
          (redeliver-Handled faults _ key handle (ground (arith, beq_self key))),
    )
    | inr (reason, e) ↦
        rw (run_err db key handle reason h e) (redeliver_once faults db key handle h)
  ]

  -- One delivery of an event that has not been handled.
  pub run_once :
      (fault : Option String) (db : Database D) (key : InboxKey) (handle : D → Result D String)
      → contains db.inbox key ≡ false
      → ((run fault db key handle).1 ≡ db)
        ⊎ ((tables : D) × (handle db.tables ≡ ok tables)
            × ((run fault db key handle).1 ≡ record { inbox = key ∷ db.inbox; tables = tables }))
  unfolding redeliver
  run_once fault = redeliver_once (fault ∷ [])
