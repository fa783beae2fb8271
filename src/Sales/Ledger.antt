-- ===== src/Sales/Ledger.antt =====
-- A handler behind its inbox (crates/shared-kernel/src/events/inbox.rs) keeps books: what it counts
-- is what the events in the inbox come to, each taken once. An event is delivered under the id of
-- its outbox row; `published` is the event of an id.
use rust_api_modular_monolit.Base.{
  ℕ, ◌≡◌, inl, inr, String, Bool, false, List, [], ◌∷◌, Option, eq_nat, eq_string, eq_pair,
  if◌then◌else◌, contains, All, Bool-cases, subst, sym,
}
use rust_api_modular_monolit.Base.Result.{Result, ok, is_ok, Result-cases}
use rust_api_modular_monolit.Events.Inbox.{
  InboxKey, Database, Handle, Handled, run, run-Handled, run_keeps, run_twice, run_once,
}

-- No key stands twice in an inbox.
abbrev pub IsDistinct : List InboxKey → Type 0
IsDistinct [] = Unit
IsDistinct (key ∷ keys) = (contains keys key ≡ false) × IsDistinct keys

module _ {E D : Type 0} (handler_name : String) (handle : Handle E D) (published : ℕ → E) where
  abbrev pub key_of : ℕ → InboxKey
  key_of id = (id, handler_name)

  -- One delivery and the database that it leaves.
  abbrev deliver_one : ℕ × Option String → Database D → Result Bool String × Database D
  deliver_one (id, fault) db = run fault db (key_of id) (handle (published id))

  -- Deliveries to the handler, each by the event's id and the fault of the database that it meets.
  unfoldable pub receive_all : List (ℕ × Option String) → Database D → Database D
  unfolding run
  receive_all [] db = db
  receive_all (delivery ∷ deliveries) db = receive_all deliveries (deliver_one delivery db).1

  -- The ids whose delivery reported no error.
  unfoldable pub acknowledged : List (ℕ × Option String) → Database D → List ℕ
  unfolding run
  acknowledged [] db = []
  acknowledged (delivery ∷ deliveries) db =
      let rest = acknowledged deliveries (deliver_one delivery db).1 in
      if is_ok (deliver_one delivery db).0 then delivery.0 ∷ rest else rest

  receive_keeps :
      (deliveries : List (ℕ × Option String)) (db : Database D) (key : InboxKey)
      → Handled key db
      → Handled key (receive_all deliveries db)
  unfolding receive_all
  receive_keeps [] db key h = h
  receive_keeps ((id, fault) ∷ deliveries) db key h =
      receive_keeps deliveries _ key (run_keeps fault db (key_of id) key (handle (published id)) h)

  -- An event whose delivery reports no error is in the inbox from then on.
  pub receive_all-acknowledged :
      (deliveries : List (ℕ × Option String)) (db : Database D)
      → All (λ id. Handled (key_of id) (receive_all deliveries db)) (acknowledged deliveries db)
  unfolding receive_all acknowledged
  receive_all-acknowledged [] db = tt
  receive_all-acknowledged ((id, fault) ∷ deliveries) db =
      let after = (deliver_one (id, fault) db).1 in
      elim (Result-cases (deliver_one (id, fault) db).0) [
        | inl (done, passed) ↦
            let handled = run-Handled fault db (key_of id) (handle (published id)) done passed in
            rw passed (
              receive_keeps deliveries after (key_of id) handled,
              receive_all-acknowledged deliveries after,
            )
        | inr (reason, failed) ↦ rw failed (receive_all-acknowledged deliveries after)
      ]

  module _ {X : Type 0} (act : E → X → X) (start : X) where
    -- What the events behind the keys of an inbox come to.
    unfoldable pub tally : List InboxKey → X
    tally [] = start
    tally (key ∷ keys) = act (published key.0) (tally keys)

    module _ (Counts : D → X → Type 0) where
      -- The inbox has each event once, and the tables count just those.
      pub record IsBooked (db : Database D) : Type 0 where
        pub distinct : IsDistinct db.inbox
        pub counted : Counts db.tables (tally db.inbox)

      module _
          (counts : (event : E) (tables after : D) (x : X)
            → Counts tables x
            → handle event tables ≡ ok after
            → Counts after (act event x)) where
        booked :
            (db : Database D) (id : ℕ) (tables : D)
            → contains db.inbox (key_of id) ≡ false
            → handle (published id) db.tables ≡ ok tables
            → IsBooked db
            → IsBooked (record { inbox = key_of id ∷ db.inbox; tables = tables })
        unfolding tally
        booked db id tables fresh done b = record {
          distinct = (fresh, b.distinct);
          counted = counts (published id) db.tables tables (tally db.inbox) b.counted done;
        }

        run-IsBooked :
            (delivery : ℕ × Option String) (db : Database D)
            → IsBooked db
            → IsBooked (deliver_one delivery db).1
        run-IsBooked (id, fault) db b =
            let handle' = handle (published id) in
            elim (Bool-cases (contains db.inbox (key_of id))) [
              | inl seen ↦ subst IsBooked (sym (run_twice fault db (key_of id) handle' seen)) b
              | inr fresh ↦ elim (run_once fault db (key_of id) handle' fresh) [
                | inl same ↦ subst IsBooked (sym same) b
                | inr (tables, done, same) ↦
                    subst IsBooked (sym same) (booked db id tables fresh done b)
              ]
            ]

        -- Deliveries keep the books, whatever order they come in and whatever fails.
        pub receive_all-IsBooked :
            (deliveries : List (ℕ × Option String)) (db : Database D)
            → IsBooked db
            → IsBooked (receive_all deliveries db)
        unfolding receive_all
        receive_all-IsBooked [] db b = b
        receive_all-IsBooked (delivery ∷ deliveries) db b =
            receive_all-IsBooked deliveries _ (run-IsBooked delivery db b)
