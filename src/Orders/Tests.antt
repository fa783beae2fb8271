-- ===== src/Orders/Tests.antt =====
-- Runs of `finalize_invoice` on one invoice.
use rust_api_modular_monolit.Base.{
  ℕ, ◌≤◌, String, true, List, [], ◌∷◌, Option, none, some, eq_nat, leb,
}
use rust_api_modular_monolit.Base.Result.{ok}
use rust_api_modular_monolit.Caching.{new_facade}
use rust_api_modular_monolit.Orders.{
  Invoice, InvoiceLine, State, Call, Numbers, finalize_invoice, finalize_all,
}
use rust_api_modular_monolit.Orders.Answering.{IsAnswered, finalize_invoice-IsAnswered}
use rust_api_modular_monolit.Orders.Once.{times_finalized, finalize_all-once}

abbrev numbers : Numbers ℕ ℕ
numbers = record {
  equal = eq_nat;
  at_most = leb;
  print = λ id. "1";
  zero = 0;
  zero_decimal = 0;
  serialize = λ event. ok "{}";
  to_lowercase = λ text. text;
  keys = record { app = "api"; environment = "prod" };
}

abbrev draft : Invoice ℕ ℕ
draft = record {
  id = 1;
  customer_id = some 2;
  invoice_date = 5;
  billing_address = none;
  billing_city = none;
  billing_state = none;
  billing_country = none;
  billing_postal_code = none;
  total = 198;
  status = "Draft";
}

abbrev line : InvoiceLine ℕ ℕ
line = record {
  id = 1;
  invoice_id = some 1;
  track_id = some 3;
  unit_price = some 99;
  quantity = none;
}

abbrev start : State ℕ ℕ ℕ
start = record {
  database = record { invoices = draft ∷ []; lines = line ∷ []; outbox = [] };
  cache = new_facade true 300 1;
}

abbrev call : ℕ → Option String → Call
call event_id fault = record { event_id = event_id; now = 10; published = 11; fault = fault }

finalize_invoice-IsAnswered_example :
    IsAnswered numbers (call 7 none) 1 start (finalize_invoice numbers (call 7 none) 1 start)
finalize_invoice-IsAnswered_example = finalize_invoice-IsAnswered numbers (call 7 none) 1 start

abbrev calls : List (Call × ℕ)
calls = (call 7 (some "down"), 1) ∷ (call 8 none, 1) ∷ (call 9 none, 1) ∷ (call 10 none, 2) ∷ []

finalize_all-once_example : times_finalized numbers 1 (finalize_all numbers calls start).0 ≤ 1
finalize_all-once_example = finalize_all-once numbers 1 calls start
