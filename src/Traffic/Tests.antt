-- ===== src/Traffic/Tests.antt =====
-- The limiter on concrete schedules: its theorems at inputs that meet their hypotheses, and runs.
use rust_api_modular_monolit.Base.{◌+◌, ◌≤◌, ◌≡◌, refl, List, [], ◌∷◌, some, arith, eq_string}
use rust_api_modular_monolit.Base.Map.{get, remove, insert, retain}
use rust_api_modular_monolit.Traffic.{
  RateLimitOptions, RateLimiter, Window, Call, new, queued, admitted, wait, refused, admit, run,
  decide, reopen, sweep_if_due, sweep_closed_windows_as_of, is_kept, IsValid,
}
use rust_api_modular_monolit.Traffic.Solo.{solo}
use rust_api_modular_monolit.Traffic.Isolation.{calls_on, answers_on, run-solo}
use rust_api_modular_monolit.Traffic.Budget.{count_admitted, run-budget}
use rust_api_modular_monolit.Traffic.Queueing.{
  AllServed, AllRefused, run-waiters_first, run-abandoned,
}

abbrev two_a_window : RateLimitOptions
two_a_window = record { permit_limit = 2; window = 10; queue_limit = 2 }

abbrev entry : Window
entry = record { started = 0; used = 1; queued = 0 }

abbrev limiter : RateLimiter
limiter = record {
  name = "catalog:api";
  options = two_a_window;
  windows = ("ip:a", entry) ∷ [];
  last_sweep = some 0;
}

abbrev strict : RateLimiter
strict = record limiter { options = record { permit_limit = 2; window = 10; queue_limit = 0 } }

-- Three arrivals of one address with another's between them.
abbrev burst : List Call
burst =
    record { partition = "ip:a"; now = 1; arrival = new }
    ∷ record { partition = "ip:b"; now = 2; arrival = new }
    ∷ record { partition = "ip:a"; now = 3; arrival = new }
    ∷ record { partition = "ip:a"; now = 4; arrival = new }
    ∷ []

-- Two requests wait; they wake behind two newcomers of the next window.
abbrev waiting : RateLimiter
waiting = record limiter { windows = ("ip:a", record { started = 0; used = 2; queued = 2 }) ∷ [] }

abbrev rush : List Call
rush =
    record { partition = "ip:a"; now = 10; arrival = new }
    ∷ record { partition = "ip:a"; now = 10; arrival = queued }
    ∷ record { partition = "ip:a"; now = 11; arrival = new }
    ∷ record { partition = "ip:a"; now = 12; arrival = queued }
    ∷ []

abbrev later : List Call
later =
    record { partition = "ip:a"; now = 500; arrival = new }
    ∷ record { partition = "ip:b"; now = 600; arrival = new }
    ∷ record { partition = "ip:a"; now = 90_000; arrival = new }
    ∷ []

limiter-IsValid : IsValid limiter
unfolding get
limiter-IsValid = record { fits = omega arith; distinct = (refl, tt); bounded = omega arith }

strict-IsValid : IsValid strict
unfolding get
strict-IsValid = record { fits = omega arith; distinct = (refl, tt); bounded = omega arith }

waiting-IsValid : IsValid waiting
unfolding get
waiting-IsValid = record { fits = omega arith; distinct = (refl, tt); bounded = omega arith }

burst_answers : run limiter burst ≡ admitted ∷ admitted ∷ wait 10 ∷ wait 10 ∷ []
unfolding run admit decide reopen sweep_if_due get insert remove
burst_answers = refl

rush_answers : run waiting rush ≡ refused ∷ admitted ∷ wait 20 ∷ admitted ∷ []
unfolding run admit decide reopen sweep_if_due sweep_closed_windows_as_of is_kept get insert remove
    retain
rush_answers = refl

run-solo_example :
    answers_on "ip:a" burst (run limiter burst)
    ≡ solo two_a_window (get "ip:a" limiter.windows) (calls_on "ip:a" burst)
run-solo_example = run-solo limiter "ip:a" 0 burst limiter-IsValid.distinct (omega arith)

run-budget_example : 1 + count_admitted (answers_on "ip:a" burst (run limiter burst)) ≤ 2
unfolding get
run-budget_example =
    run-budget limiter "ip:a" 0 entry burst limiter-IsValid refl (omega arith) (omega arith)

run-waiters_first_example :
    AllServed (calls_on "ip:a" rush) (answers_on "ip:a" rush (run waiting rush))
unfolding get
run-waiters_first_example =
    run-waiters_first waiting "ip:a" 0 10 (record { started = 0; used = 2; queued = 2 }) rush new
      ((10, queued) ∷ (11, new) ∷ (12, queued) ∷ []) waiting-IsValid refl (omega arith) refl
      (omega arith) (omega arith) (omega arith) (omega arith) (omega arith)

run-abandoned_example : AllRefused (answers_on "ip:a" later (run waiting later))
unfolding get
run-abandoned_example =
    run-abandoned waiting "ip:a" 0 (record { started = 0; used = 2; queued = 2 }) later
      waiting-IsValid refl (omega arith) (omega arith) (omega arith) (refl, (refl, tt))
