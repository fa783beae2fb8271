-- ===== src/Configuration/Environments.antt =====
-- crates/shared-kernel/src/environment.rs. The variable of the process is an argument.
use Prim.Native.Char.{code}
use Prim.Native.String.{[] as nil, ◌∷◌ as cons}
use rust_api_modular_monolit.Base.{
  ℕ, ◌+◌, String, Bool, true, false, not, ◌&&◌, ◌||◌, Option, none, some, if◌then◌else◌, leb,
  nat_eq, filter_some,
}
use rust_api_modular_monolit.Base.Text.{trim, is_empty}

pub data Environment : Type 0 where
  development demo production : Environment
  other : String → Environment

-- The number of a character, a capital letter's as its small one's.
abbrev pub lower_code : ℕ → ℕ
lower_code c = if leb 65 c && leb c 90 then c + 32 else c

-- `eq_ignore_ascii_case`
unfoldable pub eq_ignore_ascii_case : String → String → Bool
eq_ignore_ascii_case nil nil = true
eq_ignore_ascii_case nil (cons d t) = false
eq_ignore_ascii_case (cons c s) nil = false
eq_ignore_ascii_case (cons c s) (cons d t) =
    nat_eq (lower_code (code c)) (lower_code (code d)) && eq_ignore_ascii_case s t

abbrev named : String → Environment
named trimmed =
    if eq_ignore_ascii_case trimmed "Development"
    then development
    else if eq_ignore_ascii_case trimmed "Demo"
    then demo
    else if eq_ignore_ascii_case trimmed "Production"
    then production
    else other trimmed

unfoldable pub from_name : String → Environment
unfolding eq_ignore_ascii_case trim
from_name name = named (trim name)

-- The variable, where it is set and not blank.
abbrev from_variable : Option String → Environment
from_variable none = production
from_variable (some text) = from_name text

unfoldable pub from_process : Option String → Environment
unfolding from_name trim
from_process variable = from_variable (filter_some (λ name. not (is_empty (trim name))) variable)

abbrev pub name_of : Environment → String
name_of development = "Development"
name_of demo = "Demo"
name_of production = "Production"
name_of (other name) = name

abbrev pub is_development : Environment → Bool
is_development development = true
is_development _ = false

unfoldable pub is_test : Environment → Bool
unfolding eq_ignore_ascii_case
is_test environment = eq_ignore_ascii_case (name_of environment) "Test"

abbrev pub is_demo : Environment → Bool
is_demo demo = true
is_demo _ = false

unfoldable pub migrates_on_startup : Environment → Bool
unfolding is_test
migrates_on_startup environment =
    is_development environment || is_test environment || is_demo environment

unfoldable pub validates_endpoints : Environment → Bool
unfolding is_test
validates_endpoints environment = is_development environment || is_test environment

abbrev pub exposes_operational_metadata : Environment → Bool
exposes_operational_metadata environment = is_development environment || is_demo environment
