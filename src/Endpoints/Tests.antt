-- ===== src/Endpoints/Tests.antt =====
-- A route with a constraint, a limiter that counts, and one without.
use rust_api_modular_monolit.Base.{
  ℕ, suc, ◌≡◌, refl, String, true, List, [], ◌∷◌, Option, none, some, if◌then◌else◌, leb,
}
use rust_api_modular_monolit.Base.Text.{split_on, join, format, parse_digits}
use rust_api_modular_monolit.Endpoints.{
  int, parse_route, parse_segments, inner_of, strip_suffix, split_once, Pending, RouteGroup,
  route_of, apply_reversed, reverse_onto, enforce_constraints, is_i32,
}
use rust_api_modular_monolit.Endpoints.Layers.{served, route_of-served}

album_route : parse_route "/albums/{id:int}" ≡ ("/albums/{id}", ("id", int) ∷ [])
unfolding parse_route parse_segments inner_of strip_suffix split_once split_on join format
album_route = refl

-- The state counts the requests that the limiter and the handler have seen.
abbrev limiter : String → ℕ × ℕ → Option ℕ × (ℕ × ℕ)
limiter q (seen, handled) = ((if leb 2 seen then some 429 else none), (suc seen, handled))

abbrev album : Pending (ℕ × ℕ) String ℕ
album = record {
  path = "/albums/{id:int}";
  router = λ q s. (200, (s.0, suc s.1));
  conventions = record {
    policies = "catalog.read" ∷ [];
    requires_authorization = true;
    filters = [];
  };
}

abbrev group : RouteGroup (ℕ × ℕ) String ℕ
group = record { rate_limiter = some limiter; filters = [] }

abbrev id_of : String → Option (List (String × String))
id_of q = some (("id", q) ∷ [])

abbrev nobody : List String → String → Option ℕ
nobody policies q = some 401

abbrev everybody : List String → String → Option ℕ
everybody policies q = none

not_counted : route_of (λ s. true) everybody id_of 404 group album "abc" (0, 0) ≡ (404, (0, 0))
unfolding route_of apply_reversed reverse_onto enforce_constraints is_i32 parse_route parse_segments
    inner_of strip_suffix split_once split_on join format parse_digits
not_counted = refl

counted_and_refused : route_of (λ s. true) nobody id_of 404 group album "12" (0, 0) ≡ (401, (1, 0))
unfolding route_of apply_reversed reverse_onto enforce_constraints is_i32 parse_route parse_segments
    inner_of strip_suffix split_once split_on join format parse_digits
counted_and_refused = refl

route_of-served_example :
    route_of (λ s. true) everybody id_of 404 group album "12" (0, 0)
    ≡ served (λ s. true) id_of 404 everybody group album "12" (0, 0)
route_of-served_example = route_of-served (λ s. true) id_of 404 everybody group album "12" (0, 0)
