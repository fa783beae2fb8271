-- ===== src/Endpoints/Routes.antt =====
-- crates/shared-kernel/src/endpoints.rs: what `parse_route` makes of a route.
use Prim.Native.Char.{Char, code}
use Prim.Native.String.append
use Prim.Native.String.{[] as nil, ◌∷◌ as cons, ◌++◌ as after}
use text.Mathlib.TextEquality.{Char-path}
use rust_api_modular_monolit.Base.{
  ℕ, ◌≡◌, refl, ap, sym, ◌∙◌, inl, inr, String, List, [], ◌∷◌, none, nat_eq, nat_eq_iff, Bool-cases,
  All,
}
use rust_api_modular_monolit.Base.Text.{split_on, push_first, join}
use rust_api_modular_monolit.Endpoints.{
  inner_of, split_once, constrained, parse_segments, parse_route,
}

split_on-cons :
    (mark : ℕ) (s : String) → (h : String) × (t : List String) × (split_on mark s ≡ h ∷ t)
unfolding split_on
split_on-cons mark nil = (nil, [], refl)
split_on-cons mark (cons c s) =
    let (h, t, e) = split_on-cons mark s in
    elim (Bool-cases (nat_eq (code c) mark)) [
      | inl here ↦ (nil, split_on mark s, rw here refl)
      | inr other ↦ (cons c h, t, rw (other, e) refl)
    ]

join-push_first :
    (c : Char) (separator h : String) (t : List String)
    → join separator (push_first c (h ∷ t)) ≡ cons c (join separator (h ∷ t))
unfolding join
join-push_first c separator h [] = refl
join-push_first c separator h (piece ∷ pieces) = append.cons c h _

join-empty :
    (separator h : String) (t : List String)
    → join separator (nil ∷ h ∷ t) ≡ after separator (join separator (h ∷ t))
unfolding join
join-empty separator h t = append.nil _

join-split_on : (s : String) → join "/" (split_on 47 s) ≡ s
unfolding split_on join
join-split_on nil = refl
join-split_on (cons c s) =
    let (h, t, e) = split_on-cons 47 s in
    elim (Bool-cases (nat_eq (code c) 47)) [
      | inl here ↦
          let bar : Char = "/" in
          let slash : bar ≡ c = sym (Char-path c bar ((nat_eq_iff (code c) 47).0 here)) in
          rw here (
            ap (λ r. join "/" (nil ∷ r)) e
            ∙ join-empty "/" h t
            ∙ ap (λ r. after "/" (join "/" r)) (sym e)
            ∙ ap (after "/") (join-split_on s)
            ∙ append.cons bar nil s
            ∙ ap (cons bar) (append.nil s)
            ∙ ap (λ d. cons d s) slash)
      | inr other ↦ rw other (
          ap (λ r. join "/" (push_first c r)) e
          ∙ join-push_first c "/" h t
          ∙ ap (λ r. cons c (join "/" r)) (sym e)
          ∙ ap (cons c) (join-split_on s))
    ]

-- A segment without a constraint.
abbrev pub IsPlain : String → Type 0
unfolding inner_of split_once
IsPlain segment = constrained (inner_of segment) ≡ none

parse_segments-plain :
    (segments : List String) → All IsPlain segments → parse_segments segments ≡ (segments, [])
unfolding parse_segments
parse_segments-plain [] h = refl
parse_segments-plain (segment ∷ segments) h = rw (h.0, parse_segments-plain segments h.1) refl

-- A route none of whose segments has a constraint is given to axum as it is written, and is not
-- guarded.
parse_route-plain :
    (route : String) → All IsPlain (split_on 47 route) → parse_route route ≡ (route, [])
unfolding parse_route
parse_route-plain route h =
    rw (parse_segments-plain (split_on 47 route) h) (ap (λ path. (path, [])) (join-split_on route))
