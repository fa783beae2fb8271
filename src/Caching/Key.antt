-- ===== src/Caching/Key.antt =====
-- crates/shared-kernel/src/caching/key.rs: composed keys and their rendering. `to_lowercase`, which
-- is Unicode's, is a parameter.
use Prim.Native.Char.{Char, code}
use Prim.Native.String.{[] as nil, ◌∷◌ as cons, ◌++◌ as append}
use Prim.Native.String.append as pieces
use rust_api_modular_monolit.Base.{
  ◌≡◌, refl, sym, ap, ◌∙◌, String, Bool, true, not, ◌&&◌, List, [], ◌∷◌, Option, none, arith,
  nat_eq, get_or, All, length, map_option,
}

-- `CacheKey`
pub record CacheKey : Type 0 where
  pub environment : String
  pub app : String
  pub module_name : String
  pub entity : String
  pub version : String
  pub tenant : Option String
  pub locale : Option String
  pub feature : Option String
  pub discriminator : String

-- The eight segments before the discriminator.
abbrev pub segments : CacheKey → List String
segments k =
    k.environment
    ∷ k.app
    ∷ k.module_name
    ∷ k.entity
    ∷ k.version
    ∷ get_or "" k.tenant
    ∷ get_or "" k.locale
    ∷ get_or "" k.feature
    ∷ []

unfoldable pub join_colons : List String → String → String
join_colons [] last = last
join_colons (s ∷ segments) last = append s (append ":" (join_colons segments last))

-- `fmt`
pub render : CacheKey → String
unfolding join_colons
render k = join_colons (segments k) k.discriminator

-- No character of the text is a colon.
unfoldable pub is_plain : String → Bool
is_plain nil = true
is_plain (cons c s) = not (nat_eq (code c) 58) && is_plain s

abbrev colon : Char
colon = ":"

-- A text that begins with a plain one and a colon.
abbrev first : String → String → String
first s rest = append s (append ":" rest)

first-nil : (rest : String) → first nil rest ≡ cons colon rest
first-nil rest =
    pieces.nil (append ":" rest) ∙ pieces.cons colon nil rest ∙ ap (cons colon) (pieces.nil rest)

first-cons : (c : Char) (s rest : String) → first (cons c s) rest ≡ cons c (first s rest)
first-cons c s rest = pieces.cons c s (append ":" rest)

split_at_colon :
    (s t a b : String)
    → is_plain s ≡ true
    → is_plain t ≡ true
    → first s a ≡ first t b
    → (s ≡ t) × (a ≡ b)
unfolding is_plain
split_at_colon nil nil a b p q h =
    let e : cons colon a ≡ cons colon b = rw (first-nil a, first-nil b) at h in (refl, cc)
split_at_colon nil (cons c t) a b p q h =
    let e : cons colon a ≡ cons c (first t b) = rw (first-nil a, first-cons c t b) at h in
    let hit : colon ≡ c = cc in absurd (ground (arith, rw (sym hit) at q))
split_at_colon (cons c s) nil a b p q h =
    let e : cons c (first s a) ≡ cons colon b = rw (first-nil b, first-cons c s a) at h in
    let hit : c ≡ colon = cc in absurd (ground (arith, rw hit at p))
split_at_colon (cons c s) (cons d t) a b p q h =
    let e : cons c (first s a) ≡ cons d (first t b) =
      rw (first-cons c s a, first-cons d t b) at h in
    let rest = split_at_colon s t a b (ground arith) (ground arith) cc in
    let same : c ≡ d = cc in (cc (rest.0, same), rest.1)

IsPlain : String → Type 0
IsPlain s = is_plain s ≡ true

-- The segments are told apart as far as none holds a colon.
join_colons-injective :
    (xs ys : List String) (a b : String)
    → length xs ≡ length ys
    → All IsPlain xs
    → All IsPlain ys
    → join_colons xs a ≡ join_colons ys b
    → (xs ≡ ys) × (a ≡ b)
unfolding join_colons IsPlain
join_colons-injective [] [] a b n p q h = (refl, h)
join_colons-injective [] (y ∷ ys) a b n p q h = absurd (omega arith)
join_colons-injective (x ∷ xs) [] a b n p q h = absurd (omega arith)
join_colons-injective (x ∷ xs) (y ∷ ys) a b n p q h =
    let first_split = split_at_colon x y (join_colons xs a) (join_colons ys b) p.0 q.0 h in
    let rest = join_colons-injective xs ys a b (omega arith) p.1 q.1 first_split.1 in
    (cc (first_split.0, rest.0), rest.1)

-- Two keys that are rendered alike have the same discriminator and the same eight segments before
-- it, an absent partition counting as the empty one; no segment before the discriminator holds a
-- colon.
pub render-injective :
    (j k : CacheKey)
    → All (λ s. is_plain s ≡ true) (segments j)
    → All (λ s. is_plain s ≡ true) (segments k)
    → render j ≡ render k
    → (segments j ≡ segments k) × (j.discriminator ≡ k.discriminator)
unfolding render IsPlain
render-injective j k p q h =
    join_colons-injective (segments j) (segments k) j.discriminator k.discriminator refl p q h

-- `CachePartitions`
pub record CachePartitions : Type 0 where
  pub tenant : Option String
  pub locale : Option String
  pub feature : Option String

-- `CacheKeyComposer`
pub record CacheKeyComposer : Type 0 where
  pub app : String
  pub environment : String

module _ (to_lowercase : String → String) where
  -- `compose_partitioned`
  unfoldable pub compose_partitioned :
      CacheKeyComposer → String → String → String → String → CachePartitions → CacheKey
  compose_partitioned c module_name entity version discriminator partitions = record {
    environment = c.environment;
    app = c.app;
    module_name = to_lowercase module_name;
    entity = to_lowercase entity;
    version = to_lowercase version;
    tenant = map_option to_lowercase partitions.tenant;
    locale = map_option to_lowercase partitions.locale;
    feature = map_option to_lowercase partitions.feature;
    discriminator = discriminator;
  }

  -- `compose`
  unfoldable pub compose : CacheKeyComposer → String → String → String → String → CacheKey
  unfolding compose_partitioned
  compose c module_name entity version discriminator =
      compose_partitioned c module_name entity version discriminator
        (record { tenant = none; locale = none; feature = none })
