-- ===== src/Configuration/Variables.antt =====
-- The layer of the environment variables of crates/shared-kernel/src/config.rs, and what reads it.
use rust_api_modular_monolit.Base.{
  ◌&&◌, ◌≡◌, refl, sym, ap, ◌∙◌, String, Bool, true, false, List, [], ◌∷◌, ◌++◌, Option, some, ◌==◌,
  eq_string, inl, inr, Bool-cases, if◌then◌else◌, map, All, beq_self, subst,
}
use rust_api_modular_monolit.Base.Result.{Result, ok, err, ◌>>=◌, ok-inj}
use rust_api_modular_monolit.Base.Text.{split_double-cons}
use rust_api_modular_monolit.Configuration.Environments.{Environment, exposes_operational_metadata}
use rust_api_modular_monolit.Configuration.Json.{
  Value, Fields, string, object, end, get_field, put_field, walk,
}
use rust_api_modular_monolit.Configuration.{fields_of, insert_at, merge_layer}
use rust_api_modular_monolit.Configuration.Loading.{
  insert_variables, path_of, environment_layer, segments_of, value_at, get_string, Sources,
  load_layers, read_json_layer, read_secrets, merge_optional,
}
use rust_api_modular_monolit.Configuration.Merging.{get_field-put_field}
use rust_api_modular_monolit.Configuration.Layers.{unambiguous, merge_layer-wins}
use rust_api_modular_monolit.Configuration.Arrays.{
  reach, reach-nil, reach-cases, numeric_maps_to_arrays-walk,
}

-- Neither path is a beginning of the other.
abbrev pub apart : List String → List String → Bool
apart (s ∷ p) (t ∷ q) = if s == t then apart p q else true
apart _ _ = false

reach-step :
    (s : String) (path : List String) (fs : Fields) (w : Value)
    → get_field s fs ≡ some w
    → reach (s ∷ path) (object fs) ≡ reach path w
unfolding reach
reach-step s path fs w h = rw (h, reach) refl

get_field-put_field_self :
    (s : String) (v : Value) (fs : Fields) → get_field s (put_field s v fs) ≡ some v
get_field-put_field_self s v fs = get_field-put_field s s v fs ∙ rw (beq_self s) refl

-- What is written at a path is read there.
insert_at_self :
    (s : String) (path : List String) (root : Fields) (v : Value)
    → reach (s ∷ path) (object (insert_at root (s ∷ path) v)) ≡ some v
unfolding insert_at
insert_at_self s [] root v = reach-step s [] _ v (get_field-put_field_self s v root) ∙ reach-nil v
insert_at_self s (t ∷ path) root v =
    reach-step s (t ∷ path) _ _ (get_field-put_field_self s _ root) ∙ insert_at_self t path _ v

insert_at-put_field :
    (s : String) (path : List String) (root : Fields) (v : Value)
    → (w : Value) × (insert_at root (s ∷ path) v ≡ put_field s w root)
unfolding insert_at
insert_at-put_field s [] root v = (v, refl)
insert_at-put_field s (t ∷ path) root v = (_, refl)

reach-fields_of :
    (s : String) (other : List String) (o : Option Value) (w u : Value)
    → o ≡ some w
    → reach (s ∷ other) w ≡ some u
    → reach (s ∷ other) (object (fields_of o)) ≡ some u
unfolding reach
reach-fields_of s other o (object fs) u e h = rw e h
reach-fields_of s other o _ u e h = cc

insert_at-nested :
    (s t : String) (path : List String) (root : Fields) (v : Value)
    → insert_at root (s ∷ t ∷ path) v
      ≡ put_field s (object (insert_at (fields_of (get_field s root)) (t ∷ path) v)) root
unfolding insert_at
insert_at-nested s t path root v = refl

insert_at-differs :
    (s t : String) (path other : List String) (root : Fields) (v u : Value)
    → (s == t) ≡ false
    → reach (t ∷ other) (object root) ≡ some u
    → reach (t ∷ other) (object (insert_at root (s ∷ path) v)) ≡ some u
insert_at-differs s t path other root v u e r =
    let (w, put) = insert_at-put_field s path root v in
    let (x, read, rest) = reach-cases t other root u r in
    let kept : get_field t (put_field s w root) ≡ some x =
      get_field-put_field t s w root ∙ rw e read in
    ap (λ fs. reach (t ∷ other) (object fs)) put ∙ reach-step t other _ x kept ∙ rest

-- What stands at a path that is apart from it stays.
insert_at-apart :
    (path other : List String) (root : Fields) (v u : Value)
    → apart path other ≡ true
    → reach other (object root) ≡ some u
    → reach other (object (insert_at root path v)) ≡ some u
insert_at-apart [] other root v u a r = cc
insert_at-apart (s ∷ path) [] root v u a r = cc
insert_at-apart (s ∷ []) (t ∷ other) root v u a r = elim (Bool-cases (s == t)) [
  | inl e ↦ let no : false ≡ true = rw e at a in cc
  | inr e ↦ insert_at-differs s t [] other root v u e r
]
insert_at-apart (s ∷ s' ∷ path) (t ∷ []) root v u a r = elim (Bool-cases (s == t)) [
  | inl e ↦ let no : false ≡ true = rw e at a in cc
  | inr e ↦ insert_at-differs s t (s' ∷ path) [] root v u e r
]
insert_at-apart (s ∷ s' ∷ path) (t ∷ t' ∷ other) root v u a r = elim (Bool-cases (s == t)) [
  | inr e ↦ insert_at-differs s t (s' ∷ path) (t' ∷ other) root v u e r
  | inl e ↦
      let name : t ≡ s = sym ((eq_string.equals_iff s t).0 e) in
      let (w, read, rest) = reach-cases t (t' ∷ other) root u r in
      let child = fields_of (get_field s root) in
      let inner : reach (t' ∷ other) (object child) ≡ some u =
        reach-fields_of t' other (get_field s root) w u
          (ap (λ n. get_field n root) (sym name) ∙ read) rest in
      let written = object (insert_at child (s' ∷ path) v) in
      let found : get_field t (put_field s written root) ≡ some written =
        get_field-put_field t s written root ∙ rw e refl in
      ap (λ fs. reach (t ∷ t' ∷ other) (object fs)) (insert_at-nested s s' path root v)
      ∙ reach-step t (t' ∷ other) _ written found
      ∙ insert_at-apart (s' ∷ path) (t' ∷ other) child v u (rw e at a) inner
]

-- Three files that are read, and a layer over what they come to.
last-merged :
    {A E : Type 0} (first second third : Result A E) (lay : A → A → A → Value)
    (layer config : Value)
    → (first >>= λ a. second >>= λ b. third >>= λ c. ok (merge_layer (lay a b c) layer)) ≡ ok config
    → (files : Value) × (config ≡ merge_layer files layer)
last-merged (err e) second third lay layer config h = cc
last-merged (ok a) (err e) third lay layer config h = cc
last-merged (ok a) (ok b) (err e) lay layer config h = cc
last-merged (ok a) (ok b) (ok c) lay layer config h = (lay a b c, sym (ok-inj h))

module _ (to_lowercase : String → String) where
  -- A later variable leaves a variable alone where neither's path begins with the other's.
  abbrev pub Spares : List String → String × String → Type 0
  Spares path variable = apart (path_of to_lowercase variable.0) path ≡ true

  insert_variables-kept :
      (variables : List (String × String)) (path : List String) (root : Fields) (u : Value)
      → All (Spares path) variables
      → reach path (object root) ≡ some u
      → reach path (object (insert_variables to_lowercase root variables)) ≡ some u
  unfolding insert_variables
  insert_variables-kept [] path root u a r = r
  insert_variables-kept ((name, value) ∷ variables) path root u a r =
      insert_variables-kept variables path _ u a.1
        (insert_at-apart (path_of to_lowercase name) path root (string value) u a.0 r)

  insert_at-path_of :
      (name : String) (root : Fields) (v : Value)
      → reach (path_of to_lowercase name) (object (insert_at root (path_of to_lowercase name) v))
        ≡ some v
  insert_at-path_of name root v =
      let (h, t, e) = split_double-cons 95 name in
      let path : path_of to_lowercase name ≡ to_lowercase h ∷ map to_lowercase t =
        ap (map to_lowercase) e in
      subst (λ p. reach p (object (insert_at root p v)) ≡ some v) (sym path)
        (insert_at_self (to_lowercase h) (map to_lowercase t) root v)

  insert_variables-reads :
      (before : List (String × String)) (name value : String) (after : List (String × String))
      (root : Fields)
      → All (Spares (path_of to_lowercase name)) after
      → reach
          (path_of to_lowercase name)
          (object (insert_variables to_lowercase root (before ++ (name, value) ∷ after)))
        ≡ some (string value)
  unfolding insert_variables
  insert_variables-reads [] name value after root a =
      insert_variables-kept after _ _ (string value) a (insert_at-path_of name root (string value))
  insert_variables-reads ((n, v) ∷ before) name value after root a =
      insert_variables-reads before name value after _ a

  -- The layer of the variables has each variable at the path of its name, unless a later one's path
  -- begins it or begins with it.
  environment_layer-reads :
      (before : List (String × String)) (name value : String) (after : List (String × String))
      → All (Spares (path_of to_lowercase name)) after
      → walk
          (path_of to_lowercase name)
          (environment_layer to_lowercase (before ++ (name, value) ∷ after))
        ≡ some (string value)
  unfolding environment_layer
  environment_layer-reads before name value after a =
      numeric_maps_to_arrays-walk _ _ (string value) refl
        (insert_variables-reads before name value after end a)

  value-get_string :
      (config : Value) (key text : String)
      → walk (segments_of to_lowercase key) config ≡ some (string text)
      → get_string to_lowercase config key ≡ some text
  unfolding get_string value_at
  value-get_string config key text h = rw (h, get_string) refl

  module _ (parse_json : String → Option Value) where
    load_layers-last :
        (sources : Sources) (environment : Environment) (secrets : Bool) (config : Value)
        → load_layers to_lowercase parse_json sources environment secrets ≡ ok config
        → (files : Value) × (config
            ≡ merge_layer files (environment_layer to_lowercase sources.variables))
    unfolding load_layers
    load_layers-last sources environment secrets config h =
        last-merged (read_json_layer to_lowercase parse_json sources.settings)
          (read_json_layer to_lowercase parse_json sources.environment_settings)
          (read_secrets to_lowercase parse_json
            (secrets && exposes_operational_metadata environment) sources.user_secrets_path)
          (λ settings own hidden.
            merge_optional to_lowercase parse_json
              (merge_optional to_lowercase parse_json
                (merge_optional to_lowercase parse_json (object end) settings) own)
              hidden)
          (environment_layer to_lowercase sources.variables) config h

    -- A variable of the process is what the configuration reads under its key, whatever the files and
    -- the user secrets say: where `load_layers` succeeds, the key's path is that of the variable's
    -- name, no later variable's path begins it or begins with it, and it is unambiguous among the
    -- variables.
    pub load_layers-variable :
        (sources : Sources) (environment : Environment) (secrets : Bool) (config : Value)
        (before : List (String × String)) (name value : String) (after : List (String × String))
        (key : String)
        → load_layers to_lowercase parse_json sources environment secrets ≡ ok config
        → sources.variables ≡ before ++ (name, value) ∷ after
        → All (Spares (path_of to_lowercase name)) after
        → unambiguous (path_of to_lowercase name) (environment_layer to_lowercase sources.variables)
          ≡ true
        → segments_of to_lowercase key ≡ path_of to_lowercase name
        → get_string to_lowercase config key ≡ some value
    load_layers-variable sources environment secrets config before name value after key loaded vs a
          u k =
        let (files, last) = load_layers-last sources environment secrets config loaded in
        let layer = environment_layer to_lowercase sources.variables in
        let read : walk (path_of to_lowercase name) layer ≡ some (string value) =
          ap
            (λ variables.
              walk (path_of to_lowercase name) (environment_layer to_lowercase variables))
            vs
          ∙ environment_layer-reads before name value after a in
        value-get_string config key value (
          ap (λ path. walk path config) k
          ∙ ap (walk (path_of to_lowercase name)) last
          ∙ merge_layer-wins _ files layer (string value) read refl u)
