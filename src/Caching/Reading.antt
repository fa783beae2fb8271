-- ===== src/Caching/Reading.antt =====
-- What `try_get_or_add` of crates/shared-kernel/src/caching/facade.rs answers after a write, after
-- an invalidation and after itself.
use rust_api_modular_monolit.Base.{
  ℕ, ◌≡◌, refl, sym, ap, ◌∙◌, String, Bool, true, false, List, [], ◌∷◌, Option, none, some, arith,
  eq_nat, eq_string, beq_self, contains, inl, inr, Option-cases, if_true,
}
use rust_api_modular_monolit.Base.Map.{get, remove, get-insert, get-remove}
use rust_api_modular_monolit.Base.Result.{Result, ok, err}
use rust_api_modular_monolit.Caching.{
  CachedEntry, CacheFacade, CacheEntryOptions, store, invalidate, new_entry, register, write,
  write_steps, set, add_missing, try_get_or_add, invalidate_all, remove_by_tag, Reachable,
  new_facade,
}
use rust_api_modular_monolit.Caching.Freshness.{remove_by_tag-drops}
use rust_api_modular_monolit.Caching.Tracking.{invalidate_all-tags}

module _ {V : Type 0} where
  pub set-write :
      (jitter : ℕ → ℕ) (key : String) (value : V) (options : CacheEntryOptions) (s : CacheFacade V)
      → s.enabled ≡ true
      → set jitter key value options s ≡ write jitter key value options s
  unfolding set
  set-write jitter key value options s on = if_true on (write jitter key value options s) s

  invalidate_all-enabled :
      (keys : List (String × ℕ)) (s : CacheFacade V) → (invalidate_all keys s).enabled ≡ s.enabled
  unfolding invalidate_all invalidate
  invalidate_all-enabled [] s = refl
  invalidate_all-enabled ((key, g) ∷ keys) s = invalidate_all-enabled keys (invalidate key s)

  pub remove_by_tag-enabled :
      (tag : String) (s : CacheFacade V) → (remove_by_tag tag s).enabled ≡ s.enabled
  unfolding remove_by_tag
  remove_by_tag-enabled tag s = elim (Option-cases (get tag s.tags)) [
    | inl e ↦ rw (e, remove_by_tag) refl
    | inr (keys, e) ↦
        rw (e, remove_by_tag) (invalidate_all-enabled keys (record s { tags = remove tag s.tags }))
  ]

  -- An invalidation adds no entry.
  get-invalidate_all :
      (key : String) (entry : CachedEntry V) (keys : List (String × ℕ)) (s : CacheFacade V)
      → get key (invalidate_all keys s).entries ≡ some entry
      → get key s.entries ≡ some entry
  unfolding invalidate_all invalidate
  get-invalidate_all key entry [] s h = h
  get-invalidate_all key entry ((k, g) ∷ keys) s h =
      ground
        (arith, get-invalidate_all key entry keys (invalidate k s) h, get-remove k key s.entries)

  pub get-remove_by_tag :
      (key tag : String) (entry : CachedEntry V) (s : CacheFacade V)
      → get key (remove_by_tag tag s).entries ≡ some entry
      → get key s.entries ≡ some entry
  unfolding remove_by_tag
  get-remove_by_tag key tag entry s h = elim (Option-cases (get tag s.tags)) [
    | inl e ↦ rw (e, remove_by_tag) at h
    | inr (keys, e) ↦
        get-invalidate_all key entry keys (record s { tags = remove tag s.tags })
          (rw (e, remove_by_tag) at h)
  ]

module _ {V F : Type 0} where
  -- The answer to a reader where the cache is in use.
  abbrev pub answered : Option (CachedEntry V) → Result (Option V) F → Result (Option V) F
  answered none answer = answer
  answered (some entry) answer = ok (some entry.value)

  -- What a second reader is answered.
  abbrev pub second_answer : Result (Option V) F → Result (Option V) F → Result (Option V) F
  second_answer (ok (some value)) answer = ok (some value)
  second_answer (ok none) answer = answer
  second_answer (err failure) answer = answer

  add_missing-answer :
      (jitter : ℕ → ℕ) (key : String) (answer : Result (Option V) F) (options : CacheEntryOptions)
      (s : CacheFacade V)
      → (add_missing jitter key answer options s).0 ≡ answer
  unfolding add_missing
  add_missing-answer jitter key (ok (some value)) options s = refl
  add_missing-answer jitter key (ok none) options s = refl
  add_missing-answer jitter key (err failure) options s = refl

  pub try_get_or_add-answer :
      (jitter : ℕ → ℕ) (key : String) (answer : Result (Option V) F) (options : CacheEntryOptions)
      (s : CacheFacade V)
      → s.enabled ≡ true
      → (try_get_or_add jitter key answer options s).0 ≡ answered (get key s.entries) answer
  unfolding try_get_or_add
  try_get_or_add-answer jitter key answer options s on =
      ap (λ (r : Result (Option V) F × CacheFacade V). r.0) (if_true on _ (answer, s))
      ∙ (elim (Option-cases (get key s.entries)) [
        | inl miss ↦ rw miss (add_missing-answer jitter key answer options s)
        | inr (entry, hit) ↦ rw hit refl
      ])

  write-read :
      (jitter jitter' : ℕ → ℕ) (key : String) (value : V) (answer : Result (Option V) F)
      (options options' : CacheEntryOptions) (s : CacheFacade V)
      → s.enabled ≡ true
      → (try_get_or_add jitter' key answer options' (write jitter key value options s)).0
        ≡ ok (some value)
  unfolding write write_steps store register new_entry
  write-read jitter jitter' key value answer options options' s on =
      try_get_or_add-answer jitter' key answer options' (write jitter key value options s) on
      ∙ rw (get-insert key key (new_entry jitter s value options) s.entries, beq_self key) refl

  -- A value that was set is what the next reader is answered, whatever its factory would do; the
  -- cache is enabled.
  set-read :
      (jitter jitter' : ℕ → ℕ) (key : String) (value : V) (answer : Result (Option V) F)
      (options options' : CacheEntryOptions) (s : CacheFacade V)
      → s.enabled ≡ true
      → (try_get_or_add jitter' key answer options' (set jitter key value options s)).0
        ≡ ok (some value)
  set-read jitter jitter' key value answer options options' s on =
      rw (set-write jitter key value options s on)
        (write-read jitter jitter' key value answer options options' s on)

  pub try_get_or_add-hit :
      (jitter : ℕ → ℕ) (key : String) (entry : CachedEntry V) (answer : Result (Option V) F)
      (options : CacheEntryOptions) (s : CacheFacade V)
      → s.enabled ≡ true
      → get key s.entries ≡ some entry
      → try_get_or_add jitter key answer options s ≡ (ok (some entry.value), s)
  unfolding try_get_or_add
  try_get_or_add-hit jitter key entry answer options s on hit =
      if_true on _ (answer, s) ∙ rw hit refl

  pub try_get_or_add-miss :
      (jitter : ℕ → ℕ) (key : String) (answer : Result (Option V) F) (options : CacheEntryOptions)
      (s : CacheFacade V)
      → s.enabled ≡ true
      → get key s.entries ≡ none
      → try_get_or_add jitter key answer options s ≡ add_missing jitter key answer options s
  unfolding try_get_or_add
  try_get_or_add-miss jitter key answer options s on miss = if_true on _ (answer, s) ∙ rw miss refl

  add_missing_then :
      (jitter jitter' : ℕ → ℕ) (key : String) (first second : Result (Option V) F)
      (options options' : CacheEntryOptions) (s : CacheFacade V)
      → s.enabled ≡ true
      → get key s.entries ≡ none
      → (try_get_or_add jitter' key second options' (add_missing jitter key first options s).1).0
        ≡ second_answer first second
  unfolding add_missing
  add_missing_then jitter jitter' key (ok (some value)) second options options' s on miss =
      write-read jitter jitter' key value second options options' s on
  add_missing_then jitter jitter' key (ok none) second options options' s on miss =
      try_get_or_add-answer jitter' key second options' s on ∙ rw miss refl
  add_missing_then jitter jitter' key (err failure) second options options' s on miss =
      try_get_or_add-answer jitter' key second options' s on ∙ rw miss refl

  -- A second reader is answered what the first was, when that was a value; when it was a failure
  -- or nothing, none of that was stored and the second reader is answered by its own factory. The
  -- cache is enabled.
  read_twice :
      (jitter jitter' : ℕ → ℕ) (key : String) (first second : Result (Option V) F)
      (options options' : CacheEntryOptions) (s : CacheFacade V)
      → s.enabled ≡ true
      → (try_get_or_add jitter' key second options' (try_get_or_add jitter key first options s).1).0
        ≡ second_answer (try_get_or_add jitter key first options s).0 second
  read_twice jitter jitter' key first second options options' s on =
      elim (Option-cases (get key s.entries)) [
        | inl miss ↦ rw (try_get_or_add-miss jitter key first options s on miss) (
            rw (add_missing-answer jitter key first options s)
              (add_missing_then jitter jitter' key first second options options' s on miss))
        | inr (entry, hit) ↦
            rw (try_get_or_add-hit jitter key entry first options s on hit)
              (try_get_or_add-answer jitter' key second options' s on ∙ rw hit refl)
      ]

  -- The answer is fresh after an invalidation: where an entry carries the tag that a write
  -- invalidates, the next reader of its key is answered by its own factory. The cache is enabled
  -- and its writes do not overlap.
  pub remove_by_tag-read :
      (enabled : Bool) (ttl generation : ℕ) (jitter : ℕ → ℕ) (key tag : String)
      (entry : CachedEntry V) (answer : Result (Option V) F) (options : CacheEntryOptions)
      (s : CacheFacade V)
      → Reachable F (new_facade enabled ttl generation) s
      → s.enabled ≡ true
      → get key s.entries ≡ some entry
      → contains entry.tags tag ≡ true
      → (try_get_or_add jitter key answer options (remove_by_tag tag s)).0 ≡ answer
  remove_by_tag-read enabled ttl generation jitter key tag entry answer options s path on there
        carries =
      try_get_or_add-answer jitter key answer options (remove_by_tag tag s)
        (remove_by_tag-enabled tag s ∙ on)
      ∙ (elim (Option-cases (get key (remove_by_tag tag s).entries)) [
        | inl gone ↦ rw gone refl
        | inr (left, e) ↦
            let before = get-remove_by_tag key tag left s e in
            let free = remove_by_tag-drops enabled ttl generation s key tag left path e in
            let same : left ≡ entry = cc in
            let no : contains entry.tags tag ≡ false = rw (sym same) free in cc
      ])

module _ {V : Type 0} where
  pub remove_by_tag-untagged :
      (tag : String) (s : CacheFacade V) → get tag (remove_by_tag tag s).tags ≡ none
  unfolding remove_by_tag
  remove_by_tag-untagged tag s = elim (Option-cases (get tag s.tags)) [
    | inl e ↦ rw (e, remove_by_tag) e
    | inr (keys, e) ↦
        rw (e, remove_by_tag, invalidate_all-tags keys (record s { tags = remove tag s.tags }))
          (get-remove tag tag s.tags ∙ rw (beq_self tag) refl)
  ]

  pub untagged_stays :
      (tag : String) (s : CacheFacade V) → get tag s.tags ≡ none → remove_by_tag tag s ≡ s
  unfolding remove_by_tag
  untagged_stays tag s e = rw (e, remove_by_tag) refl
