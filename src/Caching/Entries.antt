-- ===== src/Caching/Entries.antt =====
-- Which entries of the cache of crates/shared-kernel/src/caching/facade.rs come from where.
use rust_api_modular_monolit.Base.{
  ℕ, ◌≡◌, refl, sym, ap, ◌∙◌, String, false, Option, none, some, ◌==◌, eq_string, arith, inl, inr,
  ◌⊎◌, Bool-cases, Option-cases, if_true, if_false,
}
use rust_api_modular_monolit.Base.Map.{get, get-insert, get-remove}
use rust_api_modular_monolit.Base.Result.{Result, ok, err}
use rust_api_modular_monolit.Caching.{
  CachedEntry, CacheFacade, CacheEntryOptions, store, invalidate, set, write, write_steps,
  add_missing, try_get_or_add, register, new_entry,
}
use rust_api_modular_monolit.Caching.Reading.{try_get_or_add-hit, try_get_or_add-miss}

module _ {V : Type 0} where
  write-entries :
      (jitter : ℕ → ℕ) (key j : String) (value : V) (options : CacheEntryOptions)
      (s : CacheFacade V) (e : CachedEntry V)
      → get j (write jitter key value options s).entries ≡ some e
      → (get j s.entries ≡ some e) ⊎ ((key ≡ j) × (e.tags ≡ options.tags) × (e.value ≡ value))
  unfolding write write_steps store register new_entry
  write-entries jitter key j value options s e h = elim (Bool-cases (key == j)) [
    | inl hit ↦
        let put : some (new_entry jitter s value options) ≡ some e =
          sym (get-insert key j (new_entry jitter s value options) s.entries ∙ rw hit refl) ∙ h in
        let same : new_entry jitter s value options ≡ e = cc in
        inr (
          (eq_string.equals_iff key j).0 hit,
          ap (λ x. x.tags) (sym same),
          ap (λ x. x.value) (sym same),
        )
    | inr miss ↦
        inl (sym (get-insert key j (new_entry jitter s value options) s.entries ∙ rw miss refl) ∙ h)
  ]

module _ {V F : Type 0} where
  add_missing-entries :
      (jitter : ℕ → ℕ) (key j : String) (answer : Result (Option V) F) (options : CacheEntryOptions)
      (s : CacheFacade V) (e : CachedEntry V)
      → get j (add_missing jitter key answer options s).1.entries ≡ some e
      → (get j s.entries ≡ some e)
        ⊎ ((key ≡ j) × (e.tags ≡ options.tags) × (answer ≡ ok (some e.value)))
  unfolding add_missing
  add_missing-entries jitter key j (ok (some value)) options s e h =
      elim (write-entries jitter key j value options s e h) [
        | inl old ↦ inl old
        | inr (k, t, v) ↦ inr (k, t, ap (λ x. ok (some x)) (sym v))
      ]
  add_missing-entries jitter key j (ok none) options s e h = inl h
  add_missing-entries jitter key j (err failure) options s e h = inl h

  pub try_get_or_add-off :
      (jitter : ℕ → ℕ) (key : String) (answer : Result (Option V) F) (options : CacheEntryOptions)
      (s : CacheFacade V)
      → s.enabled ≡ false
      → try_get_or_add jitter key answer options s ≡ (answer, s)
  unfolding try_get_or_add
  try_get_or_add-off jitter key answer options s off = if_false off _ (answer, s)

  -- After a read an entry is an old one, or that of the answer under its key.
  pub try_get_or_add-entries :
      (jitter : ℕ → ℕ) (key j : String) (answer : Result (Option V) F) (options : CacheEntryOptions)
      (s : CacheFacade V) (e : CachedEntry V)
      → get j (try_get_or_add jitter key answer options s).1.entries ≡ some e
      → (get j s.entries ≡ some e)
        ⊎ ((key ≡ j) × (e.tags ≡ options.tags) × (answer ≡ ok (some e.value)))
  try_get_or_add-entries jitter key j answer options s e h =
      let there = λ (r : Result (Option V) F × CacheFacade V). get j r.1.entries in
      elim (Bool-cases s.enabled) [
        | inr off ↦ inl (sym (ap there (try_get_or_add-off jitter key answer options s off)) ∙ h)
        | inl on ↦ elim (Option-cases (get key s.entries)) [
          | inl miss ↦
              add_missing-entries jitter key j answer options s e
                (sym (ap there (try_get_or_add-miss jitter key answer options s on miss)) ∙ h)
          | inr (entry, hit) ↦
              inl (sym (ap there (try_get_or_add-hit jitter key entry answer options s on hit)) ∙ h)
        ]
      ]

module _ {V : Type 0} where
  pub set-entries :
      (jitter : ℕ → ℕ) (key j : String) (value : V) (options : CacheEntryOptions)
      (s : CacheFacade V) (e : CachedEntry V)
      → get j (set jitter key value options s).entries ≡ some e
      → (get j s.entries ≡ some e) ⊎ (key ≡ j)
  unfolding set
  set-entries jitter key j value options s e h = elim (Bool-cases s.enabled) [
    | inr off ↦ inl (sym (ap (λ (t : CacheFacade V). get j t.entries) (if_false off _ s)) ∙ h)
    | inl on ↦
        elim (write-entries jitter key j value options s e
          (sym (ap (λ (t : CacheFacade V). get j t.entries) (if_true on _ s)) ∙ h)) [
            | inl old ↦ inl old
            | inr (k, t, v) ↦ inr k
          ]
  ]

  pub invalidate-entries :
      (key j : String) (s : CacheFacade V) (e : CachedEntry V)
      → get j (invalidate key s).entries ≡ some e
      → get j s.entries ≡ some e
  unfolding invalidate
  invalidate-entries key j s e h = ground (arith, get-remove key j s.entries)
