-- ===== src/Caching/Overlap.antt =====
-- What `remove_by_tag` of crates/shared-kernel/src/caching/facade.rs does to an entry that is being
-- written: the two halves of `set` are `register` and `store`, and the invalidation falls before,
-- between or after them.
use rust_api_modular_monolit.Base.{
  ℕ, zero, suc, length, ◌≡◌, refl, subst, ◌∙◌, String, Bool, true, false, List, [], ◌∷◌, none, some,
  eq_string, beq_self, contains, inl, inr, Option-cases,
}
use rust_api_modular_monolit.Base.Map.{get, get-insert}
use rust_api_modular_monolit.Caching.{
  CachedEntry, CacheFacade, CacheEntryOptions, store, new_entry, register, write, in_turn,
  write_steps, set, remove_by_tag, Reachable, stepped, was_set, was_removed_by_tag, new_facade,
}
use rust_api_modular_monolit.Caching.Freshness.{remove_by_tag-drops}
use rust_api_modular_monolit.Caching.Reading.{
  set-write, remove_by_tag-enabled, get-remove_by_tag, remove_by_tag-untagged, untagged_stays,
}

module _ {V : Type 0} where
  -- Steps in turn, with another after the first so many of them.
  abbrev interrupted :
      ℕ
      → (CacheFacade V → CacheFacade V)
      → List (CacheFacade V → CacheFacade V)
      → CacheFacade V
      → CacheFacade V
  interrupted zero other steps s = in_turn steps (other s)
  interrupted (suc n) other [] s = other s
  interrupted (suc n) other (step ∷ steps) s = interrupted n other steps (step s)

  -- A write with an invalidation of its tag after the first so many of its steps.
  abbrev overlapped :
      (ℕ → ℕ) → String → String → V → CacheEntryOptions → ℕ → CacheFacade V → CacheFacade V
  overlapped jitter key tag value options n s =
      interrupted n (remove_by_tag tag) (write_steps jitter key value options s) s

  -- What becomes of a write with an invalidation of its tag before, within and after it.
  pub record IsLost (jitter : ℕ → ℕ) (key tag : String) (value : V) (options : CacheEntryOptions)
      (s : CacheFacade V) : Type 0 where
    steps : length (write_steps jitter key value options s) ≡ 2
    whole : set jitter key value options s ≡ in_turn (write_steps jitter key value options s) s
    before :
        (e : CachedEntry V) × (get key (set jitter key value options (remove_by_tag tag s)).entries
          ≡ some e)
        × (e.value ≡ value)
    before_again :
        get key (remove_by_tag tag (set jitter key value options (remove_by_tag tag s))).entries
        ≡ none
    within :
        (e : CachedEntry V) × (get key (overlapped jitter key tag value options 1 s).entries
          ≡ some e)
        × (e.value ≡ value)
        × (get key (remove_by_tag tag (overlapped jitter key tag value options 1 s)).entries
            ≡ some e)
    after : get key (overlapped jitter key tag value options 2 s).entries ≡ none

  write-get :
      (jitter : ℕ → ℕ) (key : String) (value : V) (options : CacheEntryOptions) (s : CacheFacade V)
      → get key (write jitter key value options s).entries ≡ some (new_entry jitter s value options)
  unfolding write write_steps store register
  write-get jitter key value options s =
      get-insert key key (new_entry jitter s value options) s.entries ∙ rw (beq_self key) refl

  store-get :
      (key : String) (entry : CachedEntry V) (s : CacheFacade V)
      → get key (store key entry s).entries ≡ some entry
  unfolding store
  store-get key entry s = get-insert key key entry s.entries ∙ rw (beq_self key) refl

  set-get :
      (jitter : ℕ → ℕ) (key : String) (value : V) (options : CacheEntryOptions) (s : CacheFacade V)
      → s.enabled ≡ true
      → get key (set jitter key value options s).entries ≡ some (new_entry jitter s value options)
  set-get jitter key value options s on =
      rw (set-write jitter key value options s on) (write-get jitter key value options s)

  late_stays :
      (key tag : String) (entry : CachedEntry V) (s : CacheFacade V)
      → get key
          (remove_by_tag tag (store key entry (remove_by_tag tag (register key entry s)))).entries
        ≡ some entry
  unfolding store
  late_stays key tag entry s =
      rw
        (untagged_stays tag (store key entry (remove_by_tag tag (register key entry s)))
          (remove_by_tag-untagged tag (register key entry s)))
        (store-get key entry (remove_by_tag tag (register key entry s)))

module _ {V : Type 0} (F : Type 0) where
  -- A value that is set with a tag is gone after the tag is invalidated.
  set-removed :
      (enabled : Bool) (ttl generation : ℕ) (jitter : ℕ → ℕ) (key tag : String) (value : V)
      (options : CacheEntryOptions) (s : CacheFacade V)
      → Reachable F (new_facade enabled ttl generation) s
      → s.enabled ≡ true
      → contains options.tags tag ≡ true
      → get key (remove_by_tag tag (set jitter key value options s)).entries ≡ none
  unfolding new_entry
  set-removed enabled ttl generation jitter key tag value options s path on carries =
      let t = set jitter key value options s in
      elim (Option-cases (get key (remove_by_tag tag t).entries)) [
        | inl gone ↦ gone
        | inr (left, e) ↦
            let here = get-remove_by_tag key tag left t e in
            let set_here = set-get jitter key value options s on in
            let free =
              remove_by_tag-drops enabled ttl generation t key tag left
                (stepped s t path (was_set s jitter key value options)) e in
            let same : left ≡ new_entry jitter s value options = cc in
            let no : contains options.tags tag ≡ false =
              subst (λ x. contains x.tags tag ≡ false) same free in
            cc
      ]

  -- In a cache that its operations have led to and that is enabled, a value is set with a tag in
  -- two steps. Where the tag is invalidated after both, the value's entry is gone; where it is
  -- invalidated before both, the entry is there, and the next invalidation takes it away. But where
  -- it is invalidated between the two, the entry is there afterwards, and stays there when the tag
  -- is invalidated again.
  pub write_steps-IsLost :
      (enabled : Bool) (ttl generation : ℕ) (jitter : ℕ → ℕ) (key tag : String) (value : V)
      (options : CacheEntryOptions) (s : CacheFacade V)
      → Reachable F (new_facade enabled ttl generation) s
      → s.enabled ≡ true
      → contains options.tags tag ≡ true
      → IsLost jitter key tag value options s
  unfolding write write_steps new_entry
  write_steps-IsLost enabled ttl generation jitter key tag value options s path on carries =
      let entry = new_entry jitter s value options in
      let cleared = remove_by_tag tag s in
      let still = remove_by_tag-enabled tag s ∙ on in
      record {
        steps = refl;
        whole = set-write jitter key value options s on;
        before = (
          new_entry jitter cleared value options,
          set-get jitter key value options cleared still,
          refl,
        );
        before_again =
            set-removed enabled ttl generation jitter key tag value options cleared
              (stepped s cleared path (was_removed_by_tag s tag)) still carries;
        within = (
          entry,
          store-get key entry (remove_by_tag tag (register key entry s)),
          refl,
          late_stays key tag entry s,
        );
        after =
            rw⁻¹ (set-write jitter key value options s on)
              (set-removed enabled ttl generation jitter key tag value options s path on carries);
      }
