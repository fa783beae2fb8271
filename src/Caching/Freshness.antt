-- ===== src/Caching/Freshness.antt =====
-- What a reader of crates/shared-kernel/src/caching/facade.rs may rely on: that an invalidation
-- reaches the entries, and what `try_get_or_add` answers.
use rust_api_modular_monolit.Base.{
  ℕ, suc, ◌≡◌, refl, sym, subst, String, Bool, true, false, List, ◌∷◌, ◌++◌, Option, none, some,
  arith, ◌==◌, eq_nat, eq_string, nat_eq, contains, inl, inr, Bool-cases, Option-cases, if_both,
  All, All-imp, All-middle, All-without,
}
use rust_api_modular_monolit.Base.Map.{get, remove, get-remove}
use rust_api_modular_monolit.Base.Result.{Result, ok, err}
use rust_api_modular_monolit.Caching.{
  CachedEntry, CacheFacade, CacheEntryOptions, set, add_missing, try_get_or_add, remove_entry,
  invalidate_all, remove_by_tag, notify, Step, was_set, was_read, was_removed, was_removed_by_tag,
  was_evicted, was_drawn, was_notified, Reachable, started, stepped, new_facade,
}
use rust_api_modular_monolit.Caching.Index.{registered, registered-forget_tags}
use rust_api_modular_monolit.Caching.Tracking.{
  IsPast, IsTracked, invalidate-IsTracked, write-IsTracked, invalidate_all-tags,
  invalidate_all-IsTracked, invalidate_all-none, invalidate_all-apart,
}

module _ {V : Type 0} where
  -- An entry is registered among the keys of each of its tags.
  tracked-get :
      (key tag : String) (entry : CachedEntry V) (s : CacheFacade V) (keys : List (String × ℕ))
      → IsTracked s
      → get tag s.tags ≡ some keys
      → get key s.entries ≡ some entry
      → contains entry.tags tag ≡ true
      → get key keys ≡ some entry.generation
  unfolding registered
  tracked-get key tag entry s keys h e there carries =
      rw e at (h.tracked key tag entry there carries)

  tracked-none :
      (key tag : String) (entry : CachedEntry V) (s : CacheFacade V)
      → IsTracked s
      → get tag s.tags ≡ none
      → get key s.entries ≡ some entry
      → contains entry.tags tag ≡ false
  unfolding registered get
  tracked-none key tag entry s h e there = elim (Bool-cases (contains entry.tags tag)) [
    | inl carries ↦
        let no : none ≡ some entry.generation = rw e at (h.tracked key tag entry there carries) in
        cc
    | inr free ↦ free
  ]

  -- After the keys of a tag are invalidated no entry carries it.
  invalidated-free :
      (key tag : String) (entry : CachedEntry V) (s : CacheFacade V) (keys : List (String × ℕ))
      → IsTracked s
      → get tag s.tags ≡ some keys
      → get key (invalidate_all keys s).entries ≡ some entry
      → contains entry.tags tag ≡ false
  invalidated-free key tag entry s keys h e there = elim (Bool-cases (contains entry.tags tag)) [
    | inl carries ↦
        let s' = invalidate_all keys s in
        let listed =
          tracked-get key tag entry s' keys (invalidate_all-IsTracked keys s h)
            (rw (invalidate_all-tags keys s) e) there carries in
        let gone = invalidate_all-none key entry.generation keys s listed in cc
    | inr free ↦ free
  ]

  tracked_drops :
      (key tag : String) (entry : CachedEntry V) (s : CacheFacade V)
      → IsTracked s
      → get key (remove_by_tag tag s).entries ≡ some entry
      → contains entry.tags tag ≡ false
  unfolding remove_by_tag
  tracked_drops key tag entry s h there = elim (Option-cases (get tag s.tags)) [
    | inl e ↦ tracked-none key tag entry s h e (rw (e, remove_by_tag) at there)
    | inr (keys, e) ↦
        invalidated-free key tag entry s keys h e
          (rw (e, remove_by_tag, invalidate_all-apart keys (remove tag s.tags) s) at there)
  ]

  untag-IsTracked :
      (tag : String) (s : CacheFacade V)
      → IsTracked s
      → ((key : String) (entry : CachedEntry V)
          → get key s.entries ≡ some entry
          → contains entry.tags tag ≡ false)
      → IsTracked (record s { tags = remove tag s.tags })
  unfolding registered
  untag-IsTracked tag s h free = record {
    tracked = λ key t entry there carries. elim (Bool-cases (tag == t)) [
      | inl e ↦
          let same : tag ≡ t = (eq_string.equals_iff tag t).0 e in
          let no : contains entry.tags t ≡ false = rw (sym same) (free key entry there) in cc
      | inr e ↦ rw (get-remove tag t s.tags, e) (h.tracked key t entry there carries)
    ];
    drawn = h.drawn;
    past = h.past;
  }

  remove_by_tag-IsTracked :
      (tag : String) (s : CacheFacade V) → IsTracked s → IsTracked (remove_by_tag tag s)
  unfolding remove_by_tag
  remove_by_tag-IsTracked tag s h = elim (Option-cases (get tag s.tags)) [
    | inl e ↦ rw (e, remove_by_tag) h
    | inr (keys, e) ↦
        let after =
          untag-IsTracked tag (invalidate_all keys s) (invalidate_all-IsTracked keys s h)
            (λ key entry there. invalidated-free key tag entry s keys h e there) in
        rw (e, remove_by_tag, invalidate_all-apart keys (remove tag s.tags) s)
          (rw (invalidate_all-tags keys s) at after)
  ]

  notify-IsTracked :
      (before : List (String × CachedEntry V)) (key : String) (entry : CachedEntry V)
      (rest : List (String × CachedEntry V)) (s : CacheFacade V)
      → s.removed ≡ before ++ (key, entry) ∷ rest
      → IsTracked s
      → IsTracked (notify before key entry rest s)
  unfolding notify
  notify-IsTracked before key entry rest s e h =
      let P = IsPast s.next_generation s.entries in
      let all = subst (All P) e h.past in
      let (old, apart) = All-middle P before (key, entry) rest all in
      record {
        tracked = λ k tag live there carries.
            registered-forget_tags s.tags key k tag entry.tags entry.generation live.generation
              (h.tracked k tag live there carries)
              (elim (Bool-cases (key == k)) [
                | inl hit ↦
                    let same : key ≡ k = (eq_string.equals_iff key k).0 hit in
                    let other : nat_eq live.generation entry.generation ≡ false =
                      rw (same, there) at apart in
                    ground arith
                | inr miss ↦ rw miss refl
              ]);
        drawn = h.drawn;
        past = All-without P before (key, entry) rest all;
      }

  draw-IsTracked :
      (s : CacheFacade V)
      → IsTracked s
      → IsTracked (record s { next_generation = suc s.next_generation })
  draw-IsTracked s h = record {
    tracked = h.tracked;
    drawn = λ key entry there. omega (arith, h.drawn key entry there);
    past =
        All-imp (IsPast s.next_generation s.entries) (IsPast (suc s.next_generation) s.entries)
          (λ r p. (omega (arith, p.0), p.1)) s.removed h.past;
  }

  set-IsTracked :
      (jitter : ℕ → ℕ) (key : String) (value : V) (options : CacheEntryOptions) (s : CacheFacade V)
      → IsTracked s
      → IsTracked (set jitter key value options s)
  unfolding set
  set-IsTracked jitter key value options s h =
      if_both IsTracked s.enabled _ s (write-IsTracked jitter key value options s h) h

  -- What `try_get_or_add` does past its first test.
  miss-IsTracked :
      {F : Type 0} (jitter : ℕ → ℕ) (key : String) (answer : Result (Option V) F)
      (options : CacheEntryOptions) (s : CacheFacade V)
      → IsTracked s
      → IsTracked (add_missing jitter key answer options s).1
  unfolding add_missing
  miss-IsTracked jitter key (ok (some value)) options s h =
      write-IsTracked jitter key value options s h
  miss-IsTracked jitter key (ok none) options s h = h
  miss-IsTracked jitter key (err failure) options s h = h

  module _ {F : Type 0} where
    read-IsTracked :
        (jitter : ℕ → ℕ) (key : String) (answer : Result (Option V) F) (options : CacheEntryOptions)
        (s : CacheFacade V)
        → IsTracked s
        → IsTracked (try_get_or_add jitter key answer options s).1
    unfolding try_get_or_add
    read-IsTracked jitter key answer options s h =
        if_both (λ (r : Result (Option V) F × CacheFacade V). IsTracked r.1) s.enabled _ (answer, s)
          (elim (Option-cases (get key s.entries)) [
            | inl miss ↦ rw miss (miss-IsTracked jitter key answer options s h)
            | inr (entry, hit) ↦ rw hit h
          ])
          h

    Step-IsTracked : (s t : CacheFacade V) → Step F s t → IsTracked s → IsTracked t
    unfolding remove_entry
    Step-IsTracked s t (was_set _ jitter key value options) h =
        set-IsTracked jitter key value options s h
    Step-IsTracked s t (was_read _ jitter key answer options) h =
        read-IsTracked jitter key answer options s h
    Step-IsTracked s t (was_removed _ key) h = invalidate-IsTracked key s h
    Step-IsTracked s t (was_removed_by_tag _ tag) h = remove_by_tag-IsTracked tag s h
    Step-IsTracked s t (was_evicted _ key) h = invalidate-IsTracked key s h
    Step-IsTracked s t (was_drawn _) h = draw-IsTracked s h
    Step-IsTracked s t (was_notified _ before key entry rest e) h =
        notify-IsTracked before key entry rest s e h

    pub Reachable-IsTracked :
        (enabled : Bool) (ttl generation : ℕ) (s : CacheFacade V)
        → Reachable F (new_facade enabled ttl generation) s
        → IsTracked s
    unfolding get
    Reachable-IsTracked enabled ttl generation s started = record {
      tracked = λ key tag entry there carries. cc;
      drawn = λ key entry there. cc;
      past = tt;
    }
    Reachable-IsTracked enabled ttl generation s (stepped r _ path step) =
        Step-IsTracked r s step (Reachable-IsTracked enabled ttl generation r path)

    -- In a cache whose writes do not overlap, after `remove_by_tag` no entry carries the tag,
    -- whatever was set, read, removed or evicted before, and however late the listener was told
    -- of the removals.
    pub remove_by_tag-drops :
        (enabled : Bool) (ttl generation : ℕ) (s : CacheFacade V) (key tag : String)
        (entry : CachedEntry V)
        → Reachable F (new_facade enabled ttl generation) s
        → get key (remove_by_tag tag s).entries ≡ some entry
        → contains entry.tags tag ≡ false
    remove_by_tag-drops enabled ttl generation s key tag entry path there =
        tracked_drops key tag entry s (Reachable-IsTracked enabled ttl generation s path) there
