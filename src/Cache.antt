-- ===== src/Cache.antt =====
-- src/CacheWorker.cpp: how a file is cached, and what is evicted before.
pub mod Eviction
mod Tests
use medialibrary.Common.{
  ℕ, zero, suc, ◌+◌, ◌-◌, ◌%◌, ◌==◌, ltb, leb, if◌then◌else◌, Bool, true, false, not, ◌&&◌, ◌||◌,
  Option, none, some, List, [], ◌∷◌, ◌++◌, keep,
}

-- A medium that the query of the evictable media gives: the size of its main file, whether that one is
-- a cached file, whether the system and the database will remove it, and whether the medium was played,
-- as the query gives it then also when it is not cached.
pub record Cached : Type 0 where
  pub size : ℕ
  pub is_cached : Bool
  pub removed_from_disk : Bool
  pub removed_from_database : Bool
  pub is_played : Bool

-- A subscription: the most media that it caches, by itself or by the settings, the limit on their size,
-- with 0 for none, how many media it caches and their size, and those that can be evicted, in the
-- order in which they go.
pub record Subscription : Type 0 where
  pub max_cached_media : ℕ
  pub max_cache_size : ℕ
  pub nb_cached_media : ℕ
  pub cached_size : ℕ
  pub evictable : List Cached

-- An outcome is undefined where a pointer that was moved from is used, or a missing element.
pub data Outcome : Type 0 where
  has_room refused undefined : Outcome

abbrev pub uint64 : ℕ
uint64 = 18446744073709551616

abbrev pub minus_size : ℕ → ℕ → ℕ
minus_size total size = (total + uint64 - size) % uint64

abbrev pub total_size : List Cached → ℕ
total_size [] = 0
total_size (c ∷ cs) = c.size + total_size cs

-- The condition of the first loop. The number of media is counted once.
abbrev pub is_over : ℕ → ℕ → ℕ → ℕ → Bool
is_over nb_cached_media max_media max_sub_cache_size sub_cache_size =
    leb max_media nb_cached_media
    || (ltb 0 max_sub_cache_size && leb sub_cache_size max_sub_cache_size)

-- The first loop: whether it came to its end, what can still be evicted, and the size of the cache. A
-- medium that was played comes back, and is not cached then.
unfoldable pub evict_subscription : ℕ → ℕ → ℕ → ℕ → ℕ → List Cached → Bool × (List Cached × ℕ)
evict_subscription nb_cached_media max_media max_sub_cache_size sub_cache_size cache_size [] =
    (not (is_over nb_cached_media max_media max_sub_cache_size sub_cache_size), ([], cache_size))
evict_subscription nb_cached_media max_media max_sub_cache_size sub_cache_size cache_size (c ∷ cs) =
    let sub_left = minus_size sub_cache_size c.size in
    let left = minus_size cache_size c.size in
    let rest = evict_subscription nb_cached_media max_media max_sub_cache_size sub_left left cs in
    if not (is_over nb_cached_media max_media max_sub_cache_size sub_cache_size)
    then (true, (c ∷ cs, cache_size))
    else if not (c.is_cached && (c.removed_from_disk && c.removed_from_database))
    then (false, (c ∷ cs, cache_size))
    else if c.is_played
    then (
      not (is_over nb_cached_media max_media max_sub_cache_size sub_left),
      (record c { is_cached = false } ∷ cs, left),
    )
    else rest

abbrev pub available_cache_size : ℕ → ℕ → ℕ
available_cache_size max_cache_size used_size =
    if ltb max_cache_size used_size then 0 else max_cache_size - used_size

-- The second part: room for the file in the cache as a whole. The first file is moved from the list and
-- then used there.
abbrev pub evict_any : ℕ → ℕ → ℕ → List Cached → Outcome
evict_any file_size max_cache_size cache_size files =
    if ltb (available_cache_size max_cache_size cache_size) file_size
    then (elim files [
      | [] ↦ undefined
      | f ∷ others ↦ if f.removed_from_disk then undefined else refused
    ])
    else has_room

-- `evictIfNeeded`, for a subscription or for a manual request; `others` are the cached
-- files that it cannot evict.
unfoldable pub evict_if_needed :
    ℕ → ℕ → ℕ → Option Subscription → List Cached → Outcome × (List Cached × ℕ)
unfolding evict_subscription
evict_if_needed file_size max_cache_size cache_size none others =
    (evict_any file_size max_cache_size cache_size others, ([], cache_size))
evict_if_needed file_size max_cache_size cache_size (some s) others =
    let (ended, (left, size)) =
      evict_subscription s.nb_cached_media s.max_cached_media s.max_cache_size s.cached_size
        cache_size s.evictable in
    if ended
    then (
      evict_any file_size max_cache_size size (keep (λ c. c.is_cached) left ++ others),
      (left, size),
    )
    else (refused, (left, size))

-- `doCache` with an automatic request, for a medium that is not cached: what can be evicted then, and
-- the size of the cache. `fetched` is what the download gives.
unfoldable pub do_cache : ℕ → ℕ → Option Cached → ℕ → Subscription → List Cached → List Cached × ℕ
unfolding evict_if_needed
do_cache file_size max_cache_size fetched cache_size s others =
    let (outcome, (left, size)) =
      evict_if_needed file_size max_cache_size cache_size (some s) others in
    elim outcome [
      | has_room ↦ elim fetched [ none ↦ (left, size) | some c ↦ (left ++ c ∷ [], size) ]
      | refused ↦ (left, size)
      | undefined ↦ (left, size)
    ]
