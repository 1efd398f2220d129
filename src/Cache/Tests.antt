-- ===== src/Cache/Tests.antt =====
-- A subscription with two cached media.
use medialibrary.Common.{ℕ, ◌≡◌, refl, true, false, none, [], ◌∷◌}
use medialibrary.Cache.{Cached, Subscription, evict_if_needed, evict_subscription, undefined}

abbrev episode : ℕ → Cached
episode n = record {
  size = n;
  is_cached = true;
  removed_from_disk = true;
  removed_from_database = true;
  is_played = false;
}

abbrev podcast : Subscription
podcast = record {
  max_cached_media = 2;
  max_cache_size = 0;
  nb_cached_media = 2;
  cached_size = 30;
  evictable = episode 10 ∷ episode 20 ∷ [];
}

-- A manual request for a file that needs the room of another one.
moved_test : (evict_if_needed 90 100 30 none (episode 30 ∷ [])).0 ≡ undefined
unfolding evict_if_needed evict_subscription
moved_test = refl
