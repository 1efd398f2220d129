-- ===== src/Cache/Eviction.antt =====
-- What the eviction leaves of a subscription.
use medialibrary.Common.{◌≡◌, true, false, ◌&&◌}
use medialibrary.Cache.{Cached}

-- Nothing keeps the file from being removed, and the medium was not played.
abbrev pub IsRemovable : Cached → Type 0
IsRemovable c =
    ((c.is_cached && (c.removed_from_disk && c.removed_from_database)) ≡ true)
    × (c.is_played ≡ false)
