-- ===== src/Playlist/Counters.antt =====
-- Playlists: the counters of a playlist's row, and their copy in the instance. They are unbounded
-- here, and a difference stops at 0: where more is subtracted than was counted, the row's goes below
-- 0 in the source and the copy wraps around. A duration that is not positive is 0, as the
-- accumulator takes it.
pub mod Agreement
use medialibrary.Common.{
  ℕ, zero, suc, ◌+◌, ◌-◌, ◌%◌, ◌≤◌, ◌<◌, ◌==◌, ltb, ◌≡◌, ◌≢◌, refl, sym, ap, subst, ◌∙◌,
  if◌then◌else◌, Bool, true, false, ◌&&◌, Option, none, some, List, [], ◌∷◌, ◌++◌, length, take,
  drop, All, arith, Option-cases, Bool-cases, inl, inr, take-append-drop, MediaType, unknown, video,
  audio,
}
use medialibrary.Playlist.{Row, uint32, uint32_max, add_internal, remove_internal}

pub record Media : Type 0 where
  pub type : MediaType
  pub is_present : Bool
  pub duration : ℕ

pub record Counters : Type 0 where
  pub nb_video : ℕ
  pub nb_present_video : ℕ
  pub nb_audio : ℕ
  pub nb_present_audio : ℕ
  pub nb_unknown : ℕ
  pub nb_present_unknown : ℕ
  pub total_duration : ℕ
  pub nb_duration_unknown : ℕ

abbrev pub no_counters : Counters
no_counters = record {
  nb_video = 0;
  nb_present_video = 0;
  nb_audio = 0;
  nb_present_audio = 0;
  nb_unknown = 0;
  nb_present_unknown = 0;
  total_duration = 0;
  nb_duration_unknown = 0;
}

abbrev one_if : Bool → ℕ
one_if b = if b then 1 else 0

-- The switch on the type of the media.
abbrev count_type : MediaType → ℕ → Counters → Counters
count_type video present c = record c {
  nb_video = c.nb_video + 1;
  nb_present_video = c.nb_present_video + present;
}
count_type audio present c = record c {
  nb_audio = c.nb_audio + 1;
  nb_present_audio = c.nb_present_audio + present;
}
count_type unknown present c = record c {
  nb_unknown = c.nb_unknown + 1;
  nb_present_unknown = c.nb_present_unknown + present;
}

-- `CounterAccumulator::update`.
unfoldable pub update : Media → Counters → Counters
update m c =
    let counted = count_type m.type (one_if m.is_present) c in
    record counted {
      total_duration = counted.total_duration + m.duration;
      nb_duration_unknown = counted.nb_duration_unknown + one_if (m.duration == 0);
    }

-- The accumulation over the media of a list; `none` where one is not found.
unfoldable pub accumulate : (ℕ → Option Media) → List ℕ → Counters → Option Counters
accumulate media [] c = some c
accumulate media (id ∷ ids) c = elim (media id) [
  | none ↦ none
  | some m ↦ accumulate media ids (update m c)
]

abbrev pub plus : Counters → Counters → Counters
plus a b = record {
  nb_video = a.nb_video + b.nb_video;
  nb_present_video = a.nb_present_video + b.nb_present_video;
  nb_audio = a.nb_audio + b.nb_audio;
  nb_present_audio = a.nb_present_audio + b.nb_present_audio;
  nb_unknown = a.nb_unknown + b.nb_unknown;
  nb_present_unknown = a.nb_present_unknown + b.nb_present_unknown;
  total_duration = a.total_duration + b.total_duration;
  nb_duration_unknown = a.nb_duration_unknown + b.nb_duration_unknown;
}

abbrev pub minus : Counters → Counters → Counters
minus a b = record {
  nb_video = a.nb_video - b.nb_video;
  nb_present_video = a.nb_present_video - b.nb_present_video;
  nb_audio = a.nb_audio - b.nb_audio;
  nb_present_audio = a.nb_present_audio - b.nb_present_audio;
  nb_unknown = a.nb_unknown - b.nb_unknown;
  nb_present_unknown = a.nb_present_unknown - b.nb_present_unknown;
  total_duration = a.total_duration - b.total_duration;
  nb_duration_unknown = a.nb_duration_unknown - b.nb_duration_unknown;
}

pub record Playlist : Type 0 where
  pub rows : List Row
  pub counters : Counters
  pub cached : Counters

-- The copy of the instance after an addition: the present videos are counted with all videos.
abbrev pub cache_added : Counters → Counters → Counters
cache_added c added = record (plus c added) {
  nb_present_video = c.nb_present_video + added.nb_video;
}

-- `add` and `append`; where they fail, the transaction is rolled back.
unfoldable pub add : (ℕ → Option Media) → List ℕ → ℕ → Playlist → Playlist × Bool
unfolding add_internal accumulate
add media ids position p = elim (accumulate media ids no_counters) [
  | none ↦ (p, false)
  | some added ↦ (
    record {
      rows = add_internal ids position p.rows;
      counters = plus p.counters added;
      cached = cache_added p.cached added;
    },
    true,
  )
]

-- The accumulation over the items that a query gives.
unfoldable pub accumulate_items : List Media → Counters → Counters
accumulate_items [] c = c
accumulate_items (m ∷ items) c = accumulate_items items (update m c)

-- `remove`, where the query of the media of the playlist gives `items` at these positions.
unfoldable pub remove : List Media → ℕ → ℕ → Playlist → Playlist
unfolding remove_internal accumulate_items
remove items position count p =
    if count == 0
    then p
    else let removed = accumulate_items items no_counters in
      record {
        rows = remove_internal position count p.rows;
        counters = minus p.counters removed;
        cached = minus p.cached removed;
      }

abbrev pub clear_content : Playlist → Playlist
clear_content p = record { rows = []; counters = no_counters; cached = no_counters }
