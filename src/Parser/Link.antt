-- ===== src/Parser/Link.antt =====
-- src/metadata_services/LinkService.cpp: the status of the service for every way that its look-ups
-- and its writes may go.
use medialibrary.Common.{◌≡◌, if◌then◌else◌, Bool, true, false, not, ◌||◌, ◌&&◌, arith}
use medialibrary.Parser.Task.{
  LinkType, no_link, to_media, to_playlist, to_subscription, FileType, soundtrack, subtitles,
  linking,
}
use medialibrary.Parser.Worker.{Status, fatal, completed, requeue, returns}
use medialibrary.Parser.Ends.{is_answer}

-- What a write may come to: the calls report success, failure, or a violated constraint. Any
-- other exception, of the file system or of the database, leaves `run`.
pub data Write : Type 0 where
  written refused violates_foreign_key violates_unique : Write

-- The answers of the database that the service asks for.
pub record Lookups : Type 0 where
  pub has_external_file : Bool
  pub has_file : Bool
  pub is_main : Bool
  pub has_media : Bool
  pub has_target : Bool
  pub knows_file_id : Bool
  pub adds_file : Write
  pub adds_track : Write
  pub sets_media : Bool
  pub adds_item : Write

-- `none` of the statuses: the violation of another constraint escapes as an exception.
pub data Result : Type 0 where
  status : Status → Result
  escapes : Write → Result

abbrev added_to_playlist : Write → Result
added_to_playlist written = status completed
added_to_playlist refused = status fatal
added_to_playlist violates_foreign_key = status fatal
added_to_playlist violates_unique = escapes violates_unique

unfoldable pub link_to_playlist : Lookups → Result
link_to_playlist l =
    if not l.has_external_file && not l.has_file
    then status fatal
    else if not l.is_main
    then status fatal
    else if not l.has_media
    then status requeue
    else if not l.has_target
    then status fatal
    else added_to_playlist l.adds_item

-- The transaction that links subtitles: a violated uniqueness is ignored.
abbrev tracked : Write → Result
tracked violates_foreign_key = escapes violates_foreign_key
tracked _ = status completed

abbrev subtitles_added : Write → Write → Result
subtitles_added refused track = status fatal
subtitles_added violates_unique track = status completed
subtitles_added violates_foreign_key track = escapes violates_foreign_key
subtitles_added written track = tracked track

unfoldable pub link_subtitles : Lookups → Result
link_subtitles l =
    if l.knows_file_id then tracked l.adds_track else subtitles_added l.adds_file l.adds_track

abbrev any_track : Write → Result
any_track violates_foreign_key = escapes violates_foreign_key
any_track violates_unique = escapes violates_unique
any_track _ = status completed

abbrev attached : Bool → Write → Result
attached false track = status fatal
attached true track = any_track track

abbrev soundtrack_added : Write → Bool → Write → Result
soundtrack_added written sets track = attached sets track
soundtrack_added refused sets track = status fatal
soundtrack_added violates_foreign_key sets track = escapes violates_foreign_key
soundtrack_added violates_unique sets track = escapes violates_unique

unfoldable pub link_soundtrack : Lookups → Result
link_soundtrack l =
    if l.knows_file_id
    then any_track l.adds_track
    else if l.has_file || l.has_external_file
    then attached l.sets_media l.adds_track
    else soundtrack_added l.adds_file l.sets_media l.adds_track

abbrev link_file : FileType → Lookups → Result
link_file subtitles l = link_subtitles l
link_file soundtrack l = link_soundtrack l
link_file _ l = status completed

unfoldable pub link_to_media : FileType → Lookups → Result
unfolding link_subtitles link_soundtrack
link_to_media file l = if not l.has_media then status requeue else link_file file l

abbrev added_to_subscription : Write → Result
added_to_subscription written = status completed
added_to_subscription refused = status fatal
added_to_subscription violates_unique = status completed
added_to_subscription violates_foreign_key = escapes violates_foreign_key

-- The notification behind the write does not change the status.
unfoldable pub link_to_subscription : Lookups → Result
link_to_subscription l =
    if not l.has_media
    then status requeue
    else if not l.has_target
    then status fatal
    else added_to_subscription l.adds_item

unfoldable pub run : LinkType → FileType → Lookups → Result
unfolding link_to_playlist link_to_media link_to_subscription
run no_link file l = status fatal
run to_media file l = link_to_media file l
run to_playlist file l = link_to_playlist l
run to_subscription file l = link_to_subscription l

-- The link service meets what the pipeline asks of it: a status that it returns is neither a mere
-- success nor the unknown one, and it asks to be run again only when the media is missing.
pub run-is_answer :
    (link : LinkType) (file : FileType) (l : Lookups) (s : Status)
    → run link file l ≡ status s
    → (is_answer linking (returns s) ≡ true) × (s ≡ requeue → l.has_media ≡ false)
unfolding run
run-is_answer no_link file l s e = ground arith
run-is_answer to_media file l s e = ground arith
run-is_answer to_playlist file l s e = ground arith
run-is_answer to_subscription file l s e = ground arith
