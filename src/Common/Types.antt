-- ===== src/Common/Types.antt =====
-- src/include/medialibrary/IMedia.h: the types of media, which the playlists and the groups count.
pub data MediaType : Type 0 where
  unknown video audio : MediaType
