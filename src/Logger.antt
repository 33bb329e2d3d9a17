-- ===== src/Logger.antt =====
-- `Logger` of src/logger.cpp and include/logger.hpp, over the contents of the files by path. The lock makes
-- each call one step. Opening the log for appending succeeds; the rename of a rotation may fail. The stream
-- is that of the file at the path of the log; where that file was removed, what is written is in no file.
pub mod Rotation
use caravault.Base.{
  ℕ, suc, ◌+◌, Bool, true, false, Option, none, some, List, [], ◌∷◌, ◌++◌, ◌==◌, ◌||◌, ltb, length,
  is_empty, if◌then◌else◌, Text, text_ord, text,
}
use caravault.Base.Map
use caravault.Base.Map.{Map}
use caravault.Base.Map.Erasing.{erase}
use caravault.Manifest.{FileMetadata}
use caravault.Conflict.{ConflictInfo, Versions}
use caravault.Config.Parsing.{LogLevel, error, warning, info, debug}

pub record Logger : Type 0 where
  pub log_path : Text
  pub level : LogLevel
  pub rotation_size : ℕ
  pub rotation_count : ℕ
  pub files : Map Text Text

-- `static_cast<int>(level)`
abbrev pub rank : LogLevel → ℕ
rank error = 0
rank warning = 1
rank info = 2
rank debug = 3

unfoldable pub level_to_string : LogLevel → Text
level_to_string error = text "ERROR"
level_to_string warning = text "WARNING"
level_to_string info = text "INFO"
level_to_string debug = text "DEBUG"

abbrev pub content_or_empty : Option Text → Text
content_or_empty none = []
content_or_empty (some content) = content

-- The log is created where it is missing.
unfoldable pub open_log_file : Logger → Logger
open_log_file l = record l {
  files = Map.insert l.log_path (content_or_empty (Map.lookup l.log_path l.files)) l.files;
}

-- The bytes before the last `sep`, and those from it on.
unfoldable pub last_at : ℕ → Text → Option (Text × Text)
last_at sep [] = none
last_at sep (c ∷ s) = elim (last_at sep s) [
  | some (before, behind) ↦ some (c ∷ before, behind)
  | none ↦ if c == sep then some ([], c ∷ s) else none
]

-- `log_path_.parent_path()` with its slash, and the file name.
abbrev pub split_name : Text → Option (Text × Text) → Text × Text
split_name path none = ([], path)
split_name path (some (dir, [])) = (dir, [])
split_name path (some (dir, c ∷ name)) = (dir ++ c ∷ [], name)

-- The stem and the extension; a dot at the front does not count.
abbrev pub split_extension : Text → Option (Text × Text) → Text × Text
split_extension name none = (name, [])
split_extension name (some ([], extension)) = (name, [])
split_extension name (some (c ∷ stem, extension)) = (c ∷ stem, extension)

-- Colons and blanks become dashes.
unfoldable pub file_timestamp : Text → Text
file_timestamp [] = []
file_timestamp (c ∷ ts) = (if (c == 58) || (c == 32) then 45 else c) ∷ file_timestamp ts

unfoldable pub rotated_path : Text → Text → Text
rotated_path log_path timestamp =
    let (dir, name) = split_name log_path (last_at 47 log_path) in
    let (stem, extension) = split_extension name (last_at 46 name) in
    dir ++ (stem ++ (46 ∷ (file_timestamp timestamp ++ extension)))

-- `fs::rename`, which may fail.
abbrev pub move_log : Bool → Text → Text → Map Text Text → Map Text Text
move_log fails rotated content files = if fails then files else Map.insert rotated content files

abbrev pub without_log : Bool → Text → Map Text Text → Map Text Text
without_log fails log_path files = if fails then files else erase log_path files

unfoldable pub rotate : Bool → Text → Text → Logger → Logger
rotate fails timestamp content l = open_log_file (record l {
  files =
      move_log fails (rotated_path l.log_path timestamp) content
        (without_log fails l.log_path l.files);
  rotation_count = suc l.rotation_count;
})

abbrev pub rotate_found : Bool → Text → Option Text → Logger → Logger
rotate_found fails timestamp none l = l
rotate_found fails timestamp (some content) l =
    if ltb (length content) l.rotation_size then l else rotate fails timestamp content l

unfoldable pub rotate_if_needed : Bool → Text → Logger → Logger
rotate_if_needed fails timestamp l = rotate_found fails timestamp (Map.lookup l.log_path l.files) l

unfoldable pub log_line : Text → LogLevel → Text → Text
log_line timestamp level message =
    91
    ∷ (timestamp ++ (text "] [" ++ (level_to_string level ++ (text "] " ++ (message ++ 10 ∷ [])))))

abbrev pub append_found : Text → Option Text → Logger → Logger
append_found line none l = l
append_found line (some content) l = record l {
  files = Map.insert l.log_path (content ++ line) l.files;
}

unfoldable pub append_line : Text → Logger → Logger
append_line line l = append_found line (Map.lookup l.log_path l.files) l

-- The clock is read for the name of a rotated log and for the line.
unfoldable pub write : Bool → Text → Text → LogLevel → Text → Logger → Logger
write fails rotated_at written_at level message l =
    if ltb (rank l.level) (rank level)
    then l
    else append_line (log_line written_at level message) (rotate_if_needed fails rotated_at l)

unfoldable pub join_names : List Text → Text
join_names [] = []
join_names (n ∷ []) = n
join_names (n ∷ m ∷ names) = n ++ (44 ∷ join_names (m ∷ names))

-- The messages of the specialised methods, with their levels.
unfoldable pub log_sync_operation : Text → Text → Text → Text → LogLevel × Text
log_sync_operation operation path source_drive target_drive = (
  info,
  text "SYNC_OP op="
      ++ (operation
          ++ (text " path="
              ++ (path ++ (text " src=" ++ (source_drive ++ (text " dst=" ++ target_drive)))))),
)

unfoldable pub log_conflict : ConflictInfo → LogLevel × Text
log_conflict conflict = (
  warning,
  text "CONFLICT path="
      ++ (conflict.path
          ++ (text " drives=[" ++ (join_names (Map.keys conflict.versions) ++ text "]"))),
)

unfoldable pub log_quorum_resolution : Text → Text → List Text → LogLevel × Text
log_quorum_resolution path winning_hash voting_drives = (
  info,
  text "QUORUM_RESOLUTION path="
      ++ (path
          ++ (text " winning_hash="
              ++ (winning_hash ++ (text " voters=[" ++ (join_names voting_drives ++ text "]"))))),
)

unfoldable pub log_corruption : Text → Text → Text → LogLevel × Text
log_corruption path expected_hash actual_hash = (
  error,
  text "CORRUPTION path="
      ++ (path ++ (text " expected=" ++ (expected_hash ++ (text " actual=" ++ actual_hash)))),
)

unfoldable pub log_error : Text → Text → LogLevel × Text
log_error context message = (error, 91 ∷ (context ++ (text "] " ++ message)))
