-- ===== src/Examples/Logs.antt =====
-- Runs of src/logger.cpp and src/progress_reporter.cpp.
use caravault.Base.{
  ◌≡◌, refl, ◌∷◌, [], ◌++◌, ◌≤◌, text, Text, true, false, some, none, inr, arith, cmp_text, length,
  text_ord,
}
use caravault.Base.Map
use caravault.Base.Map.Erasing.{erase}
use caravault.VersionVector.Json.{decimal}
use caravault.Merkle.{concatenate}
use caravault.Config.Parsing.{info, debug, error}
use caravault.Logger.{
  Logger, write, open_log_file, rotated_path, last_at, file_timestamp, log_line, level_to_string,
  rotate, rotate_if_needed, append_line,
}
use caravault.Logger.Rotation.{IsKept, write-IsKept}
use caravault.Progress.{
  ProgressReporter, render, drawn, percent, bar, bar_width, pad, shorten, render_total,
}

abbrev log_name : Text
log_name = text "d/cv.log"

abbrev noon : Text
noon = text "2026-01-02 12:00:00"

-- A log that the next message rotates.
abbrev full : Logger
full = record {
  log_path = log_name;
  level = info;
  rotation_size = 4;
  rotation_count = 0;
  files = (log_name, text "lines") ∷ [];
}

names : rotated_path log_name noon ≡ text "d/cv.2026-01-02-12-00-00.log"
unfolding rotated_path last_at file_timestamp
names = refl

runs :
    (Map.lookup log_name (write false noon noon error (text "no") full).files
      ≡ some (text "[2026-01-02 12:00:00] [ERROR] no" ++ 10 ∷ []))
    × (Map.lookup
          (text "d/cv.2026-01-02-12-00-00.log")
          (write false noon noon error (text "no") full).files
        ≡ some (text "lines"))
    × ((write false noon noon debug (text "no") full).files ≡ full.files)
unfolding write rotate_if_needed rotate open_log_file append_line log_line level_to_string
    rotated_path last_at file_timestamp Map.lookup Map.insert erase cmp_text
runs = (refl, refl, refl)

rotated-free : Map.lookup (rotated_path log_name noon) full.files ≡ none
unfolding rotated_path last_at file_timestamp Map.lookup cmp_text
rotated-free = refl

lines-IsKept : IsKept (text "lines") full.files
unfolding Map.lookup cmp_text
lines-IsKept = (log_name, [], [], refl)

write-IsKept_example : IsKept (text "lines") (write false noon noon error (text "no") full).files
write-IsKept_example =
    write-IsKept false noon noon error (text "no") (text "lines") full (inr rotated-free)
      lines-IsKept

abbrev half_way : ProgressReporter
half_way = record {
  files_processed = 1;
  total_files = 2;
  bytes_transferred = 0;
  total_bytes = 10;
  current_operation = text "Copy a";
  is_tty = false;
  started = true;
}

line : render half_way ≡ some (text "[==========>         ]  50% (1/2 files) - Copy a" ++ 10 ∷ [])
unfolding render bar percent shorten decimal concatenate pad
line = refl

render_total_example :
    (b : Text) × (render half_way ≡ drawn half_way (percent 1 2) (some b))
    × (length b ≡ bar_width)
    × (percent 1 2 ≤ 100)
render_total_example = render_total half_way (omega arith) (omega arith)
