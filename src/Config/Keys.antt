-- ===== src/Config/Keys.antt =====
-- The lines of src/config.cpp for each key.
use caravault.Base.{
  ℕ, ◌<◌, ◌^◌, ◌≡◌, refl, ◌∙◌, true, false, some, List, [], is_empty, All, arith, Text, text,
  text_ord, cmp_text,
}
use caravault.VersionVector.Json.{decimal, max_digits}
use caravault.Config.{Config, Doubles, set_key, load_line, setting}
use caravault.Config.Parsing.{
  LogLevel, break_at, log_level_to_string, join_csv, trim_left, trim_right, before_comment,
}
use caravault.Config.Lines.{IsPlain, load_line-set_key}
use caravault.Config.Values.{
  IsToken, split_csv-join_csv, join_csv-IsPlain, decimal-IsPlain, parse_positive-decimal,
  log_level_from_string-to_string,
}

-- A size that is positive and that `long long` holds.
abbrev pub IsSize : ℕ → Type 0
IsSize n = (0 < n) × (n < 2 ^ 63)

-- A text that is there and that a line can hold.
abbrev pub IsName : Text → Type 0
IsName s = (is_empty s ≡ false) × IsPlain s

pub log_level_to_string-IsPlain : (level : LogLevel) → IsPlain (log_level_to_string level)
unfolding log_level_to_string trim_right
log_level_to_string-IsPlain LogLevel.error = record {
  no_newline = ground arith;
  no_hash = ground arith;
  left = refl;
  right = refl;
}
log_level_to_string-IsPlain LogLevel.warning = record {
  no_newline = ground arith;
  no_hash = ground arith;
  left = refl;
  right = refl;
}
log_level_to_string-IsPlain LogLevel.info = record {
  no_newline = ground arith;
  no_hash = ground arith;
  left = refl;
  right = refl;
}
log_level_to_string-IsPlain LogLevel.debug = record {
  no_newline = ground arith;
  no_hash = ground arith;
  left = refl;
  right = refl;
}

module _ {D : Type 0} (f : Doubles D) where
  pub manifest_db_name_line :
      (v : Text) (cfg : Config D)
      → IsName v
      → load_line f (setting f "manifest_db_name" v) cfg ≡ record cfg { manifest_db_name = v }
  unfolding set_key cmp_text trim_left trim_right
  manifest_db_name_line v cfg (filled, p) =
      load_line-set_key f 109 (text "anifest_db_name") _ cfg refl (ground arith) (ground arith) refl
        p
      ∙ rw filled refl

  pub log_file_path_line :
      (v : Text) (cfg : Config D)
      → IsName v
      → load_line f (setting f "log_file_path" v) cfg ≡ record cfg { log_file_path = v }
  unfolding set_key cmp_text trim_left trim_right
  log_file_path_line v cfg (filled, p) =
      load_line-set_key f 108 (text "og_file_path") _ cfg refl (ground arith) (ground arith) refl p
      ∙ rw filled refl

  pub hash_algorithm_line :
      (v : Text) (cfg : Config D)
      → IsName v
      → load_line f (setting f "hash_algorithm" v) cfg ≡ record cfg { hash_algorithm = v }
  unfolding set_key cmp_text trim_left trim_right
  hash_algorithm_line v cfg (filled, p) =
      load_line-set_key f 104 (text "ash_algorithm") _ cfg refl (ground arith) (ground arith) refl p
      ∙ rw filled refl

  pub cdc_chunk_size_line :
      (v : ℕ) (cfg : Config D)
      → IsSize v
      → load_line f (setting f "cdc_chunk_size" (decimal max_digits v)) cfg
        ≡ record cfg { cdc_chunk_size = v }
  unfolding set_key cmp_text trim_left trim_right
  cdc_chunk_size_line v cfg (low, high) =
      load_line-set_key f 99 (text "dc_chunk_size") _ cfg refl (ground arith) (ground arith) refl
        (decimal-IsPlain v)
      ∙ rw (parse_positive-decimal v low high) refl

  pub large_file_threshold_line :
      (v : ℕ) (cfg : Config D)
      → IsSize v
      → load_line f (setting f "large_file_threshold" (decimal max_digits v)) cfg
        ≡ record cfg { large_file_threshold = v }
  unfolding set_key cmp_text trim_left trim_right
  large_file_threshold_line v cfg (low, high) =
      load_line-set_key f 108 (text "arge_file_threshold") _ cfg refl (ground arith) (ground arith)
        refl (decimal-IsPlain v)
      ∙ rw (parse_positive-decimal v low high) refl

  pub log_rotation_size_line :
      (v : ℕ) (cfg : Config D)
      → IsSize v
      → load_line f (setting f "log_rotation_size" (decimal max_digits v)) cfg
        ≡ record cfg { log_rotation_size = v }
  unfolding set_key cmp_text trim_left trim_right
  log_rotation_size_line v cfg (low, high) =
      load_line-set_key f 108 (text "og_rotation_size") _ cfg refl (ground arith) (ground arith)
        refl (decimal-IsPlain v)
      ∙ rw (parse_positive-decimal v low high) refl

  pub exclude_patterns_line :
      (v : List Text) (cfg : Config D)
      → All IsToken v
      → load_line f (setting f "exclude_patterns" (join_csv v)) cfg
        ≡ record cfg { exclude_patterns = v }
  unfolding set_key cmp_text trim_left trim_right
  exclude_patterns_line v cfg h =
      load_line-set_key f 101 (text "xclude_patterns") _ cfg refl (ground arith) (ground arith) refl
        (join_csv-IsPlain v h)
      ∙ rw (split_csv-join_csv v h) refl

  pub log_level_line :
      (v : LogLevel) (cfg : Config D)
      → load_line f (setting f "log_level" (log_level_to_string v)) cfg
        ≡ record cfg { log_level = v }
  unfolding set_key cmp_text trim_left trim_right
  log_level_line v cfg =
      load_line-set_key f 108 (text "og_level") _ cfg refl (ground arith) (ground arith) refl
        (log_level_to_string-IsPlain v)
      ∙ rw (log_level_from_string-to_string v) refl

  pub quorum_threshold_line :
      (v : D) (cfg : Config D)
      → IsPlain (f.print v)
      → f.stod (f.print v) ≡ some v
      → f.is_inside v ≡ true
      → load_line f (setting f "quorum_threshold" (f.print v)) cfg
        ≡ record cfg { quorum_threshold = v }
  unfolding set_key cmp_text trim_left trim_right
  quorum_threshold_line v cfg p read inside =
      load_line-set_key f 113 (text "uorum_threshold") _ cfg refl (ground arith) (ground arith) refl
        p
      ∙ rw (read, inside) refl

  pub comment_line : (cfg : Config D) → load_line f (text "# Caravault configuration") cfg ≡ cfg
  unfolding load_line before_comment trim_left trim_right break_at
  comment_line cfg = refl

  pub empty_line : (cfg : Config D) → load_line f [] cfg ≡ cfg
  unfolding load_line before_comment trim_left trim_right break_at
  empty_line cfg = refl
