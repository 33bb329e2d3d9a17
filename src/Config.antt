-- ===== src/Config.antt =====
-- `Config` of src/config.cpp and include/config.hpp. A file comes as its text. The type `double` and what
-- the library does with it are parameters. Warnings, which go to standard error, are left out.
pub mod Parsing
pub mod Lines
pub mod Values
pub mod Keys
pub mod Validation
pub mod Saving
use caravault.Base.{
  ℕ, ◌+◌, ◌-◌, ◌*◌, ◌^◌, Bool, true, false, Option, none, some, List, [], ◌∷◌, ◌++◌, ◌==◌, ◌=?◌,
  String, ◌&&◌, ◌||◌, leb, ltb, not, is_empty, length, if◌then◌else◌, Text, text_ord, text,
}
use caravault.VersionVector.Json.{decimal, max_digits, is_space, is_digit, skip_ws}
use caravault.Config.Parsing.{
  LogLevel, info, trim, split, split_csv, join_csv, parse_positive, log_level_to_string,
  log_level_from_string, break_at, before_comment, print_lines,
}

-- `std::stod`, `<<`, the tests for the range and 0.5.
pub record Doubles (D : Type 0) : Type 0 where
  pub stod : Text → Option D
  pub print : D → Text
  pub is_inside : D → Bool
  pub is_outside : D → Bool
  pub half : D

pub record Config (D : Type 0) : Type 0 where
  pub manifest_db_name : Text
  pub log_file_path : Text
  pub exclude_patterns : List Text
  pub quorum_threshold : D
  pub hash_algorithm : Text
  pub cdc_chunk_size : ℕ
  pub large_file_threshold : ℕ
  pub log_level : LogLevel
  pub log_rotation_size : ℕ

abbrev pub defaults : {D : Type 0} → Doubles D → Config D
defaults f = record {
  manifest_db_name = text ".caravault/manifest.db";
  log_file_path = text ".caravault/caravault.log";
  exclude_patterns = text ".git" ∷ text ".DS_Store" ∷ text "*.tmp" ∷ [];
  quorum_threshold = f.half;
  hash_algorithm = text "SHA256";
  cdc_chunk_size = 65536;
  large_file_threshold = 1048576;
  log_level = info;
  log_rotation_size = 10485760;
}

module _ {D : Type 0} (f : Doubles D) where
  abbrev pub set_text : (Text → Config D) → Text → Config D → Config D
  set_text set value cfg = if is_empty value then cfg else set value

  abbrev pub set_found : {A : Type 0} → (A → Config D) → Option A → Config D → Config D
  set_found set none cfg = cfg
  set_found set (some a) cfg = set a

  abbrev pub inside_only : Option D → Option D
  inside_only none = none
  inside_only (some v) = if f.is_inside v then some v else none

  abbrev pub threshold : Text → Option D
  threshold value = inside_only (f.stod value)

  -- The branches over the keys.
  unfoldable pub set_key : Text → Text → Config D → Config D
  set_key key value cfg =
      if key =? text "manifest_db_name"
      then set_text (λ v. record cfg { manifest_db_name = v }) value cfg
      else if key =? text "log_file_path"
      then set_text (λ v. record cfg { log_file_path = v }) value cfg
      else if key =? text "exclude_patterns"
      then record cfg { exclude_patterns = split_csv value }
      else if key =? text "quorum_threshold"
      then set_found (λ v. record cfg { quorum_threshold = v }) (threshold value) cfg
      else if key =? text "hash_algorithm"
      then set_text (λ v. record cfg { hash_algorithm = v }) value cfg
      else if key =? text "cdc_chunk_size"
      then set_found (λ v. record cfg { cdc_chunk_size = v }) (parse_positive value) cfg
      else if key =? text "large_file_threshold"
      then set_found (λ v. record cfg { large_file_threshold = v }) (parse_positive value) cfg
      else if key =? text "log_level"
      then set_found (λ v. record cfg { log_level = v }) (log_level_from_string value) cfg
      else if key =? text "log_rotation_size"
      then set_found (λ v. record cfg { log_rotation_size = v }) (parse_positive value) cfg
      else cfg

  abbrev pub set_pair : Option (Text × Text) → Config D → Config D
  set_pair none cfg = cfg
  set_pair (some (key, value)) cfg = set_key (trim key) (trim value) cfg

  -- One line; one that is empty or has no `=` changes nothing.
  unfoldable pub load_line : Text → Config D → Config D
  load_line line cfg = set_pair (break_at 61 (trim (before_comment line))) cfg

  unfoldable pub load_lines : List Text → Config D → Config D
  load_lines [] cfg = cfg
  load_lines (line ∷ lines) cfg = load_lines lines (load_line line cfg)

  abbrev pub text_or : String → Text → Text
  text_or default value = if is_empty value then text default else value

  abbrev pub size_or : ℕ → ℕ → ℕ
  size_or default value = if value == 0 then default else value

  abbrev pub threshold_or_half : D → D
  threshold_or_half value = if f.is_outside value then f.half else value

  -- Each check concerns one value, and `valid` is false once one fails.
  abbrev pub is_valid : Config D → Bool
  is_valid cfg =
      not (is_empty cfg.manifest_db_name)
      && (not (is_empty cfg.log_file_path)
          && (not (f.is_outside cfg.quorum_threshold)
              && (not (is_empty cfg.hash_algorithm)
                  && (not (cfg.cdc_chunk_size == 0)
                      && (not (cfg.large_file_threshold == 0)
                          && not (cfg.log_rotation_size == 0))))))

  -- Whether all values were valid, and the settings with those that were not at their defaults.
  unfoldable pub validate : Config D → Bool × Config D
  validate cfg = (
    is_valid cfg,
    record cfg {
      manifest_db_name = text_or ".caravault/manifest.db" cfg.manifest_db_name;
      log_file_path = text_or ".caravault/caravault.log" cfg.log_file_path;
      quorum_threshold = threshold_or_half cfg.quorum_threshold;
      hash_algorithm = text_or "SHA256" cfg.hash_algorithm;
      cdc_chunk_size = size_or 65536 cfg.cdc_chunk_size;
      large_file_threshold = size_or 1048576 cfg.large_file_threshold;
      log_rotation_size = size_or 10485760 cfg.log_rotation_size;
    },
  )

  -- A file that cannot be opened changes nothing.
  unfoldable pub load_from_file : Option Text → Config D → Config D
  load_from_file none cfg = cfg
  load_from_file (some content) cfg = (validate (load_lines (split 10 content) cfg)).1

  abbrev pub setting : String → Text → Text
  setting key value = text key ++ (61 ∷ value)

  -- The lines that `save_to_file` writes.
  abbrev pub saved_lines : Config D → List Text
  saved_lines cfg =
      text "# Caravault configuration"
      ∷ []
      ∷ setting "manifest_db_name" cfg.manifest_db_name
      ∷ setting "log_file_path" cfg.log_file_path
      ∷ setting "exclude_patterns" (join_csv cfg.exclude_patterns)
      ∷ setting "quorum_threshold" (f.print cfg.quorum_threshold)
      ∷ setting "hash_algorithm" cfg.hash_algorithm
      ∷ setting "cdc_chunk_size" (decimal max_digits cfg.cdc_chunk_size)
      ∷ setting "large_file_threshold" (decimal max_digits cfg.large_file_threshold)
      ∷ setting "log_level" (log_level_to_string cfg.log_level)
      ∷ setting "log_rotation_size" (decimal max_digits cfg.log_rotation_size)
      ∷ []

  -- What `save_to_file` writes.
  unfoldable pub save_to_file : Config D → Text
  save_to_file cfg = print_lines (saved_lines cfg)

  -- The settings of `do_config_set`, which loads the one line over those of the file.
  unfoldable pub do_config_set : Text → Option Text → Option (Config D)
  do_config_set kv_pair current = elim (break_at 61 kv_pair) [
    | none ↦ none
    | some (key, value) ↦
        some
          (validate (
            load_from_file (some (key ++ (61 ∷ (value ++ 10 ∷ []))))
              (load_from_file current (defaults f)))).1
  ]
