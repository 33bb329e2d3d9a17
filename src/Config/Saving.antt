-- ===== src/Config/Saving.antt =====
-- `save_to_file` and `load_from_file` of src/config.cpp.
use caravault.Base.{
  ℕ, ◌<◌, ◌≡◌, refl, ◌∙◌, true, false, some, ◌∷◌, ◌==◌, All, arith, Text, text, text_ord, ap,
  String,
}
use caravault.Config.{
  Config, Doubles, load_lines, load_from_file, save_to_file, setting, saved_lines, validate,
}
use caravault.Config.Parsing.{split}
use caravault.Config.Lines.{NoByte, NoByte-append, IsPlain, split-print_lines}
use caravault.Config.Values.{IsToken, join_csv-IsPlain, decimal-IsPlain}
use caravault.Config.Keys.{
  IsSize, IsName, log_level_to_string-IsPlain, manifest_db_name_line, log_file_path_line,
  hash_algorithm_line, cdc_chunk_size_line, large_file_threshold_line, log_rotation_size_line,
  exclude_patterns_line, log_level_line, quorum_threshold_line, comment_line, empty_line,
}
use caravault.Config.Validation.{validate_of_IsInRange}

module _ {D : Type 0} (f : Doubles D) where
  -- Settings that a file can hold: names and patterns are plain, sizes are in range, and the threshold is
  -- one that is printed on a plain text and read back from it.
  pub record IsSavable (cfg : Config D) : Type 0 where
    pub manifest_db_name : IsName cfg.manifest_db_name
    pub log_file_path : IsName cfg.log_file_path
    pub exclude_patterns : All IsToken cfg.exclude_patterns
    pub printed : IsPlain (f.print cfg.quorum_threshold)
    pub read_back : f.stod (f.print cfg.quorum_threshold) ≡ some cfg.quorum_threshold
    pub inside : f.is_inside cfg.quorum_threshold ≡ true
    pub not_outside : f.is_outside cfg.quorum_threshold ≡ false
    pub hash_algorithm : IsName cfg.hash_algorithm
    pub cdc_chunk_size : IsSize cfg.cdc_chunk_size
    pub large_file_threshold : IsSize cfg.large_file_threshold
    pub log_rotation_size : IsSize cfg.log_rotation_size

  validate_valid : (cfg : Config D) → IsSavable cfg → validate f cfg ≡ (true, cfg)
  validate_valid cfg h = validate_of_IsInRange f cfg (record {
    manifest_db_name = h.manifest_db_name.0;
    log_file_path = h.log_file_path.0;
    quorum_threshold = h.not_outside;
    hash_algorithm = h.hash_algorithm.0;
    cdc_chunk_size = positive h.cdc_chunk_size.0;
    large_file_threshold = positive h.large_file_threshold.0;
    log_rotation_size = positive h.log_rotation_size.0;
  })
    where
      positive : {n : ℕ} → 0 < n → (n == 0) ≡ false
      positive {n} p = ground (arith, p)

  setting-NoByte :
      (key : String) (value : Text)
      → NoByte 10 (text key)
      → IsPlain value
      → NoByte 10 (setting f key value)
  setting-NoByte key value h p = NoByte-append 10 (text key) (61 ∷ value) h (refl, p.no_newline)

  split-save_to_file :
      (cfg : Config D) → IsSavable cfg → split 10 (save_to_file f cfg) ≡ saved_lines f cfg
  unfolding save_to_file
  split-save_to_file cfg h = split-print_lines (saved_lines f cfg) (
    ground arith,
    (
      tt,
      (
        setting-NoByte "manifest_db_name" _ (ground arith) h.manifest_db_name.1,
        (
          setting-NoByte "log_file_path" _ (ground arith) h.log_file_path.1,
          (
            setting-NoByte "exclude_patterns" _ (ground arith)
                (join_csv-IsPlain cfg.exclude_patterns h.exclude_patterns),
            (
              setting-NoByte "quorum_threshold" _ (ground arith) h.printed,
              (
                setting-NoByte "hash_algorithm" _ (ground arith) h.hash_algorithm.1,
                (
                  setting-NoByte "cdc_chunk_size" _ (ground arith)
                      (decimal-IsPlain cfg.cdc_chunk_size),
                  (
                    setting-NoByte "large_file_threshold" _ (ground arith)
                        (decimal-IsPlain cfg.large_file_threshold),
                    (
                      setting-NoByte "log_level" _ (ground arith)
                          (log_level_to_string-IsPlain cfg.log_level),
                      (
                        setting-NoByte "log_rotation_size" _ (ground arith)
                            (decimal-IsPlain cfg.log_rotation_size),
                        tt,
                      ),
                    ),
                  ),
                ),
              ),
            ),
          ),
        ),
      ),
    ),
  )

  load_lines-saved_lines :
      (cfg before : Config D) → IsSavable cfg → load_lines f (saved_lines f cfg) before ≡ cfg
  unfolding load_lines
  load_lines-saved_lines cfg before h =
      rw
        (
          comment_line f,
          empty_line f,
          manifest_db_name_line f _ _ h.manifest_db_name,
          log_file_path_line f _ _ h.log_file_path,
          exclude_patterns_line f _ _ h.exclude_patterns,
          quorum_threshold_line f _ _ h.printed h.read_back h.inside,
          hash_algorithm_line f _ _ h.hash_algorithm,
          cdc_chunk_size_line f _ _ h.cdc_chunk_size,
          large_file_threshold_line f _ _ h.large_file_threshold,
          log_level_line f,
          log_rotation_size_line f _ _ h.log_rotation_size,
        )
        refl

  -- Settings that a file can hold are saved and, whatever they are loaded over, loaded as they were.
  pub load_from_file-save_to_file :
      (cfg before : Config D)
      → IsSavable cfg
      → load_from_file f (some (save_to_file f cfg)) before ≡ cfg
  unfolding load_from_file
  load_from_file-save_to_file cfg before h =
      ap (λ lines. (validate f (load_lines f lines before)).1) (split-save_to_file cfg h)
      ∙ rw (load_lines-saved_lines cfg before h, validate_valid cfg h) refl
