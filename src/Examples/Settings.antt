-- ===== src/Examples/Settings.antt =====
-- Settings of src/config.cpp, with thresholds in thousandths.
use caravault.Base.{◌≡◌, ◌↔◌, refl, ◌∷◌, [], text, arith, true, some, ltb, ◌&&◌, not, ℕ}
use caravault.VersionVector.Json.{decimal, max_digits}
use caravault.Config.{Config, Doubles, defaults, save_to_file, load_from_file, validate}
use caravault.Config.Parsing.{parse_positive, trim_right}
use caravault.Config.Lines.{IsPlain}
use caravault.Config.Values.{decimal-IsPlain, parse_positive-decimal}
use caravault.Config.Saving.{IsSavable, load_from_file-save_to_file}
use caravault.Config.Validation.{AreMended, IsInRange, validate_lem}

abbrev thousandths : Doubles ℕ
thousandths = record {
  stod = parse_positive;
  print = decimal max_digits;
  is_inside = λ v. ltb 0 v && ltb v 1000;
  is_outside = λ v. not (ltb 0 v && ltb v 1000);
  half = 500;
}

abbrev settings : Config ℕ
settings = record (defaults thousandths) { exclude_patterns = text "*.tmp" ∷ text ".git" ∷ [] }

patterns-IsPlain : IsPlain (text "*.tmp") × IsPlain (text ".git")
unfolding trim_right
patterns-IsPlain = (
  record { no_newline = ground arith; no_hash = ground arith; left = refl; right = refl },
  record { no_newline = ground arith; no_hash = ground arith; left = refl; right = refl },
)

names-IsPlain :
    IsPlain (text ".caravault/manifest.db")
    × IsPlain (text ".caravault/caravault.log")
    × IsPlain (text "SHA256")
unfolding trim_right
names-IsPlain = (
  record { no_newline = ground arith; no_hash = ground arith; left = refl; right = refl },
  record { no_newline = ground arith; no_hash = ground arith; left = refl; right = refl },
  record { no_newline = ground arith; no_hash = ground arith; left = refl; right = refl },
)

settings-IsSavable : IsSavable thousandths settings
settings-IsSavable = record {
  manifest_db_name = (refl, names-IsPlain.0);
  log_file_path = (refl, names-IsPlain.1);
  exclude_patterns = (
    record { filled = refl; no_comma = ground arith; plain = patterns-IsPlain.0 },
    (record { filled = refl; no_comma = ground arith; plain = patterns-IsPlain.1 }, tt),
  );
  printed = decimal-IsPlain 500;
  read_back = parse_positive-decimal 500 (omega arith) (omega arith);
  inside = refl;
  not_outside = refl;
  hash_algorithm = (refl, names-IsPlain.2);
  cdc_chunk_size = (omega arith, omega arith);
  large_file_threshold = (omega arith, omega arith);
  log_rotation_size = (omega arith, omega arith);
}

load_from_file-save_to_file_example :
    load_from_file thousandths (some (save_to_file thousandths settings)) (defaults thousandths)
    ≡ settings
load_from_file-save_to_file_example =
    load_from_file-save_to_file thousandths settings (defaults thousandths) settings-IsSavable

abbrev empty_settings : Config ℕ
empty_settings = record settings { cdc_chunk_size = 0; hash_algorithm = [] }

validate_lem_example :
    AreMended thousandths empty_settings (validate thousandths empty_settings).1
    × IsInRange thousandths (validate thousandths empty_settings).1
    × (validate thousandths (validate thousandths empty_settings).1
        ≡ (true, (validate thousandths empty_settings).1))
    × (((validate thousandths empty_settings).0 ≡ true) ↔ IsInRange thousandths empty_settings)
validate_lem_example = validate_lem thousandths empty_settings refl
