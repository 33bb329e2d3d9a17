-- ===== src/Config/Validation.antt =====
-- `validate` of src/config.cpp.
use caravault.Base.{
  ℕ, ◌≡◌, ◌↔◌, ◌⊎◌, ap, not, ◌&&◌, if◌then◌else◌, Bool, arith, refl, true, false, [], ◌∷◌, ◌==◌,
  is_empty, Text, text, text_ord, Bool-cases, inl, inr, String,
}
use caravault.Config.{Config, Doubles, validate, text_or, size_or}

-- A value is kept where it passes its check, and else is the default.
abbrev pub IsMended : {A : Type 0} → Bool → A → A → A → Type 0
IsMended fails default old new =
    ((fails ≡ false) × (new ≡ old)) ⊎ ((fails ≡ true) × (new ≡ default))

mended :
    {A : Type 0} (fails : Bool) (default old : A)
    → IsMended fails default old (if fails then default else old)
mended true default old = inr (refl, refl)
mended false default old = inl (refl, refl)

-- A conjunction of tests that do not fail.
and_not : (p q : Bool) → (not p && q) ≡ true → (p ≡ false) × (q ≡ true)
and_not p q h = ground arith

module _ {D : Type 0} (f : Doubles D) where
  -- Every value passes its check.
  pub record IsInRange (cfg : Config D) : Type 0 where
    pub manifest_db_name : is_empty cfg.manifest_db_name ≡ false
    pub log_file_path : is_empty cfg.log_file_path ≡ false
    pub quorum_threshold : f.is_outside cfg.quorum_threshold ≡ false
    pub hash_algorithm : is_empty cfg.hash_algorithm ≡ false
    pub cdc_chunk_size : (cfg.cdc_chunk_size == 0) ≡ false
    pub large_file_threshold : (cfg.large_file_threshold == 0) ≡ false
    pub log_rotation_size : (cfg.log_rotation_size == 0) ≡ false

  pub validate_of_IsInRange : (cfg : Config D) → IsInRange cfg → validate f cfg ≡ (true, cfg)
  unfolding validate
  validate_of_IsInRange cfg h =
      rw
        (
          h.manifest_db_name, h.log_file_path, h.quorum_threshold, h.hash_algorithm,
          h.cdc_chunk_size, h.large_file_threshold, h.log_rotation_size,
        )
        refl

  text_or-filled :
      (default : String) (v : Text)
      → is_empty (text default) ≡ false
      → is_empty (text_or f default v) ≡ false
  text_or-filled default [] h = h
  text_or-filled default (c ∷ v) h = refl

  size_or-positive : (default v : ℕ) → (default == 0) ≡ false → (size_or f default v == 0) ≡ false
  size_or-positive default v h = elim (Bool-cases (v == 0)) [ inl t ↦ rw t h | inr u ↦ rw u u ]

  -- Each value is mended on its own, and the log level and the patterns stay.
  pub record AreMended (old new : Config D) : Type 0 where
    pub manifest_db_name :
        IsMended
          (is_empty old.manifest_db_name)
          (text ".caravault/manifest.db")
          old.manifest_db_name
          new.manifest_db_name
    pub log_file_path :
        IsMended
          (is_empty old.log_file_path)
          (text ".caravault/caravault.log")
          old.log_file_path
          new.log_file_path
    pub quorum_threshold :
        IsMended
          (f.is_outside old.quorum_threshold)
          f.half
          old.quorum_threshold
          new.quorum_threshold
    pub hash_algorithm :
        IsMended (is_empty old.hash_algorithm) (text "SHA256") old.hash_algorithm new.hash_algorithm
    pub cdc_chunk_size :
        IsMended (old.cdc_chunk_size == 0) 65536 old.cdc_chunk_size new.cdc_chunk_size
    pub large_file_threshold :
        IsMended
          (old.large_file_threshold == 0)
          1048576
          old.large_file_threshold
          new.large_file_threshold
    pub log_rotation_size :
        IsMended (old.log_rotation_size == 0) 10485760 old.log_rotation_size new.log_rotation_size
    pub exclude_patterns : new.exclude_patterns ≡ old.exclude_patterns
    pub log_level : new.log_level ≡ old.log_level

  validate-AreMended : (cfg : Config D) → AreMended cfg (validate f cfg).1
  unfolding validate
  validate-AreMended cfg = record {
    manifest_db_name = mended (is_empty cfg.manifest_db_name) _ cfg.manifest_db_name;
    log_file_path = mended (is_empty cfg.log_file_path) _ cfg.log_file_path;
    quorum_threshold = mended (f.is_outside cfg.quorum_threshold) _ cfg.quorum_threshold;
    hash_algorithm = mended (is_empty cfg.hash_algorithm) _ cfg.hash_algorithm;
    cdc_chunk_size = mended (cfg.cdc_chunk_size == 0) _ cfg.cdc_chunk_size;
    large_file_threshold = mended (cfg.large_file_threshold == 0) _ cfg.large_file_threshold;
    log_rotation_size = mended (cfg.log_rotation_size == 0) _ cfg.log_rotation_size;
    exclude_patterns = refl;
    log_level = refl;
  }

  IsInRange-of_validate : (cfg : Config D) → (validate f cfg).0 ≡ true → IsInRange cfg
  unfolding validate
  IsInRange-of_validate cfg h =
      let (a, h1) = and_not (is_empty cfg.manifest_db_name) _ h in
      let (b, h2) = and_not (is_empty cfg.log_file_path) _ h1 in
      let (c, h3) = and_not (f.is_outside cfg.quorum_threshold) _ h2 in
      let (d, h4) = and_not (is_empty cfg.hash_algorithm) _ h3 in
      let (e, h5) = and_not (cfg.cdc_chunk_size == 0) _ h4 in
      let (g, h6) = and_not (cfg.large_file_threshold == 0) _ h5 in
      record {
        manifest_db_name = a;
        log_file_path = b;
        quorum_threshold = c;
        hash_algorithm = d;
        cdc_chunk_size = e;
        large_file_threshold = g;
        log_rotation_size = ground arith;
      }

  validated-IsInRange :
      (cfg : Config D) → f.is_outside f.half ≡ false → IsInRange (validate f cfg).1
  validated-IsInRange cfg h =
      unfold validate in
      record {
        manifest_db_name = text_or-filled ".caravault/manifest.db" cfg.manifest_db_name refl;
        log_file_path = text_or-filled ".caravault/caravault.log" cfg.log_file_path refl;
        quorum_threshold = elim (Bool-cases (f.is_outside cfg.quorum_threshold)) [
          | inl t ↦ rw t h
          | inr u ↦ rw u u
        ];
        hash_algorithm = text_or-filled "SHA256" cfg.hash_algorithm refl;
        cdc_chunk_size = size_or-positive 65536 cfg.cdc_chunk_size refl;
        large_file_threshold = size_or-positive 1048576 cfg.large_file_threshold refl;
        log_rotation_size = size_or-positive 10485760 cfg.log_rotation_size refl;
      }

  -- Where 0.5 is not outside its range: a value that passes its check is kept, and one that fails becomes its
  -- default; the settings at the end pass every check, and validating them again keeps them; the flag tells
  -- whether all values passed before.
  pub validate_lem :
      (cfg : Config D)
      → f.is_outside f.half ≡ false
      → AreMended cfg (validate f cfg).1
        × IsInRange (validate f cfg).1
        × (validate f (validate f cfg).1 ≡ (true, (validate f cfg).1))
        × (((validate f cfg).0 ≡ true) ↔ IsInRange cfg)
  validate_lem cfg h = (
    validate-AreMended cfg,
    validated-IsInRange cfg h,
    validate_of_IsInRange (validate f cfg).1 (validated-IsInRange cfg h),
    (IsInRange-of_validate cfg, (λ r. ap (λ x. x.0) (validate_of_IsInRange cfg r))),
  )
