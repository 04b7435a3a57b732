-- ===== src/Config/Loader/Search.antt =====
-- src/config/loader.rs: which file is loaded, and that it was validated.
use gsc_fq.Common.{◌≡◌, ◌⊎◌, Bool, true, false, List, ◌∷◌, ◌++◌, Bytes, All}
use gsc_fq.Common.Results.{Result, ok}
use gsc_fq.Config.Text.{trim}
use gsc_fq.Config.Validate.{ConfigFile, Warning, validate}
use gsc_fq.Config.Loader.{LoadError, loaded, failed, ReadError, TomlError, load_from_file}

-- A configuration that validation has accepted.
pub IsValidated : (Bytes → Bool) → ConfigFile → Type 0
IsValidated is_ip c =
    (raw : ConfigFile) × (ws : List Warning) × (validate trim is_ip raw ≡ ok (c, ws))

module _ (is_ip : Bytes → Bool) (toml_from_str : Bytes → Result ConfigFile TomlError) where
  module _ (exists : Bytes → Bool) (read_to_string : Bytes → Result Bytes ReadError) where
    -- A path that the search passes over: no file is there, or it does not load.
    pub Passed : Bytes → Type 0
    Passed path =
        (exists path ≡ false)
        ⊎ ((e : LoadError) × (load_from_file is_ip toml_from_str exists read_to_string path
              ≡ failed e))

    -- The first of some paths that loads.
    pub record FirstOf (paths : List Bytes) (c : ConfigFile) (path : Bytes) : Type 0 where
      pub before : List Bytes
      pub after : List Bytes
      pub place : paths ≡ before ++ (path ∷ after)
      pub passed : All Passed before
      pub there : exists path ≡ true
      pub loads : load_from_file is_ip toml_from_str exists read_to_string path ≡ loaded c
