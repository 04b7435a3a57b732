-- ===== src/Config/Loader.antt =====
-- src/config/loader.rs: ConfigLoader. A text is a list of code points; `toml_from_str` is the TOML
-- parser, `exists` and `read_to_string` are the file system, and `is_ip` is as in Config/Validate.
use gsc_fq.Common.{
  ℕ, zero, suc, ◌+◌, ◌-◌, ◌*◌, Bool, true, false, not, ◌&&◌, ◌||◌, Option, none, some, List, [],
  ◌∷◌, ◌++◌, arith, leb, ltb, ◌==◌, if◌then◌else◌, Bytes, bytes_eq, codes, length, take, min, map,
}
use gsc_fq.Common.Results.{Result, ok, err}
use gsc_fq.Config.Text.{
  is_whitespace, trim, trim_start, leading, byte_len, take_bytes, utf8, before, strip_prefix,
}
use gsc_fq.Config.Special.{sanitize_special_values, offset_to_line_col}
use gsc_fq.Config.Validate.{ConfigFile, Issue, Warning, to_lower, is_null, validate}
pub mod Search
pub mod Tests

-- A loaded value, an error, or a panic.
pub data LoadError : Type 0 where
  missing_required_field : Bytes → LoadError
  invalid_toml_format : ℕ → ℕ → Bytes → LoadError
  invalid_config : List Issue → LoadError
  config_file_not_found : List Bytes → LoadError
  read_failed : Bytes → Bytes → LoadError

pub data Loaded (A : Type 0) : Type 0 where
  loaded : A → Loaded A
  failed : LoadError → Loaded A
  panicked : Loaded A

infixl 5 ◌>>=◌
abbrev pub ◌>>=◌ : {A B : Type 0} → Loaded A → (A → Loaded B) → Loaded B
loaded a >>= f = f a
failed e >>= f = failed e
panicked >>= f = panicked

abbrev pub or_panic : {A : Type 0} → Option A → Loaded A
or_panic none = panicked
or_panic (some a) = loaded a

-- What the TOML parser says of an error.
pub record TomlError : Type 0 where
  pub message : Bytes
  pub span_start : Option ℕ

abbrev pub position : Bytes → Option ℕ → ℕ × ℕ
unfolding offset_to_line_col utf8
position content none = (0, 0)
position content (some start) = offset_to_line_col (utf8 content) start

-- The name of a missing field in a message, between back ticks.
unfoldable pub missing_field : Bytes → Option Bytes
unfolding strip_prefix before
missing_field message = elim (strip_prefix (codes "missing field `") message) [
  | none ↦ none
  | some field ↦ before 96 field
]

unfoldable pub map_toml_error : Bytes → TomlError → LoadError
unfolding missing_field position
map_toml_error content error = elim (missing_field error.message) [
  | some field ↦ missing_required_field field
  | none ↦
      let (line, column) = position content error.span_start in
      invalid_toml_format line column error.message
]

abbrev pub parsed : {A E : Type 0} → (E → LoadError) → Result A E → Loaded A
parsed f (ok a) = loaded a
parsed f (err e) = failed (f e)

pub data ReadError : Type 0 where
  not_found : ReadError
  unreadable : Bytes → ReadError

abbrev pub read_error : Bytes → ReadError → LoadError
read_error path not_found = config_file_not_found (path ∷ [])
read_error path (unreadable message) = read_failed path message

abbrev pub is_config_flag : Bytes → Bool
is_config_flag arg = bytes_eq arg (codes "-c") || bytes_eq arg (codes "--config")

-- The loop over the arguments behind the program's name.
unfoldable pub flag_value : List Bytes → Option Bytes
flag_value [] = none
flag_value (a ∷ []) = none
flag_value (a ∷ b ∷ rest) =
    let later = flag_value (b ∷ rest) in if is_config_flag a then some b else later

unfoldable pub get_cli_config_path : List Bytes → Option Bytes
unfolding flag_value
get_cli_config_path [] = none
get_cli_config_path (program ∷ args) = flag_value args

abbrev pub get_config_search_paths : List Bytes
get_config_search_paths = codes "default.toml" ∷ codes "config.toml" ∷ codes "gsc-fq.toml" ∷ []

unfoldable pub get_runtime_mode : ConfigFile → Bytes
get_runtime_mode c =
    if c.has_client
    then codes "reverse_client"
    else if c.has_server
    then codes "reverse_server"
    else elim c.proxies [ [] ↦ codes "unknown" | p ∷ ps ↦ codes "forward" ]

abbrev pub with_warnings :
    List Warning → ConfigFile × List Warning → Loaded (ConfigFile × List Warning)
with_warnings warnings (config, more) = loaded (config, warnings ++ more)

unfoldable pub validated :
    (Bytes → Bool) → List Warning → ConfigFile → Loaded (ConfigFile × List Warning)
unfolding validate trim
validated is_ip warnings config =
    parsed invalid_config (validate trim is_ip config) >>= with_warnings warnings

-- One of the default paths, if a file is there and loads; else the rest of the search.
abbrev pub or_later :
    Bytes → Loaded ConfigFile → Loaded (ConfigFile × Bytes) → Loaded (ConfigFile × Bytes)
or_later path (loaded config) later = loaded (config, path)
or_later path (failed e) later = later
or_later path panicked later = panicked

module _ (is_ip : Bytes → Bool) (toml_from_str : Bytes → Result ConfigFile TomlError) where
  unfoldable pub from_sanitized : Bytes × List Warning → Loaded (ConfigFile × List Warning)
  unfolding map_toml_error validated
  from_sanitized (sanitized, warnings) =
      parsed (map_toml_error sanitized) (toml_from_str sanitized) >>= validated is_ip warnings

  unfoldable pub load_from_str_with_warnings : Bytes → Loaded (ConfigFile × List Warning)
  unfolding sanitize_special_values from_sanitized
  load_from_str_with_warnings content =
      or_panic (sanitize_special_values content) >>= from_sanitized

  -- The warnings go to the standard error.
  unfoldable pub load_from_str : Bytes → Loaded ConfigFile
  unfolding load_from_str_with_warnings
  load_from_str content = load_from_str_with_warnings content >>= λ r. loaded r.0

  module _ (exists : Bytes → Bool) (read_to_string : Bytes → Result Bytes ReadError) where
    unfoldable pub load_from_file : Bytes → Loaded ConfigFile
    unfolding load_from_str
    load_from_file path = parsed (read_error path) (read_to_string path) >>= load_from_str

    unfoldable pub search_paths : List Bytes → Loaded (ConfigFile × Bytes)
    unfolding load_from_file
    search_paths [] = failed (config_file_not_found get_config_search_paths)
    search_paths (path ∷ paths) =
        let later = search_paths paths in
        if exists path then or_later path (load_from_file path) later else later

    unfoldable pub load_with_search : List Bytes → Loaded (ConfigFile × Bytes)
    unfolding search_paths load_from_file get_cli_config_path
    load_with_search args = elim (get_cli_config_path args) [
      | some path ↦
          if exists path
          then (load_from_file path >>= λ config. loaded (config, path))
          else failed (config_file_not_found (path ∷ []))
      | none ↦ search_paths get_config_search_paths
    ]
