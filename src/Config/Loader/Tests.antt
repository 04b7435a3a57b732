-- ===== src/Config/Loader/Tests.antt =====
-- src/config/loader.rs: sanitizing, positions and searches at inputs.
use gsc_fq.Common.{
  ◌≡◌, inr, refl, Bool, true, false, none, some, List, [], ◌∷◌, ◌++◌, Bytes, bytes_eq, codes,
}
use gsc_fq.Common.Results.{Result, ok}
use gsc_fq.Config.Text.{
  trim, trim_start, leading, is_whitespace, len_utf8, byte_len, take_bytes, before, strip_prefix,
}
use gsc_fq.Config.Validate.{ConfigFile, is_null}
use gsc_fq.Config.Special.{
  split_inclusive, split_at_eq, ends_word, quote_null, sanitize_line, sanitize_lines,
  sanitize_special_values, offset_to_line_col,
}
use gsc_fq.Config.Loader.{
  Loaded, missing_required_field, ReadError, TomlError, missing_field, map_toml_error,
  load_with_search,
}
use gsc_fq.Config.Special.Position.{offset_to_line_col-place}

quoted :
    sanitize_special_values (codes "a = null\nSource_IP = NULL # none\n")
    ≡ some (codes "a = null\nSource_IP = \"null\" # none\n", [])
unfolding sanitize_special_values sanitize_lines split_inclusive sanitize_line split_at_eq
    quote_null ends_word trim trim_start leading is_whitespace len_utf8 byte_len take_bytes is_null
quoted = refl

-- source_ip = "é日", without the spaces: 233 is é and 26085 is 日.
cut_inside : sanitize_special_values (codes "source_ip=\"" ++ (233 ∷ 26085 ∷ b'"' ∷ [])) ≡ none
unfolding sanitize_special_values sanitize_lines split_inclusive sanitize_line split_at_eq
    quote_null ends_word trim trim_start leading is_whitespace len_utf8 byte_len take_bytes is_null
cut_inside = refl

missing :
    map_toml_error [] (record { message = codes "missing field `local` in x"; span_start = none })
    ≡ missing_required_field (codes "local")
unfolding map_toml_error missing_field strip_prefix before
missing = refl

abbrev config : ConfigFile
config = record {
  server = none;
  proxies = [];
  reverse_proxies = [];
  has_server = false;
  has_client = false;
}

abbrev is_ip : Bytes → Bool
is_ip s = true

abbrev toml_from_str : Bytes → Result ConfigFile TomlError
toml_from_str content = ok config

abbrev exists : Bytes → Bool
exists path = bytes_eq path (codes "config.toml")

abbrev read_to_string : Bytes → Result Bytes ReadError
read_to_string path = ok []

abbrev search : List Bytes → Loaded (ConfigFile × Bytes)
search = load_with_search is_ip toml_from_str exists read_to_string

place_of_e : offset_to_line_col ((codes "a\nb\r" ++ codes "cd") ++ codes "e") 6 ≡ (2, 3)
place_of_e =
    offset_to_line_col-place (codes "a\nb\r") (codes "cd") (codes "e") (refl, (refl, tt))
      (inr (codes "a\nb", 13, refl, refl))
