-- ===== src/Json.antt =====
-- What cJSON documents of `cJSON_PrintPreallocated`, and of the JSON text that it prints without
-- formatting.
use esp32_idf_ascom_alpaca.Platform.{
  bool, int, num, str, ints, strs, strings, devices, rates, ConfiguredDevice, Value, Document,
  Platform,
}
use esp32_idf_ascom_alpaca.Base.{ℕ, ◌+◌, ◌≤◌, ◌≡◌, List, [], ◌∷◌, length}
use esp32_idf_ascom_alpaca.Base.Text.{Bytes, c_str}

-- The least length of the text of a device's entry: its four names with their quotes and colons, the
-- braces, the commas, one digit, and the three texts with their quotes.
abbrev pub least_entry : ConfiguredDevice → ℕ
least_entry e = 64 + (length e.device_name + (length e.device_type + length e.unique_id))

abbrev pub least_entries : List ConfiguredDevice → ℕ
least_entries [] = 0
least_entries (e ∷ es) = least_entry e + least_entries es

-- The least length of a value's text; no escape makes a text shorter.
abbrev pub least_value : Value → ℕ
least_value (bool b) = 4
least_value (int n) = 1
least_value (num x) = 1
least_value (str s) = 2 + length s
least_value (ints ns) = 2
least_value (strs ss) = 2
least_value (strings ms) = 2
least_value (devices es) = 2 + least_entries es
least_value (rates rs) = 2

-- The same of a document, with its braces and the quotes and the colon of each name.
abbrev pub least_document : Document → ℕ
least_document [] = 2
least_document ((name, v) ∷ d) = length name + 3 + least_value v + least_document d

-- The text of a document, and how it is printed into a buffer: whole, if five bytes are left over, and
-- never past the end.
pub record PrintsJson (p : Platform) : Type 0 where
  pub json : Document → Bytes
  pub no_nul : (d : Document) → c_str (json d) ≡ json d
  pub least : (d : Document) → least_document d ≤ length (json d)
  pub whole : (d : Document) (n : ℕ) → length (json d) + 5 ≤ n → p.print_preallocated d n ≡ json d
  pub within : (d : Document) (n : ℕ) → length (p.print_preallocated d n) ≤ n
