-- ===== src/Platform.antt =====
-- What the program calls and does not implement: cJSON, the HTTP server's send, MD5, the conversion
-- of text to floating point. The documents that the handlers build are data here; how cJSON prints
-- them, and how it finds an item of a request's body, is a parameter.
use esp32_idf_ascom_alpaca.Base.{ℕ, ◌≡◌, Bool, false, Option, none, some, List, [], ◌∷◌, ℤ, true}
use esp32_idf_ascom_alpaca.Base.Text.{Bytes, str_eq}
use esp32_idf_ascom_alpaca.Device.{Double}
use esp32_idf_ascom_alpaca.Double.{is_nan}

-- An entry of the list of configured devices.
pub record ConfiguredDevice : Type 0 where
  pub device_name : Bytes
  pub device_type : Bytes
  pub device_number : ℕ
  pub unique_id : Bytes

-- The values that handlers add to a response. `int` is a number that is an integer, `num` any
-- other, `strings` an object whose members are strings, `rates` an array of objects with a `Minimum`
-- and a `Maximum`.
pub data Value : Type 0 where
  bool : Bool → Value
  int : ℤ → Value
  num : Double → Value
  str : Bytes → Value
  ints : List ℤ → Value
  strs : List Bytes → Value
  strings : List (Bytes × Bytes) → Value
  devices : List ConfiguredDevice → Value
  rates : List (Double × Double) → Value

-- What a handler adds as `Value` to the response when its driver reports success: nothing, a value,
-- or what a variable or a buffer holds that neither the handler nor the driver has written.
pub data Added : Type 0 where
  unwritten no_item : Added
  item : Value → Added

-- The members of an object, in the order in which they are added.
abbrev pub Document : Type 0
Document = List (Bytes × Value)

-- The parsed parameters of a request, in the order in which they are added.
abbrev pub Body : Type 0
Body = List (Bytes × Bytes)

-- What is handed to `httpd_resp_send`; `content_type` is empty where none is set.
pub record Response : Type 0 where
  pub status : ℕ
  pub content_type : Bytes
  pub headers : List (Bytes × Bytes)
  pub text : Bytes

pub record Platform : Type 0 where
  -- `cJSON_PrintPreallocated` into a zeroed buffer: the text that the buffer then holds.
  pub print_preallocated : Document → ℕ → Bytes
  -- `cJSON_GetStringValue` of `cJSON_GetObjectItemCaseSensitive`, and of `cJSON_GetObjectItem`.
  pub get_item_case_sensitive : Body → Bytes → Option Bytes
  pub get_item : Body → Bytes → Option Bytes
  -- `cJSON_GetNumberValue`, `cJSON_IsBool` and `cJSON_IsTrue` of a string item, or of NULL.
  pub get_number : Option Bytes → Double
  pub is_bool : Option Bytes → Bool
  pub is_true : Option Bytes → Bool
  pub atof : Bytes → Double
  -- The value, and the bytes from `endptr` on.
  pub strtof : Bytes → Double × Bytes
  pub strtod : Bytes → Double × Bytes
  -- The error code of `httpd_resp_send`.
  pub resp_send : Response → ℤ
  -- The 16 bytes of a digest.
  pub md5 : Bytes → List ℕ

-- What cJSON documents of a lookup by name: the first member of that name is found.
pub record FindsItems (p : Platform) : Type 0 where
  pub empty : (key : Bytes) → p.get_item_case_sensitive [] key ≡ none
  pub found :
      (b : Body) (key value : Bytes) → p.get_item_case_sensitive ((key, value) ∷ b) key ≡ some value
  pub passed :
      (b : Body) (k key value : Bytes)
      → str_eq k key ≡ false
      → p.get_item_case_sensitive ((k, value) ∷ b) key ≡ p.get_item_case_sensitive b key

-- What cJSON documents of the value of an item that is a string, or is not there: it has no number,
-- and is no Boolean.
pub record ReadsStrings (p : Platform) : Type 0 where
  pub no_number : (item : Option Bytes) → is_nan (p.get_number item) ≡ true
  pub no_bool : (item : Option Bytes) → p.is_bool item ≡ false
