-- ===== src/Handler/Contract.antt =====
-- What every device handler keeps, whatever the drivers do: which part of the state it may change,
-- and when it ends in undefined behaviour.
use esp32_idf_ascom_alpaca.Handler.Written.{
  AddsWritten, IsWritten, DriverFills, ClassFills, check_return_ok,
}
use esp32_idf_ascom_alpaca.Base.{
  All, ◌+◌, ◌≤◌, ◌≡◌, refl, ◌⊎◌, inl, inr, Option, arith, length, ℤ, some, Bool-cases,
  if◌then◌else◌, eq_ℤ, none, All-get_elem?, ◌∙◌, Bool, true, false, [], List,
}
use esp32_idf_ascom_alpaca.Server.{Server, esp_err_not_found}
use esp32_idf_ascom_alpaca.Request.Answers.{
  Outcome, Handler, fault, done, error_response, error_status, send_json_response, json_response,
  json_status,
}
use esp32_idf_ascom_alpaca.Base.Text.{Bytes}
use esp32_idf_ascom_alpaca.Platform.{unwritten, no_item, Platform, Response, Added, Document, item}
use esp32_idf_ascom_alpaca.Request.{scan_uri, HttpdReq, next_id, AlpacaRequest, count_request}
use esp32_idf_ascom_alpaca.Server.Devices.{IsGrouped, type_eq_sound}
use esp32_idf_ascom_alpaca.Handler.{
  answer, answer_not_implemented, reject, with_device, call_method, call_downcast, common_handler,
  device_handler, send_added,
}
use esp32_idf_ascom_alpaca.Device.{
  Called, Device, DeviceType, Kind, kind_type, device_type, Method, DeviceOps, type_eq,
}
use esp32_idf_ascom_alpaca.Handler.Prologue.{with_device-cases}
use esp32_idf_ascom_alpaca.Server.Errors.{check_return}

-- The state after a request from state `s`, and the response. The API object keeps all but the
-- transaction counter, which goes up by one. Either the answer is 200, and all documents are freed;
-- or it is 400 or 404, no driver was called, and one document is left allocated.
pub record Keeps {W : Type 0} (s : Server W) (resp : Response) (s' : Server W) : Type 0 where
  pub api : s'.api ≡ record (s.api) { server_transaction_id = next_id s.api.server_transaction_id }
  pub messages : s'.err_msg_func ≡ s.err_msg_func
  pub ending :
      ((resp.status ≡ 200) × (s'.live_json ≡ s.live_json))
      ⊎ (((resp.status ≡ 400) ⊎ (resp.status ≡ 404))
          × (s'.world ≡ s.world)
          × (s'.live_json ≡ s.live_json + 1))

abbrev pub Accounts : {W : Type 0} → Server W → Outcome W → Type 0
Accounts s (fault f) = Unit
Accounts s (done err resp s') = Keeps s resp s'

-- No undefined behaviour.
abbrev pub IsAnswered : {W : Type 0} → Outcome W → Type 0
IsAnswered (fault f) = ⊥
IsAnswered (done err resp s') = Unit

-- The device type's text in the URI fits the buffer of 32 bytes with its NUL.
abbrev pub FitsBuffer : Bytes → Type 0
FitsBuffer uri = length (scan_uri uri).0 ≤ 31

-- Every driver fills what the handlers leave uninitialised.
abbrev pub AllFill : {W : Type 0} → (DeviceType → List (Device W)) → Type 0
AllFill devices = (t : DeviceType) → All DriverFills (devices t)

pub record Contract {W : Type 0} (h : Handler W) : Type 0 where
  pub accounts : (req : HttpdReq) (s : Server W) → Accounts s (h req s)
  pub safe :
      (req : HttpdReq) (s : Server W)
      → IsGrouped s.api.devices
      → AllFill s.api.devices
      → FitsBuffer req.uri
      → IsAnswered (h req s)

-- The state in which a handler goes on behind the lookup of its device.
pub record Started {W : Type 0} (s s' : Server W) : Type 0 where
  pub api : s'.api ≡ record (s.api) { server_transaction_id = next_id s.api.server_transaction_id }
  pub messages : s'.err_msg_func ≡ s.err_msg_func
  pub world : s'.world ≡ s.world
  pub live : s'.live_json ≡ s.live_json + 2

module _ {W : Type 0} (p : Platform) (r : AlpacaRequest) {s s' : Server W} (st : Started s s') where
  send_added-Accounts :
      (w : W) (root : Document) (fine : Bool) (added : Added)
      → Accounts s (send_added p r (record s' { world = w }) root fine added)
        × ((fine ≡ true → IsWritten added)
            → IsAnswered (send_added p r (record s' { world = w }) root fine added))
  unfolding send_added send_json_response json_response json_status
  send_added-Accounts w root true unwritten = (tt, λ h. h refl)
  send_added-Accounts w root false unwritten = (
    record { api = st.api; messages = st.messages; ending = inl (refl, omega (arith, st.live)) },
    λ h. tt,
  )
  send_added-Accounts w root fine no_item = (
    record { api = st.api; messages = st.messages; ending = inl (refl, omega (arith, st.live)) },
    λ h. tt,
  )
  send_added-Accounts w root fine (item v) = (
    record { api = st.api; messages = st.messages; ending = inl (refl, omega (arith, st.live)) },
    λ h. tt,
  )

  answer-Accounts :
      {B : Type 0} (value : B → Added) (called : Called W B)
      → Accounts s (answer p r value called s')
        × (AddsWritten value called → IsAnswered (answer p r value called s'))
  unfolding answer
  answer-Accounts value called =
      let (fine, root) = check_return s'.err_msg_func called.err [] in
      let (accounts, answered) = send_added-Accounts called.world root fine (value called.out) in
      (accounts, λ h. answered λ e. h (check_return_ok s'.err_msg_func called.err [] e))

  answer_not_implemented-Accounts : Accounts s (answer_not_implemented p r s')
  unfolding answer_not_implemented
  answer_not_implemented-Accounts = record {
    api = st.api;
    messages = st.messages;
    ending = inl (refl, omega (arith, st.live));
  }

  reject_400-Accounts : Accounts s (reject p 400 s')
  unfolding reject
  reject_400-Accounts = record {
    api = st.api;
    messages = st.messages;
    ending = inr (inl refl, st.world, omega (arith, st.live));
  }

  reject_404-Accounts : Accounts s (reject p 404 s')
  unfolding reject
  reject_404-Accounts = record {
    api = st.api;
    messages = st.messages;
    ending = inr (inr refl, st.world, omega (arith, st.live));
  }

count_request-Started :
    {W : Type 0} (s : Server W)
    → Started s (record (count_request s) { live_json = (count_request s).live_json + 1 })
unfolding count_request
count_request-Started s = record { api = refl; messages = refl; world = refl; live = omega arith }

-- A request that finds no device, or is too long, is refused.
refused-Keeps :
    {W : Type 0} (s : Server W) (err : ℤ)
    → Keeps s (error_response (if eq_ℤ err esp_err_not_found then 404 else 400)) (count_request s)
unfolding error_response error_status count_request
refused-Keeps s err = elim (Bool-cases (eq_ℤ err esp_err_not_found)) [
  | inl e ↦ rw e (record { api = refl; messages = refl; ending = inr (inr refl, refl, refl) })
  | inr e ↦ rw e (record { api = refl; messages = refl; ending = inr (inl refl, refl, refl) })
]

-- The cast of an object of class `t` succeeds.
abbrev pub IsDowncast : {W O : Type 0} → DeviceType → (Kind W → Option O) → Type 0
IsDowncast {W} {O} t cast = (k : Kind W) → kind_type k ≡ t → (o : O) × (cast k ≡ some o)

-- What a handler does for a device of another class than its own.
abbrev pub IsMismatch : {W : Type 0} → (Platform → AlpacaRequest → Server W → Outcome W) → Type 0
IsMismatch {W} f =
    (p : Platform) (r : AlpacaRequest) (s s' : Server W)
    → Started s s'
    → Accounts s (f p r s') × IsAnswered (f p r s')

pub answer_not_implemented-IsMismatch : {W : Type 0} → IsMismatch {W = W} answer_not_implemented
answer_not_implemented-IsMismatch p r s s' st =
    (answer_not_implemented-Accounts p r st, unfold answer_not_implemented send_json_response in tt)

pub reject_404-IsMismatch : {W : Type 0} → IsMismatch {W = W} (λ p r s. reject p 404 s)
reject_404-IsMismatch p r s s' st = (reject_404-Accounts p r st, unfold reject in tt)

-- A handler that begins with `with_device` keeps the contract if what follows does.
with_device-Contract :
    {W : Type 0} (k : AlpacaRequest → Device W → Handler W)
    → ((r : AlpacaRequest) (d : Device W) (req : HttpdReq) (s s' : Server W)
        → Started s s'
        → Accounts s (k r d req s'))
    → ((r : AlpacaRequest) (d : Device W) (req : HttpdReq) (s s' : Server W)
        → Started s s'
        → device_type d ≡ r.device_type
        → DriverFills d
        → IsAnswered (k r d req s'))
    → Contract (with_device k)
with_device-Contract k keeps ends = record {
  accounts = λ req s. elim (with_device-cases k req s) [
    | inl (long, e) ↦ rw e tt
    | inr (inl (r, d, there, e)) ↦ rw e (keeps r d req s _ (count_request-Started s))
    | inr (inr (err, e)) ↦ rw e (refused-Keeps s err)
  ];
  safe = λ req s grouped fill fits. elim (with_device-cases k req s) [
    | inl (long, e) ↦ absurd (omega arith)
    | inr (inl (r, d, there, e)) ↦ rw e (
        ends r d req s _ (count_request-Started s)
          (All-get_elem? (λ d'. device_type d' ≡ r.device_type) _ r.device_number
            (grouped r.device_type) there)
          (All-get_elem? DriverFills _ r.device_number (fill r.device_type) there))
    | inr (inr (err, e)) ↦ rw e tt
  ];
}

module _ {W : Type 0} (p : Platform) (r : AlpacaRequest) {s s' : Server W} (st : Started s s') where
  call_method-Accounts :
      {A B : Type 0} (value : B → Added) (call : A → Method W B) (args : Option A)
      → Accounts s (call_method p r s' value call args)
  unfolding call_method
  call_method-Accounts value call none = reject_400-Accounts p r st
  call_method-Accounts value call (some a) = (answer-Accounts p r st value (call a s'.world)).0

  call_method-IsAnswered :
      {A B : Type 0} (value : B → Added) (call : A → Method W B) (args : Option A)
      → ((a : A) (w : W) → AddsWritten value (call a w))
      → IsAnswered (call_method p r s' value call args)
  unfolding call_method reject
  call_method-IsAnswered value call none h = tt
  call_method-IsAnswered value call (some a) h =
      (answer-Accounts p r st value (call a s'.world)).1 (h a s'.world)

  call_downcast-Accounts :
      {O A B : Type 0} (value : B → Added) (call : O → A → Method W B) (args : Option A)
      (ops : Option O)
      → Accounts s (call_downcast p r s' value call args ops)
  unfolding call_downcast
  call_downcast-Accounts value call args none = tt
  call_downcast-Accounts value call args (some ops) = call_method-Accounts value (call ops) args

-- The handlers of the methods that every device has keep the contract.
pub common_handler-Contract :
    {W A B : Type 0} (read : Platform → AlpacaRequest → Option A)
    (call : DeviceOps W → A → Method W B) (value : B → Added) (p : Platform)
    → ((d : Device W) → DriverFills d → (a : A) (w : W) → AddsWritten value (call d.ops a w))
    → Contract (common_handler read call value p)
unfolding common_handler
common_handler-Contract read call value p written =
    with_device-Contract _
      (λ r d req s s' st. call_method-Accounts p r st value (call d.ops) (read p r))
      (λ r d req s s' st e fills.
        call_method-IsAnswered p r st value (call d.ops) (read p r) (written d fills))

-- So do the handlers of one class.
pub device_handler-Contract :
    {W O A B : Type 0} (t : DeviceType) (cast : Kind W → Option O)
    (mismatch : Platform → AlpacaRequest → Server W → Outcome W)
    (read : Platform → AlpacaRequest → Option A) (call : O → A → Method W B) (value : B → Added)
    (p : Platform)
    → IsDowncast t cast
    → IsMismatch mismatch
    → ((k : Kind W) (ops : O)
        → cast k ≡ some ops
        → ClassFills k
        → (a : A) (w : W) → AddsWritten value (call ops a w))
    → Contract (device_handler t cast mismatch read call value p)
unfolding device_handler device_type call_downcast
device_handler-Contract t cast mismatch read call value p down other written =
    with_device-Contract _
      (λ r d req s s' st. elim (Bool-cases (type_eq r.device_type t)) [
        | inl h ↦ rw h (call_downcast-Accounts p r st value call (read p r) (cast d.kind))
        | inr h ↦ rw h (other p r s s' st).0
      ])
      (λ r d req s s' st e fills. elim (Bool-cases (type_eq r.device_type t)) [
        | inl h ↦
            let (ops, q) = down d.kind (e ∙ type_eq_sound r.device_type t h) in
            rw (h, q)
              (call_method-IsAnswered p r st value (call ops) (read p r)
                (written d.kind ops q fills.1))
        | inr h ↦ rw h (other p r s s' st).1
      ])
