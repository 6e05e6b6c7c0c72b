-- ===== src/Handler/Telescope/Contract.antt =====
-- What a handler of the Telescope API keeps, whatever the drivers do.
use esp32_idf_ascom_alpaca.Handler.Written.{IsWritten}
use esp32_idf_ascom_alpaca.Base.{
  ◌+◌, ◌-◌, arith, ◌≡◌, true, false, All-get_elem?, ◌∙◌, none, some, refl, ◌⊎◌, inl, inr,
  Bool-cases, Option, [], Bool, if◌then◌else◌, ℤ, eq_ℤ,
}
use esp32_idf_ascom_alpaca.Request.Answers.{
  fault, done, Handler, error_response, Outcome, error_status, send_json_response, json_response,
  json_status,
}
use esp32_idf_ascom_alpaca.Server.{Server, esp_err_not_found}
use esp32_idf_ascom_alpaca.Handler.Telescope.{
  refused, undefined, given, Argument, answer_call, answer_or_reject, call_given, call_telescope,
  telescope_handler,
}
use esp32_idf_ascom_alpaca.Platform.{unwritten, no_item, Platform, Response, Added, Document, item}
use esp32_idf_ascom_alpaca.Handler.{answer, reject, answer_not_implemented, send_added}
use esp32_idf_ascom_alpaca.Request.{Fault, HttpdReq, AlpacaRequest, next_id, count_request}
use esp32_idf_ascom_alpaca.Server.Devices.{IsGrouped, type_eq_sound}
use esp32_idf_ascom_alpaca.Device.{Called, telescope, Method, type_eq, device_type, Device}
use esp32_idf_ascom_alpaca.Server.Errors.{check_return}
use esp32_idf_ascom_alpaca.Handler.Contract.{FitsBuffer, IsAnswered}
use esp32_idf_ascom_alpaca.Handler.Prologue.{rooted, with_device-cases}
use esp32_idf_ascom_alpaca.Device.Telescope.{TelescopeOps}
use esp32_idf_ascom_alpaca.Handler.Casts.{as_telescope, as_telescope-IsDowncast}

-- The state after a request from state `s`, and the response. The API object keeps all but the
-- transaction counter, which goes up by one. Either the answer is 200, and all documents are freed;
-- or it is 400 or 404, and one document is left allocated. The drivers may have changed.
pub record IsSettled {W : Type 0} (s : Server W) (resp : Response) (s' : Server W) : Type 0 where
  pub api : s'.api ≡ record (s.api) { server_transaction_id = next_id s.api.server_transaction_id }
  pub messages : s'.err_msg_func ≡ s.err_msg_func
  pub ending :
      ((resp.status ≡ 200) × (s'.live_json ≡ s.live_json))
      ⊎ (((resp.status ≡ 400) ⊎ (resp.status ≡ 404)) × (s'.live_json ≡ s.live_json + 1))

abbrev pub Settles : {W : Type 0} → Server W → Outcome W → Type 0
Settles s (fault f) = Unit
Settles s (done err resp s') = IsSettled s resp s'

-- Every request to the handler is settled.
abbrev pub AllSettled : {W : Type 0} → Handler W → Type 0
AllSettled {W} h = (req : HttpdReq) (s : Server W) → Settles s (h req s)

-- No request to the handler ends in undefined behaviour.
abbrev pub AllAnswered : {W : Type 0} → Handler W → Type 0
AllAnswered {W} h =
    (req : HttpdReq) (s : Server W)
    → IsGrouped s.api.devices
    → FitsBuffer req.uri
    → IsAnswered (h req s)

-- The only undefined behaviour that a request to the handler ends in is `f`.
abbrev pub AllAnsweredUnless : {W : Type 0} → Fault → Handler W → Type 0
AllAnsweredUnless {W} f h =
    (req : HttpdReq) (s : Server W)
    → IsGrouped s.api.devices
    → FitsBuffer req.uri
    → IsAnswered (h req s) ⊎ (h req s ≡ fault f)

-- What a handler reads is not undefined.
abbrev pub IsDefined : {A : Type 0} → Argument A → Type 0
IsDefined refused = Unit
IsDefined (undefined f) = ⊥
IsDefined (given a) = Unit

-- How a handler ends, from a state with both documents.
abbrev pub IsFinish :
    {W B : Type 0} → (Platform → AlpacaRequest → Called W B → Server W → Outcome W) → Type 0
IsFinish {W} {B} finish =
    (p : Platform) (r : AlpacaRequest) (called : Called W B) (s : Server W)
    → Settles s (finish p r called (rooted s)) × IsAnswered (finish p r called (rooted s))

rejected :
    {W : Type 0} (p : Platform) (s : Server W) (w : W)
    → IsSettled s
        (error_response 400)
        (record (rooted s) { world = w; live_json = (rooted s).live_json - 1 })
unfolding error_response error_status count_request
rejected p s w = record { api = refl; messages = refl; ending = inr (inl refl, omega arith) }

refused-Settled :
    {W : Type 0} (s : Server W) (err : ℤ)
    → IsSettled s
        (error_response (if eq_ℤ err esp_err_not_found then 404 else 400))
        (count_request s)
unfolding error_response error_status count_request
refused-Settled s err = elim (Bool-cases (eq_ℤ err esp_err_not_found)) [
  | inl e ↦ rw e (record { api = refl; messages = refl; ending = inr (inr refl, refl) })
  | inr e ↦ rw e (record { api = refl; messages = refl; ending = inr (inl refl, refl) })
]

send_added-Settles :
    {W : Type 0} (p : Platform) (r : AlpacaRequest) (s : Server W) (w : W) (root : Document)
    (fine : Bool) (added : Added)
    → Settles s (send_added p r (record (rooted s) { world = w }) root fine added)
      × (IsWritten added
          → IsAnswered (send_added p r (record (rooted s) { world = w }) root fine added))
unfolding send_added send_json_response json_response json_status count_request
send_added-Settles p r s w root true unwritten = (tt, λ h. h)
send_added-Settles p r s w root false unwritten =
    (record { api = refl; messages = refl; ending = inl (refl, omega arith) }, λ h. tt)
send_added-Settles p r s w root fine no_item =
    (record { api = refl; messages = refl; ending = inl (refl, omega arith) }, λ h. tt)
send_added-Settles p r s w root fine (item v) =
    (record { api = refl; messages = refl; ending = inl (refl, omega arith) }, λ h. tt)

answered :
    {W B : Type 0} (value : B → Added)
    → ((b : B) → IsWritten (value b))
    → IsFinish {W = W} (λ p r called s. answer p r value called s)
unfolding answer
answered value there p r called s =
    let (fine, root) = check_return (rooted s).err_msg_func called.err [] in
    let (settles, ends) = send_added-Settles p r s called.world root fine (value called.out) in
    (settles, ends (there called.out))

pub answer_call-IsFinish :
    {W B : Type 0} (value : B → Added)
    → ((b : B) → IsWritten (value b))
    → IsFinish {W = W} (answer_call value)
unfolding answer_call
answer_call-IsFinish value there p r called s = answered value there p r called s

-- A branch on a test.
branch :
    {W : Type 0} (s : Server W) (b : Bool) (x y : Outcome W)
    → Settles s x × IsAnswered x
    → Settles s y × IsAnswered y
    → Settles s (if b then x else y) × IsAnswered (if b then x else y)
branch s true x y hx hy = hx
branch s false x y hx hy = hy

pub answer_or_reject-IsFinish :
    {W B : Type 0} (value : B → Added)
    → ((b : B) → IsWritten (value b))
    → IsFinish {W = W} (answer_or_reject value)
unfolding answer_or_reject reject
answer_or_reject-IsFinish value there p r called s =
    branch s (check_return (rooted s).err_msg_func called.err []).0 _ _
      (answered value there p r called s) (rejected p s called.world, tt)

module _ {W A B : Type 0} (finish : Platform → AlpacaRequest → Called W B → Server W → Outcome W)
    (ends : IsFinish finish) (read : Platform → AlpacaRequest → Argument A)
    (call : TelescopeOps W → A → Method W B) (p : Platform) where
  call_given-Settles :
      (r : AlpacaRequest) (s : Server W) (ops : TelescopeOps W) (a : Argument A)
      → Settles s (call_given p r (rooted s) finish (call ops) a)
  unfolding call_given reject count_request
  call_given-Settles r s ops refused = rejected p s s.world
  call_given-Settles r s ops (undefined f) = tt
  call_given-Settles r s ops (given a) = (ends p r (call ops a s.world) s).0

  call_given-IsAnswered :
      (r : AlpacaRequest) (s : Server W) (ops : TelescopeOps W) (a : Argument A)
      → IsDefined a
      → IsAnswered (call_given p r (rooted s) finish (call ops) a)
  unfolding call_given reject
  call_given-IsAnswered r s ops refused h = tt
  call_given-IsAnswered r s ops (undefined f) h = h
  call_given-IsAnswered r s ops (given a) h = (ends p r (call ops a (rooted s).world) s).1

  call_telescope-Settles :
      (r : AlpacaRequest) (s : Server W) (ops : Option (TelescopeOps W))
      → Settles s (call_telescope p r (rooted s) finish call (read p r) ops)
  unfolding call_telescope
  call_telescope-Settles r s none = tt
  call_telescope-Settles r s (some ops) = call_given-Settles r s ops (read p r)

  unsupported :
      (r : AlpacaRequest) (s : Server W)
      → Settles s (answer_not_implemented p r (rooted s))
        × IsAnswered (answer_not_implemented p r (rooted s))
  unfolding answer_not_implemented send_json_response json_response json_status count_request
  unsupported r s = (record { api = refl; messages = refl; ending = inl (refl, omega arith) }, tt)

  -- What follows the lookup of the device.
  abbrev rest : AlpacaRequest → Device W → Handler W
  rest r d req s =
      if type_eq r.device_type telescope
      then call_telescope p r s finish call (read p r) (as_telescope d.kind)
      else answer_not_implemented p r s

  -- A handler of the class is settled.
  pub telescope_handler-Settled : AllSettled (telescope_handler read call finish p)
  unfolding telescope_handler
  telescope_handler-Settled req s = elim (with_device-cases rest req s) [
    | inl (long, e) ↦ rw e tt
    | inr (inl (r, d, there, e)) ↦ rw e (elim (Bool-cases (type_eq r.device_type telescope)) [
      | inl h ↦ rw h (call_telescope-Settles r s (as_telescope d.kind))
      | inr h ↦ rw h (unsupported r s).0
    ])
    | inr (inr (err, e)) ↦ rw e (refused-Settled s err)
  ]

  -- What its requests end in, if each list of devices holds devices of its own type only: they are
  -- answered, or end as the call of the driver does.
  telescope_handler-ends :
      (P : Outcome W → Type 0)
      → ((o : Outcome W) → IsAnswered o → P o)
      → ((r : AlpacaRequest) (s : Server W) (ops : TelescopeOps W)
          → P (call_given p r (rooted s) finish (call ops) (read p r)))
      → (req : HttpdReq) (s : Server W) → IsGrouped s.api.devices
      → FitsBuffer req.uri
      → P (telescope_handler read call finish p req s)
  unfolding telescope_handler call_telescope device_type
  telescope_handler-ends P good calls req s grouped fits = elim (with_device-cases rest req s) [
    | inl (long, e) ↦ absurd (omega arith)
    | inr (inl (r, d, there, e)) ↦ rw e (elim (Bool-cases (type_eq r.device_type telescope)) [
      | inl h ↦
          let same : device_type d ≡ r.device_type =
            All-get_elem? (λ d'. device_type d' ≡ r.device_type) _ r.device_number
              (grouped r.device_type) there in
          let (ops, q) =
            as_telescope-IsDowncast d.kind (same ∙ type_eq_sound r.device_type telescope h) in
          rw (h, q) (calls r s ops)
      | inr h ↦ rw h (good _ (unsupported r s).1)
    ])
    | inr (inr (err, e)) ↦ rw e (good _ tt)
  ]

  -- Its requests are answered, if what it reads is always defined.
  pub telescope_handler-Answered :
      ((r : AlpacaRequest) → IsDefined (read p r))
      → AllAnswered (telescope_handler read call finish p)
  telescope_handler-Answered defined =
      telescope_handler-ends IsAnswered (λ o h. h)
        λ r s ops. call_given-IsAnswered r s ops (read p r) (defined r)

  -- They are answered or end in `f`, if what it reads is always defined or `f`.
  pub telescope_handler-AnsweredUnless :
      (f : Fault)
      → ((r : AlpacaRequest) → IsDefined (read p r) ⊎ (read p r ≡ undefined f))
      → AllAnsweredUnless f (telescope_handler read call finish p)
  unfolding call_given
  telescope_handler-AnsweredUnless f reads =
      telescope_handler-ends (λ o. IsAnswered o ⊎ (o ≡ fault f)) (λ o h. inl h)
        λ r s ops. elim (reads r) [
          | inl h ↦ inl (call_given-IsAnswered r s ops (read p r) h)
          | inr e ↦ inr (rw e)
        ]
