-- ===== src/UdpServer/Bounds.antt =====
-- How much the queue of the UDP server holds, and that every message fits its buffer.
use esp32_idf_ascom_alpaca.UdpServer.{
  opening, stopped, receiving, sending, fails, opens, closes, receives, enqueues, gives_up, takes,
  answers, starts, serves, discovers, make_message, Message, TaskPhase, UdpSystem, receive_limit,
  queue_capacity, ServerStep, ClientStep, Reachable,
}
use esp32_idf_ascom_alpaca.Base.{
  Bool, refl, none, some, length-append, ℕ, ◌≤◌, ◌≡◌, Option, [], ◌∷◌, arith, length, All,
  All-append,
}

-- The bytes of a message fit its buffer of 1024 with a NUL behind them, and `length` is their number.
abbrev pub IsReceived : {A : Type 0} → Message A → Type 0
IsReceived m = (m.length ≡ length m.bytes) × (m.length ≤ receive_limit)

-- The message that the receiving task holds.
abbrev IsPhase : {A : Type 0} → TaskPhase A → Type 0
IsPhase opening = Unit
IsPhase stopped = Unit
IsPhase (receiving sock) = Unit
IsPhase (sending sock m) = IsReceived m

-- The message that the discovery task holds.
abbrev IsInHand : {A : Type 0} → Option (Message A) → Type 0
IsInHand none = Unit
IsInHand (some m) = IsReceived m

-- The queue is within its capacity, and every message was received.
pub record IsBounded {A : Type 0} (s : UdpSystem A) : Type 0 where
  pub room : length s.queue ≤ queue_capacity
  pub queued : All IsReceived s.queue
  pub held : IsPhase s.phase
  pub taken : IsInHand s.in_hand

-- The receiving task goes on with what it may hold.
phase-IsBounded :
    {A : Type 0} (s : UdpSystem A) (f : TaskPhase A)
    → IsPhase f
    → IsBounded s
    → IsBounded (record s { phase = f })
phase-IsBounded s f h b = record { room = b.room; queued = b.queued; held = h; taken = b.taken }

ServerStep-IsBounded :
    {A : Type 0} (s s' : UdpSystem A) → ServerStep s s' → IsBounded s → IsBounded s'
ServerStep-IsBounded _ _ (fails s e) b = phase-IsBounded s stopped tt b
ServerStep-IsBounded _ _ (opens s sock e) b = phase-IsBounded s (receiving sock) tt b
ServerStep-IsBounded _ _ (closes s sock e) b = phase-IsBounded s opening tt b
ServerStep-IsBounded _ _ (receives s sock bytes from e h) b =
    phase-IsBounded s (sending sock (make_message sock bytes from))
      (unfold make_message in (refl, h)) b
ServerStep-IsBounded _ _ (enqueues s sock m e h) b = record {
  room = rw (length-append s.queue (m ∷ [])) (omega arith);
  queued = All-append IsReceived s.queue (m ∷ []) b.queued ((rw e at b.held), tt);
  held = tt;
  taken = b.taken;
}
ServerStep-IsBounded _ _ (gives_up s sock m e h) b = phase-IsBounded s (receiving sock) tt b

ClientStep-IsBounded :
    {A : Type 0} (port : ℕ) (works : UdpSystem A → Bool) (s s' : UdpSystem A)
    → ClientStep port works s s'
    → IsBounded s
    → IsBounded s'
ClientStep-IsBounded port _ _ _ (takes s m rest e q) b =
    let (first, others) : All IsReceived (m ∷ rest) = rw q at b.queued in
    let room : length (m ∷ rest) ≤ queue_capacity = rw q at b.room in
    record { room = omega arith; queued = others; held = b.held; taken = first }
ClientStep-IsBounded port _ _ _ (answers s m e) b = record {
  room = b.room;
  queued = b.queued;
  held = b.held;
  taken = tt;
}

-- Whatever the two tasks do, in whatever order, the queue holds at most 10 messages, and every
-- message in the queue or in the hands of a task has at most 1023 bytes, as many as its `length`
-- says.
pub Reachable-IsBounded : {A : Type 0} (port : ℕ) (s : UdpSystem A) → Reachable port s → IsBounded s
Reachable-IsBounded port _ starts = record {
  room = omega arith;
  queued = tt;
  held = tt;
  taken = tt;
}
Reachable-IsBounded port s (serves before _ r step) =
    ServerStep-IsBounded before s step (Reachable-IsBounded port before r)
Reachable-IsBounded port s (discovers works before _ r step) =
    ClientStep-IsBounded port works before s step (Reachable-IsBounded port before r)
