-- ===== src/UdpServer.antt =====
-- udp_server.c, and how discovery.c uses it: the task that receives datagrams and puts them into a
-- queue, and the task that takes them out and answers.
--
-- The two tasks run side by side, so a step of either is a step of the whole. What lwIP and FreeRTOS
-- decide (whether a socket can be made, what arrives, whether the wait for data or for the queue
-- ends) is the choice of the step. `A` stands for the addresses of senders. The delays are left out.
pub mod Bounds
pub mod Fifo
pub mod Progress
pub mod Heard
use esp32_idf_ascom_alpaca.Base.{
  ℕ, ◌≤◌, ◌<◌, Bool, true, false, Option, none, some, List, [], ◌∷◌, ◌++◌, length, suc, ◌≡◌,
  if◌then◌else◌,
}
use esp32_idf_ascom_alpaca.Discovery.{UdpMessage, discovery_round}
use esp32_idf_ascom_alpaca.Base.Text.{Bytes}

-- A message with its sender's address and `_sock`.
abbrev pub Message : Type 0 → Type 0
Message A = UdpMessage (A × ℕ)

-- Where `udp_server_task` stands: before `socket`, in `recvfrom`, in `xQueueSend`, or deleted.
pub data TaskPhase (A : Type 0) : Type 0 where
  opening stopped : TaskPhase A
  receiving : ℕ → TaskPhase A
  sending : ℕ → Message A → TaskPhase A

-- The queue, the two tasks, and what has happened: the messages that the queue has accepted, and
-- those that were handed to `sendto`, in their order, and of these the ones for which `sendto` gave
-- no error. `in_hand` is what `discovery_task` has taken and not yet dealt with. A socket is its
-- number, which the message keeps: by the time of `sendto` it may be closed, or be another socket's.
pub record UdpSystem (A : Type 0) : Type 0 where
  pub phase : TaskPhase A
  pub queue : List (Message A)
  pub in_hand : Option (Message A)
  pub accepted : List (Message A)
  pub handed : List (Message A)
  pub sent : List (Message A)

-- `xQueueCreate(10, ...)`
abbrev pub queue_capacity : ℕ
queue_capacity = 10

-- `sizeof(rx_buffer) - 1`
abbrev pub receive_limit : ℕ
receive_limit = 1023

abbrev pub start : {A : Type 0} → UdpSystem A
start = record {
  phase = opening;
  queue = [];
  in_hand = none;
  accepted = [];
  handed = [];
  sent = [];
}

-- `udp_server_init`: whether `malloc` and `xQueueCreate` succeed. None is `ESP_ERR_NO_MEM`.
unfoldable pub udp_server_init : {A : Type 0} → Bool → Bool → Option (UdpSystem A)
udp_server_init false queue_made = none
udp_server_init true false = none
udp_server_init true true = some start

-- `alpaca_server_discovery_start`, with the result of its own `malloc`: the error of
-- `udp_server_init` is not looked at, and neither pointer is tested. None is undefined behaviour.
unfoldable pub discovery_start : {A : Type 0} → Bool → Bool → Bool → Option (UdpSystem A)
unfolding udp_server_init
discovery_start handle_made queue_made config_made = elim (udp_server_init handle_made queue_made) [
  | none ↦ none
  | some s ↦ if config_made then some s else none
]

-- The message that is made of a datagram.
unfoldable pub make_message : {A : Type 0} → ℕ → Bytes → A → Message A
make_message sock bytes from = record {
  bytes = bytes;
  length = length bytes;
  source = (from, sock);
}

-- The answer to a message, if there is one, behind what was handed to `sendto`.
unfoldable pub send_answer : {A : Type 0} → List (Message A) → Option (Message A) → List (Message A)
send_answer handed none = handed
send_answer handed (some m) = handed ++ m ∷ []

-- `udp_server_send`, where there is an answer: whether `sendto` gives no error. It fails where the
-- socket was closed meanwhile; otherwise the result is `ESP_FAIL`, and the answer is not sent.
unfoldable pub udp_server_send :
    {A : Type 0} → Bool → List (Message A) → Option (Message A) → List (Message A)
unfolding send_answer
udp_server_send true sent answer = send_answer sent answer
udp_server_send false sent answer = sent

-- A step of `udp_server_task`.
pub data ServerStep {A : Type 0} : UdpSystem A → UdpSystem A → Type 0 where
  -- `socket` fails, and the task deletes itself.
  fails : (s : UdpSystem A) → s.phase ≡ opening → ServerStep s (record s { phase = stopped })
  -- A socket is made; whether `bind` succeeds is only logged.
  opens :
      (s : UdpSystem A) (sock : ℕ)
      → s.phase ≡ opening
      → ServerStep s (record s { phase = receiving sock })
  -- `recvfrom` fails, or nothing arrives for 10 ms: the socket is closed.
  closes :
      (s : UdpSystem A) (sock : ℕ)
      → s.phase ≡ receiving sock
      → ServerStep s (record s { phase = opening })
  receives :
      (s : UdpSystem A) (sock : ℕ) (bytes : Bytes) (from : A)
      → s.phase ≡ receiving sock
      → length bytes ≤ receive_limit
      → ServerStep s (record s { phase = sending sock (make_message sock bytes from) })
  -- The queue has room at once, or within 10 ms.
  enqueues :
      (s : UdpSystem A) (sock : ℕ) (m : Message A)
      → s.phase ≡ sending sock m
      → length s.queue < queue_capacity
      → ServerStep s (record s {
        phase = receiving sock;
        queue = s.queue ++ m ∷ [];
        accepted = s.accepted ++ m ∷ [];
      })
  -- The queue stays full, and the message is lost.
  gives_up :
      (s : UdpSystem A) (sock : ℕ) (m : Message A)
      → s.phase ≡ sending sock m
      → length s.queue ≡ queue_capacity
      → ServerStep s (record s { phase = receiving sock })

-- A step of `discovery_task` on the HTTP port `port`. `udp_server_recv` waits without a limit, so it
-- ends only with a message. The result of `udp_server_send` is not looked at; `works` says of each
-- state whether `sendto` gives no error in it.
pub data ClientStep {A : Type 0} (port : ℕ) (works : UdpSystem A → Bool)
    : UdpSystem A → UdpSystem A → Type 0 where
  takes :
      (s : UdpSystem A) (m : Message A) (rest : List (Message A))
      → s.in_hand ≡ none
      → s.queue ≡ m ∷ rest
      → ClientStep port works s (record s { queue = rest; in_hand = some m })
  answers :
      (s : UdpSystem A) (m : Message A)
      → s.in_hand ≡ some m
      → ClientStep port works s (record s {
        in_hand = none;
        handed = send_answer s.handed (discovery_round port m);
        sent = udp_server_send (works s) s.sent (discovery_round port m);
      })

-- A number of steps of `discovery_task` alone.
pub data ClientRun {A : Type 0} (port : ℕ) (works : UdpSystem A → Bool)
    : ℕ → UdpSystem A → UdpSystem A → Type 0 where
  idle : (s : UdpSystem A) → ClientRun port works 0 s s
  then :
      {n : ℕ} {s s' s'' : UdpSystem A}
      → ClientStep port works s s'
      → ClientRun port works n s' s''
      → ClientRun port works (suc n) s s''

-- What the two tasks reach, whatever `sendto` gives, from the state that `discovery_start` leaves.
pub data Reachable {A : Type 0} (port : ℕ) : UdpSystem A → Type 0 where
  starts : Reachable port start
  serves : (s s' : UdpSystem A) → Reachable port s → ServerStep s s' → Reachable port s'
  discovers :
      (works : UdpSystem A → Bool) (s s' : UdpSystem A)
      → Reachable port s
      → ClientStep port works s s'
      → Reachable port s'
