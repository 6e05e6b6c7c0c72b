-- ===== src/Discovery.antt =====
-- discovery.c: the answer to a discovery datagram, and the task that receives and answers.
--
-- The datagrams come from the queue of the UDP server, udp_server.c. `T` stands for the sender's
-- address and socket, which the task hands back unread.
pub mod Laws
use esp32_idf_ascom_alpaca.Base.Text.{Bytes, codes, print_ℕ}
use esp32_idf_ascom_alpaca.Base.{
  ℕ, zero, suc, Bool, true, false, Option, none, some, List, [], ◌∷◌, ◌++◌, ◌==◌, if◌then◌else◌,
  length,
}

-- `udp_message_t`: `length` bytes of the buffer of 1024 were received, and the rest are 0.
pub record UdpMessage (T : Type 0) : Type 0 where
  pub bytes : Bytes
  pub length : ℕ
  pub source : T

-- `strncmp(a, b, n) == 0` on two buffers; behind the end of a buffer stand zeros.
unfoldable pub strncmp_eq : ℕ → Bytes → Bytes → Bool
strncmp_eq zero a b = true
strncmp_eq (suc n) [] [] = true
strncmp_eq (suc n) [] (d ∷ b) = 0 == d
strncmp_eq (suc n) (c ∷ a) [] = c == 0
strncmp_eq (suc n) (c ∷ a) (d ∷ b) =
    let rest = strncmp_eq n a b in if c == d then (if c == 0 then true else rest) else false

abbrev pub discovery_text : Bytes
discovery_text = codes "alpacadiscovery1"

-- `sprintf(response, "{\"AlpacaPort\":%d}", port)`
unfoldable pub discovery_response : ℕ → Bytes
unfolding print_ℕ
discovery_response port = codes "{\"AlpacaPort\":" ++ (print_ℕ port ++ b'}' ∷ [])

-- One round of `discovery_task` on a received message: what is handed to `udp_server_send`.
unfoldable pub discovery_round : {T : Type 0} → ℕ → UdpMessage T → Option (UdpMessage T)
unfolding strncmp_eq discovery_response
discovery_round port message =
    if strncmp_eq message.length message.bytes discovery_text
    then some (record message {
      bytes = discovery_response port;
      length = length (discovery_response port);
    })
    else none

-- What a round sends, in front of what later rounds send.
abbrev pub put_first :
    {T : Type 0} → Option (UdpMessage T) → List (UdpMessage T) → List (UdpMessage T)
put_first none later = later
put_first (some answer) later = answer ∷ later

-- The rounds of the task, one for each result of `udp_server_recv`; none is an error, which is
-- skipped.
unfoldable pub discovery_task :
    {T : Type 0} → ℕ → List (Option (UdpMessage T)) → List (UdpMessage T)
discovery_task port [] = []
discovery_task port (none ∷ rest) = discovery_task port rest
discovery_task port (some message ∷ rest) =
    put_first (discovery_round port message) (discovery_task port rest)
