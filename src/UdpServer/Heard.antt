-- ===== src/UdpServer/Heard.antt =====
-- That the answer to a client which asks, and whose datagram is accepted, is handed to `sendto`.
use esp32_idf_ascom_alpaca.Base.{
  Bool, ℕ, zero, suc, ◌≤◌, ◌≡◌, refl, ap, ◌∙◌, map, some, none, Option, List, [], ◌∷◌, get_elem?,
  length,
}
use esp32_idf_ascom_alpaca.UdpServer.{Message, UdpSystem, make_message, Reachable, ClientRun}
use esp32_idf_ascom_alpaca.Discovery.{
  discovery_task, discovery_round, put_first, discovery_response, strncmp_eq, discovery_text,
}
use mathlib.Core.Option.{none-ne-some, some-injective}
use esp32_idf_ascom_alpaca.UdpServer.Progress.{Reachable-IsAnswered}

put_first_keeps :
    {A : Type 0} (r : Option (Message A)) (later : List (Message A)) (j : ℕ) (a : Message A)
    → get_elem? later j ≡ some a
    → (i : ℕ) × (get_elem? (put_first r later) i ≡ some a)
put_first_keeps none later j a e = (j, e)
put_first_keeps (some b) later j a e = (suc j, e)

-- The answer to a message is among those of the task.
discovery_task_includes :
    {A : Type 0} (port : ℕ) (ms : List (Message A)) (k : ℕ) (m a : Message A)
    → get_elem? ms k ≡ some m
    → discovery_round port m ≡ some a
    → (j : ℕ) × (get_elem? (discovery_task port (map some ms)) j ≡ some a)
unfolding discovery_task
discovery_task_includes port [] k m a at r = absurd (none-ne-some _ at)
discovery_task_includes port (n ∷ ms) zero m a at r =
    let same : n ≡ m = some-injective _ _ at in
    (
      0,
      ap (λ o. get_elem? (put_first o (discovery_task port (map some ms))) 0)
          (ap (discovery_round port) same ∙ r),
    )
discovery_task_includes port (n ∷ ms) (suc k) m a at r =
    let (j, e) = discovery_task_includes port ms k m a at r in
    put_first_keeps (discovery_round port n) (discovery_task port (map some ms)) j a e

-- The answer to the question of a client.
abbrev pub reply : {A : Type 0} → ℕ → ℕ → A → Message A
reply port sock from = record {
  bytes = discovery_response port;
  length = length (discovery_response port);
  source = (from, sock);
}

question_answered :
    {A : Type 0} (port sock : ℕ) (from : A)
    → discovery_round port (make_message sock discovery_text from) ≡ some (reply port sock from)
unfolding discovery_round make_message strncmp_eq
question_answered port sock from = refl

-- From every state that the two tasks reach, if the queue has ever accepted the datagram
-- "alpacadiscovery1" from a client, and whatever `sendto` gives from then on: after at most 21 more
-- steps of the discovery task alone, the port, addressed to that client, has been handed to `sendto`
-- with the number of the socket that received the question. Whether that socket is still open then,
-- and whether the answer leaves it, is not said.
pub Reachable-IsHeard :
    {A : Type 0} (port : ℕ) (works : UdpSystem A → Bool) (s : UdpSystem A) (k sock : ℕ) (from : A)
    → Reachable port s
    → get_elem? s.accepted k ≡ some (make_message sock discovery_text from)
    → (n : ℕ) × (s' : UdpSystem A) × ClientRun port works n s s'
      × (n ≤ 21)
      × (j : ℕ) × (get_elem? s'.handed j ≡ some (reply port sock from))
Reachable-IsHeard port works s k sock from r at =
    let (n, s', run, few, empty, same, handed) = Reachable-IsAnswered port works s r in
    let (j, e) =
      discovery_task_includes port s.accepted k _ _ at (question_answered port sock from) in
    (n, s', run, few, j, ap (λ l. get_elem? l j) handed ∙ e)
