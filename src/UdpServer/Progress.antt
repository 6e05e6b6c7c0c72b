-- ===== src/UdpServer/Progress.antt =====
-- That the two tasks go on: neither waits for ever on the other, and what is accepted is dealt with.
use esp32_idf_ascom_alpaca.UdpServer.{
  udp_server_send, opening, stopped, receiving, sending, fails, closes, enqueues, gives_up, takes,
  answers, discovers, idle, then, UdpSystem, Message, ClientRun, send_answer, Reachable, TaskPhase,
  queue_capacity, ServerStep,
}
use esp32_idf_ascom_alpaca.Base.{
  Bool, ℕ, suc, ◌+◌, ◌*◌, ◌≤◌, ◌≡◌, ◌≢◌, refl, sym, ap, ◌∙◌, map, append-nil, arith, none, some,
  List, [], ◌∷◌, length, Option, inl, inr, Bool-cases, ltb, tests,
}
use esp32_idf_ascom_alpaca.Discovery.{discovery_round, discovery_task}
use esp32_idf_ascom_alpaca.UdpServer.Bounds.{Reachable-IsBounded}
use esp32_idf_ascom_alpaca.UdpServer.Fifo.{Reachable-IsInOrder}

-- From `s` the discovery task alone gets, in at most `n` steps, to a state with nothing left to do, and
-- nothing more is accepted meanwhile.
record ComesToRest {A : Type 0} (port : ℕ) (works : UdpSystem A → Bool) (n : ℕ) (s : UdpSystem A)
    : Type 0 where
  pub end : UdpSystem A
  pub steps : ℕ
  pub run : ClientRun port works steps s end
  pub few : steps ≤ n
  pub empty : end.queue ≡ []
  pub free : end.in_hand ≡ none
  pub accepted : end.accepted ≡ s.accepted

-- With free hands, two steps for each message.
empties :
    {A : Type 0} (port : ℕ) (works : UdpSystem A → Bool) (q : List (Message A)) (s : UdpSystem A)
    → s.queue ≡ q
    → s.in_hand ≡ none
    → ComesToRest port works (2 * length q) s
empties port works [] s e h = record {
  end = s;
  steps = 0;
  run = idle s;
  few = omega arith;
  empty = e;
  free = h;
  accepted = refl;
}
empties port works (m ∷ q) s e h =
    let s1 = record s { queue = q; in_hand = some m } in
    let s2 = record s1 {
      in_hand = none;
      handed = send_answer s.handed (discovery_round port m);
      sent = udp_server_send (works s1) s.sent (discovery_round port m);
    } in
    let c = empties port works q s2 refl refl in
    record {
      end = c.end;
      steps = suc (suc c.steps);
      run = then (takes s m q h e) (then (answers s1 m refl) c.run);
      few = omega (arith, c.few);
      empty = c.empty;
      free = c.free;
      accepted = c.accepted;
    }

finishes :
    {A : Type 0} (port : ℕ) (works : UdpSystem A → Bool) (s : UdpSystem A) (h : Option (Message A))
    → s.in_hand ≡ h
    → ComesToRest port works (2 * length s.queue + 1) s
finishes port works s none e =
    let c = empties port works s.queue s refl e in
    record {
      end = c.end;
      steps = c.steps;
      run = c.run;
      few = omega (arith, c.few);
      empty = c.empty;
      free = c.free;
      accepted = c.accepted;
    }
finishes port works s (some m) e =
    let s1 = record s {
      in_hand = none;
      handed = send_answer s.handed (discovery_round port m);
      sent = udp_server_send (works s) s.sent (discovery_round port m);
    } in
    let c = empties port works s.queue s1 refl refl in
    record {
      end = c.end;
      steps = suc c.steps;
      run = then (answers s m e) c.run;
      few = omega (arith, c.few);
      empty = c.empty;
      free = c.free;
      accepted = c.accepted;
    }

run-Reachable :
    {A : Type 0} (port : ℕ) (works : UdpSystem A → Bool) (n : ℕ) (s s' : UdpSystem A)
    → ClientRun port works n s s'
    → Reachable port s
    → Reachable port s'
run-Reachable port works _ s _ (idle _) r = r
run-Reachable port works _ s s' (then {s' = between} step run) r =
    run-Reachable port works _ between s' run (discovers works s between r step)

-- From every state that the two tasks reach, and whatever `sendto` gives from then on, the discovery
-- task alone gets, in at most 21 steps, to a state where the queue is empty and everything that the
-- queue has ever accepted is dealt with: what was handed to `sendto` are the answers of its loop to
-- all accepted messages, in their order.
pub Reachable-IsAnswered :
    {A : Type 0} (port : ℕ) (works : UdpSystem A → Bool) (s : UdpSystem A)
    → Reachable port s
    → (n : ℕ) × (s' : UdpSystem A) × ClientRun port works n s s'
      × (n ≤ 21)
      × (s'.queue ≡ [])
      × (s'.accepted ≡ s.accepted)
      × (s'.handed ≡ discovery_task port (map some s.accepted))
Reachable-IsAnswered port works s r =
    let c = finishes port works s s.in_hand refl in
    let room : length s.queue ≤ 10 = (Reachable-IsBounded port s r).room in
    let b = Reachable-IsInOrder port c.end (run-Reachable port works c.steps s c.end c.run r) in
    let all : c.end.accepted ≡ b.handled =
      (rw (c.free, c.empty) at b.order) ∙ append-nil b.handled in
    (
      c.steps,
      c.end,
      c.run,
      omega (arith, c.few, room),
      c.empty,
      c.accepted,
      b.answered ∙ ap (λ l. discovery_task port (map some l)) (sym all ∙ c.accepted),
    )

-- The receiving task.
goes_on :
    {A : Type 0} (s : UdpSystem A) (f : TaskPhase A)
    → s.phase ≡ f
    → f ≢ stopped
    → length s.queue ≤ queue_capacity
    → (s' : UdpSystem A) × ServerStep s s'
goes_on s opening e h room = (_, fails s e)
goes_on s stopped e h room = absurd (h refl)
goes_on s (receiving sock) e h room = (_, closes s sock e)
goes_on s (sending sock m) e h room = elim (Bool-cases (ltb (length s.queue) queue_capacity)) [
  | inl fits ↦ (_, enqueues s sock m e (omega (tests, fits)))
  | inr full ↦ (_, gives_up s sock m e (ground arith))
]

-- In every state that the two tasks reach, the receiving task can make a step, unless it has deleted
-- itself because no socket could be made: it is never stuck on the queue.
pub Reachable-goes_on :
    {A : Type 0} (port : ℕ) (s : UdpSystem A)
    → Reachable port s
    → s.phase ≢ stopped
    → (s' : UdpSystem A) × ServerStep s s'
Reachable-goes_on port s r h = goes_on s s.phase refl h (Reachable-IsBounded port s r).room
