-- ===== src/UdpServer/Fifo.antt =====
-- The order of the answers, and that the discovery task comes to the end of its queue.
use esp32_idf_ascom_alpaca.UdpServer.{
  fails, opens, closes, receives, enqueues, gives_up, takes, answers, starts, serves, discovers,
  Message, UdpSystem, send_answer, ServerStep, ClientStep, Reachable, TaskPhase,
}
use esp32_idf_ascom_alpaca.Base.{
  Bool, ℕ, ◌≡◌, refl, sym, ap, ◌∙◌, map, append_assoc, none, some, List, [], ◌∷◌, ◌++◌, Option,
}
use esp32_idf_ascom_alpaca.Discovery.{discovery_task, discovery_round, put_first}

-- What the discovery task has in hand.
abbrev pub hand : {A : Type 0} → Option (Message A) → List (Message A)
hand none = []
hand (some m) = m ∷ []

-- The accepted messages are those that are dealt with, the one in hand, and those in the queue, in
-- this order; what was handed to `sendto` are the answers that `discovery_task` gives to those dealt with.
pub record IsInOrder {A : Type 0} (port : ℕ) (s : UdpSystem A) : Type 0 where
  pub handled : List (Message A)
  pub order : s.accepted ≡ handled ++ (hand s.in_hand ++ s.queue)
  pub answered : s.handed ≡ discovery_task port (map some handled)

put_first-nil : {A : Type 0} (r : Option (Message A)) → put_first r [] ≡ send_answer [] r
unfolding send_answer
put_first-nil none = refl
put_first-nil (some m) = refl

put_first-send_answer :
    {A : Type 0} (r : Option (Message A)) (out : List (Message A)) (q : Option (Message A))
    → put_first r (send_answer out q) ≡ send_answer (put_first r out) q
unfolding send_answer
put_first-send_answer none out q = refl
put_first-send_answer (some m) out none = refl
put_first-send_answer (some m) out (some n) = refl

discovery_task-snoc :
    {A : Type 0} (port : ℕ) (ms : List (Message A)) (m : Message A)
    → discovery_task port (map some (ms ++ m ∷ []))
      ≡ send_answer (discovery_task port (map some ms)) (discovery_round port m)
unfolding discovery_task
discovery_task-snoc port [] m = put_first-nil (discovery_round port m)
discovery_task-snoc port (n ∷ ms) m =
    ap (put_first (discovery_round port n)) (discovery_task-snoc port ms m)
    ∙ put_first-send_answer (discovery_round port n) (discovery_task port (map some ms))
        (discovery_round port m)

-- The order does not depend on where the receiving task stands.
phase-IsInOrder :
    {A : Type 0} (port : ℕ) (s : UdpSystem A) (f : TaskPhase A)
    → IsInOrder port s
    → IsInOrder port (record s { phase = f })
phase-IsInOrder port s f b = record { handled = b.handled; order = b.order; answered = b.answered }

ServerStep-IsInOrder :
    {A : Type 0} (port : ℕ) (s s' : UdpSystem A)
    → ServerStep s s'
    → IsInOrder port s
    → IsInOrder port s'
ServerStep-IsInOrder port _ _ (fails s e) b = phase-IsInOrder port s _ b
ServerStep-IsInOrder port _ _ (opens s sock e) b = phase-IsInOrder port s _ b
ServerStep-IsInOrder port _ _ (closes s sock e) b = phase-IsInOrder port s _ b
ServerStep-IsInOrder port _ _ (receives s sock bytes from e h) b = phase-IsInOrder port s _ b
ServerStep-IsInOrder port _ _ (enqueues s sock m e h) b = record {
  handled = b.handled;
  order =
      ap (λ (l : List (Message _)). l ++ m ∷ []) b.order
      ∙ append_assoc b.handled (hand s.in_hand ++ s.queue) (m ∷ [])
      ∙ ap (λ l. b.handled ++ l) (append_assoc (hand s.in_hand) s.queue (m ∷ []));
  answered = b.answered;
}
ServerStep-IsInOrder port _ _ (gives_up s sock m e h) b = phase-IsInOrder port s _ b

ClientStep-IsInOrder :
    {A : Type 0} (port : ℕ) (works : UdpSystem A → Bool) (s s' : UdpSystem A)
    → ClientStep port works s s'
    → IsInOrder port s
    → IsInOrder port s'
ClientStep-IsInOrder port _ _ _ (takes s m rest e q) b = record {
  handled = b.handled;
  order = rw (e, q) at b.order;
  answered = b.answered;
}
ClientStep-IsInOrder port _ _ _ (answers s m e) b = record {
  handled = b.handled ++ m ∷ [];
  order = (rw e at b.order) ∙ sym (append_assoc b.handled (m ∷ []) s.queue);
  answered = rw b.answered (sym (discovery_task-snoc port b.handled m));
}

-- Whatever the two tasks do, in whatever order: the accepted messages are those that the discovery
-- task has dealt with, the one that it has in hand, and the queue, in this order, and it has
-- handed to `sendto` what its loop sends for those that it has dealt with, in their order.
pub Reachable-IsInOrder :
    {A : Type 0} (port : ℕ) (s : UdpSystem A) → Reachable port s → IsInOrder port s
unfolding discovery_task
Reachable-IsInOrder port _ starts = record { handled = []; order = refl; answered = refl }
Reachable-IsInOrder port s (serves before _ r step) =
    ServerStep-IsInOrder port before s step (Reachable-IsInOrder port before r)
Reachable-IsInOrder port s (discovers works before _ r step) =
    ClientStep-IsInOrder port works before s step (Reachable-IsInOrder port before r)
