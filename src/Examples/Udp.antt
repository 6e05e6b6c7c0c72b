-- ===== src/Examples/Udp.antt =====
-- The two tasks of the discovery at one datagram, which is taken once its socket is closed.
use esp32_idf_ascom_alpaca.Base.{
  Bool, true, false, ℕ, ◌≤◌, ◌≡◌, ◌≢◌, refl, some, [], ◌∷◌, map, arith, get_elem?,
}
use esp32_idf_ascom_alpaca.UdpServer.{
  opening, receiving, sending, opens, closes, receives, enqueues, takes, starts, serves, discovers,
  UdpSystem, make_message, start, Reachable, ClientRun, ServerStep, stopped,
}
use esp32_idf_ascom_alpaca.Base.Text.{Bytes, codes}
use esp32_idf_ascom_alpaca.UdpServer.Fifo.{IsInOrder, Reachable-IsInOrder}
use esp32_idf_ascom_alpaca.Discovery.{discovery_task}
use esp32_idf_ascom_alpaca.UdpServer.Progress.{Reachable-goes_on, Reachable-IsAnswered}
use esp32_idf_ascom_alpaca.UdpServer.Heard.{reply, Reachable-IsHeard}

abbrev question : Bytes
question = codes "alpacadiscovery1"

abbrev opened : UdpSystem ℕ
opened = record start { phase = receiving 5 }

abbrev arrived : UdpSystem ℕ
arrived = record opened { phase = sending 5 (make_message 5 question 7) }

abbrev queued : UdpSystem ℕ
queued = record opened {
  queue = make_message 5 question 7 ∷ [];
  accepted = make_message 5 question 7 ∷ [];
}

queued-Reachable : Reachable 80 queued
unfolding make_message
queued-Reachable =
    serves arrived queued
      (serves opened arrived (serves start opened starts (opens start 5 refl))
        (receives opened 5 question 7 refl (omega arith)))
      (enqueues arrived 5 (make_message 5 question 7) refl (omega arith))

-- Nothing can be sent on the socket when it is closed.
abbrev until_closed : UdpSystem ℕ → Bool
until_closed s = elim s.phase [ receiving sock ↦ true | other ↦ false ]

Reachable-IsInOrder_example : IsInOrder 80 queued
Reachable-IsInOrder_example = Reachable-IsInOrder 80 queued queued-Reachable

Reachable-IsAnswered_example :
    (n : ℕ) × (s' : UdpSystem ℕ) × ClientRun 80 until_closed n queued s'
    × (n ≤ 21)
    × (s'.queue ≡ [])
    × (s'.accepted ≡ queued.accepted)
    × (s'.handed ≡ discovery_task 80 (map some queued.accepted))
Reachable-IsAnswered_example = Reachable-IsAnswered 80 until_closed queued queued-Reachable

receiving_goes_on : queued.phase ≢ stopped
receiving_goes_on e = cc

Reachable-goes_on_example : (s' : UdpSystem ℕ) × ServerStep queued s'
Reachable-goes_on_example = Reachable-goes_on 80 queued queued-Reachable receiving_goes_on

-- The message is taken from the queue when socket 5 is closed, and is answered on it.
abbrev closed : UdpSystem ℕ
closed = record queued { phase = opening }

abbrev late : UdpSystem ℕ
late = record queued { phase = opening; queue = []; in_hand = some (make_message 5 question 7) }

late-Reachable : Reachable 80 late
unfolding make_message
late-Reachable =
    discovers until_closed closed late
      (serves queued closed queued-Reachable (closes queued 5 refl))
      (takes closed (make_message 5 question 7) [] refl refl)

Reachable-IsHeard_example :
    (n : ℕ) × (s' : UdpSystem ℕ) × ClientRun 80 until_closed n queued s'
    × (n ≤ 21)
    × (j : ℕ) × (get_elem? s'.handed j ≡ some (reply 80 5 7))
Reachable-IsHeard_example = Reachable-IsHeard 80 until_closed queued 0 5 7 queued-Reachable refl
