-- ===== src/Discovery/Laws.antt =====
-- Which datagrams are answered, and with what.
use esp32_idf_ascom_alpaca.Base.{
  ◌≡◌, refl, ◌≢◌, ◌↔◌, true, [], ◌∷◌, arith, length, All, ℕ, inl, inr, some, Bool-cases, Option,
  none, List,
}
use esp32_idf_ascom_alpaca.Base.Text.{Bytes}
use esp32_idf_ascom_alpaca.Discovery.{
  strncmp_eq, UdpMessage, discovery_round, discovery_response, discovery_text, discovery_task,
}

-- `a` stands at the beginning of `b`.
abbrev pub StartsWith : Bytes → Bytes → Type 0
StartsWith [] b = Unit
StartsWith (c ∷ a) [] = ⊥
StartsWith (c ∷ a) (d ∷ b) = (c ≡ d) × StartsWith a b

-- No byte is 0.
abbrev pub NoNul : Bytes → Type 0
NoNul = All (λ c. c ≢ 0)

strncmp_eq-StartsWith :
    (s t : Bytes) → NoNul t → NoNul s → (strncmp_eq (length s) s t ≡ true) ↔ StartsWith s t
unfolding strncmp_eq
strncmp_eq-StartsWith [] t h k = (λ e. tt, λ e. refl)
strncmp_eq-StartsWith (c ∷ s) [] h (k, ks) = ground arith
strncmp_eq-StartsWith (c ∷ s) (d ∷ t) (h, hs) (k, ks) =
    ground (arith, strncmp_eq-StartsWith s t hs ks)

-- A message whose length is that of its bytes, none of which is 0.
abbrev pub IsText : {T : Type 0} → UdpMessage T → Type 0
IsText m = (m.length ≡ length m.bytes) × NoNul m.bytes

-- The answer to a message: it goes back to where the message came from.
abbrev pub answer_to : {T : Type 0} → ℕ → UdpMessage T → UdpMessage T
answer_to port m = record m {
  bytes = discovery_response port;
  length = length (discovery_response port);
}

-- A datagram with no byte 0 is answered exactly when it stands at the beginning of
-- "alpacadiscovery1" (so the empty one and every shorter beginning are answered too), and then with
-- the port, to its sender.
pub discovery_round_iff :
    {T : Type 0} (port : ℕ) (m : UdpMessage T)
    → IsText m
    → (discovery_round port m ≡ some (answer_to port m)) ↔ StartsWith m.bytes discovery_text
unfolding discovery_round
discovery_round_iff port m (len, plain) =
    let (to, from) = strncmp_eq-StartsWith m.bytes discovery_text (omega arith) plain in
    (
      λ e. elim (Bool-cases (strncmp_eq m.length m.bytes discovery_text)) [
        | inl h ↦ to (rw len at h)
        | inr h ↦ absurd (ground arith)
      ],
      λ st. rw len (rw (from st)),
    )

-- What the task does: an error is skipped, a message that stands at the beginning of
-- "alpacadiscovery1" is answered, any other is not. The answers come in the order of the messages.
pub data Answers {T : Type 0} (port : ℕ)
    : List (Option (UdpMessage T)) → List (UdpMessage T) → Type 0 where
  finished : Answers port [] []
  skipped :
      {ms : List (Option (UdpMessage T))} {out : List (UdpMessage T)}
      → Answers port ms out
      → Answers port (none ∷ ms) out
  matching :
      {m : UdpMessage T} {ms : List (Option (UdpMessage T))} {out : List (UdpMessage T)}
      → StartsWith m.bytes discovery_text
      → Answers port ms out
      → Answers port (some m ∷ ms) (answer_to port m ∷ out)
  ignored :
      {m : UdpMessage T} {ms : List (Option (UdpMessage T))} {out : List (UdpMessage T)}
      → ¬ (StartsWith m.bytes discovery_text)
      → Answers port ms out
      → Answers port (some m ∷ ms) out

-- Every message that was received is text.
abbrev pub AreText : {T : Type 0} → List (Option (UdpMessage T)) → Type 0
AreText [] = Unit
AreText (none ∷ ms) = AreText ms
AreText (some m ∷ ms) = IsText m × AreText ms

-- The task refines the relation `Answers`: for every sequence of results of `udp_server_recv` whose
-- messages have the length of their bytes and hold no byte 0, it sends one answer to each message
-- that stands at the beginning of "alpacadiscovery1", none to any other, in order. So the empty
-- message and every shorter beginning are answered too, unlike the comment of the code, which names
-- the whole text.
pub discovery_task-Answers :
    {T : Type 0} (port : ℕ) (ms : List (Option (UdpMessage T)))
    → AreText ms
    → Answers port ms (discovery_task port ms)
unfolding discovery_task discovery_round
discovery_task-Answers port [] h = finished
discovery_task-Answers port (none ∷ ms) h = skipped (discovery_task-Answers port ms h)
discovery_task-Answers port (some m ∷ ms) ((len, plain), hs) =
    let (to, from) = strncmp_eq-StartsWith m.bytes discovery_text (omega arith) plain in
    let later = discovery_task-Answers port ms hs in
    elim (Bool-cases (strncmp_eq m.length m.bytes discovery_text)) [
      | inl h ↦ rw (h, discovery_task, discovery_round) (matching (to (rw len at h)) later)
      | inr h ↦
          rw (h, discovery_task, discovery_round)
            (ignored (λ st. absurd (let q = from st in ground arith)) later)
    ]
