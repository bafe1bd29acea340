-- ===== src/Format/Ends.antt =====
-- The walk over the segments ends: each takes two bytes at least.
use neptun.Common.{
  ℕ, zero, suc, ◌+◌, ◌-◌, ◌≤◌, ◌≡◌, inl, inr, ap, [], ◌∷◌, ltb, ◌==◌, length, drop, length-drop,
  none, Outcome, ok, check, ok-injective, Bool-cases, ◌++◌, codes, Option, ltb_false→le, arith, ◌≢◌,
  Ensures, >>=-Ensures, Ensures-ok, Ensures-weaken, IsSome, Ensures-ne-none, Ensures-map,
}
use neptun.Io.{Span, advance}
use neptun.Messages.PacketHeader
use neptun.Messages.Segment
use neptun.Messages.MessageHeader
use neptun.Messages.LetsConnect
use neptun.Messages.RejectLetsConnect
use neptun.Messages.ReliableMessage
use neptun.Messages.UnreliableMessage
use neptun.Format.{
  format_lets_connect, append_connection_manager_segment, append_reliable_segment,
  append_unreliable_segment, append_messages, append_segment, format_loop, format_neptun_payload,
  header_text,
}

length-advance : (b rest : Span) (n : ℕ) → advance b n ≡ ok rest → length rest + n ≡ length b
unfolding advance
length-advance b rest n run = elim (Bool-cases (ltb (length b) n)) [
  | inl short ↦ absurd (cc (rw short at run))
  | inr enough ↦
      let same : drop n b ≡ rest = ok-injective (rw enough at run) in
      omega (arith, ap length same, length-drop n b, ltb_false→le (length b) n enough)
]

-- If a part of the walk returns, it leaves no more bytes than `size`.
abbrev LeftWithin : ℕ → Span × Span → Type 0
LeftWithin size r = length r.1 ≤ size

abbrev Leaves : ℕ → Outcome (Span × Span) → Type 0
Leaves size = Ensures (LeftWithin size)

lets_connect-Leaves : (payload : Span) → Leaves (length payload) (format_lets_connect payload)
unfolding format_lets_connect
lets_connect-Leaves payload = >>=-Ensures _ (advance payload 6) _ λ rest run.
    >>=-Ensures _ (LetsConnect.max_read_packet_rate payload) _ λ a _.
      >>=-Ensures _ (LetsConnect.max_read_packet_size payload) _ λ b _.
        >>=-Ensures _ (LetsConnect.max_send_packet_rate payload) _ λ c _.
          >>=-Ensures _ (LetsConnect.max_send_packet_size payload) _
            λ d _. omega (arith, length-advance payload rest 6 run)

connection-Leaves :
    (payload : Span) → Leaves (length payload) (append_connection_manager_segment payload)
unfolding append_connection_manager_segment
connection-Leaves payload = >>=-Ensures _ (advance payload 1) _ λ rest run.
    >>=-Ensures _ (MessageHeader.message_type payload) _ λ t _.
      let shorter : length rest ≤ length payload =
        omega (arith, length-advance payload rest 1 run) in
      elim (Bool-cases (t == LetsConnect.k_id)) [
        | inl request ↦ rw request (
            Ensures-weaken (LeftWithin (length rest)) (LeftWithin (length payload))
              (format_lets_connect rest) (λ r h. omega (arith, h, shorter))
              (lets_connect-Leaves rest))
        | inr other ↦ elim (Bool-cases (t == RejectLetsConnect.k_id)) [
          | inl rejection ↦ rw (other, rejection) shorter
          | inr unknown ↦ rw (other, unknown) shorter
        ]
      ]

reliable-Leaves :
    (n : ℕ) (payload : Span) → Leaves (length payload) (append_reliable_segment n payload)
unfolding append_reliable_segment
reliable-Leaves zero payload = omega arith
reliable-Leaves (suc n) payload = >>=-Ensures _ (ReliableMessage.size payload) _ λ size _.
    >>=-Ensures _ (advance payload size) _ λ rest run.
      >>=-Ensures _ (ReliableMessage.sequence_number payload) _ λ number _.
        >>=-Ensures _ (ReliableMessage.length payload) _ λ count _.
          >>=-Ensures _ (ReliableMessage.payload payload) _ λ bytes _.
            >>=-Ensures _ (append_reliable_segment n rest) _ λ r got. omega (
              arith,
              length-advance payload rest size run,
              Ensures-ok (LeftWithin (length rest)) (append_reliable_segment n rest) r got
                  (reliable-Leaves n rest),
            )

unreliable-Leaves :
    (n : ℕ) (payload : Span) → Leaves (length payload) (append_unreliable_segment n payload)
unfolding append_unreliable_segment
unreliable-Leaves zero payload = omega arith
unreliable-Leaves (suc n) payload = >>=-Ensures _ (UnreliableMessage.size payload) _ λ size _.
    >>=-Ensures _ (advance payload size) _ λ rest run.
      >>=-Ensures _ (UnreliableMessage.length payload) _ λ count _.
        >>=-Ensures _ (UnreliableMessage.payload payload) _ λ bytes _.
          >>=-Ensures _ (append_unreliable_segment n rest) _ λ r got. omega (
            arith,
            length-advance payload rest size run,
            Ensures-ok (LeftWithin (length rest)) (append_unreliable_segment n rest) r got
                (unreliable-Leaves n rest),
          )

messages-Leaves : (t n : ℕ) (payload : Span) → Leaves (length payload) (append_messages t n payload)
unfolding append_messages
messages-Leaves t n payload = elim (Bool-cases (t == Segment.connection_manager)) [
  | inl manager ↦ rw manager (
      >>=-Ensures _ (check (n == 1)) (λ _. append_connection_manager_segment payload)
        λ _ _. connection-Leaves payload)
  | inr first ↦ elim (Bool-cases (t == Segment.reliable_stream)) [
    | inl reliable ↦ rw (first, reliable) (reliable-Leaves n payload)
    | inr second ↦ elim (Bool-cases (t == Segment.unreliable_stream)) [
      | inl unreliable ↦ rw (first, second, unreliable) (unreliable-Leaves n payload)
      | inr unknown ↦ rw (first, second, unknown) tt
    ]
  ]
]

-- A segment takes its two bytes.
segment-Leaves : (payload : Span) → Leaves (length payload - 2) (append_segment payload)
unfolding append_segment
segment-Leaves payload = >>=-Ensures _ (Segment.manager_type payload) _ λ t _.
    >>=-Ensures _ (Segment.message_count payload) _ λ n _.
      >>=-Ensures _ (advance payload 2) _ λ rest run.
        >>=-Ensures _ (append_messages t n rest) _ λ r got. omega (
          arith,
          length-advance payload rest 2 run,
          Ensures-ok (LeftWithin (length rest)) (append_messages t n rest) r got
              (messages-Leaves t n rest),
        )

-- A run that faults or returns a text, rather than to end for want of rounds.
abbrev Ends : Outcome (Option Span) → Type 0
Ends = Ensures IsSome

loop-Ends :
    (fuel : ℕ) (sep payload : Span) → length payload ≤ fuel → Ends (format_loop fuel sep payload)
unfolding format_loop
loop-Ends fuel sep [] h = tt
loop-Ends zero sep (byte ∷ payload) h = absurd (omega arith)
loop-Ends (suc fuel) sep (byte ∷ payload) h =
    let bytes = byte ∷ payload in
    >>=-Ensures IsSome (append_segment bytes) _ λ r got.
      Ensures-map (format_loop fuel (codes " ") r.1) (λ others. sep ++ (r.0 ++ others))
        (loop-Ends fuel (codes " ") r.1 (
          omega (
            arith,
            Ensures-ok (LeftWithin (length bytes - 2)) (append_segment bytes) r got
                (segment-Leaves bytes),
          )))

payload-Ends :
    (fuel : ℕ) (payload : Span) → length payload ≤ fuel → Ends (format_neptun_payload fuel payload)
unfolding format_neptun_payload
payload-Ends fuel payload h = >>=-Ensures IsSome (advance payload 12) _ λ rest run.
    >>=-Ensures IsSome (PacketHeader.id payload) _ λ id _.
      >>=-Ensures IsSome (PacketHeader.ack_sequence_number payload) _ λ number _.
        >>=-Ensures IsSome (PacketHeader.ack_bitmask payload) _ λ bitmask _.
          Ensures-map (format_loop fuel [] rest) (λ text. header_text id number bitmask ++ text)
            (loop-Ends fuel [] rest (omega (arith, h, length-advance payload rest 12 run)))

-- The walk over any payload ends: with as many rounds as the payload has bytes, or more, it returns a
-- text or faults, and never runs out of them.
pub format_neptun_payload-ne-none :
    (fuel : ℕ) (payload : Span)
    → length payload ≤ fuel
    → format_neptun_payload fuel payload ≢ ok none
format_neptun_payload-ne-none fuel payload h =
    Ensures-ne-none (format_neptun_payload fuel payload) (payload-Ends fuel payload h)
