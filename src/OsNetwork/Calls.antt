-- ===== src/OsNetwork/Calls.antt =====
-- What the operations of OsNetwork make of the results of the calls.
use neptun.Common.{
  ℕ, ◌+◌, ◌-◌, ◌%◌, ◌^◌, ◌≤◌, ◌<◌, ◌≡◌, ◌≢◌, ◌⊎◌, inl, inr, refl, sym, ap, ◌∙◌, [], ◌∷◌, arith,
  length, take, get_elem?, set, ◌==◌, ==_iff, Bool-cases, le→ltb_false, none, some, Outcome, ok,
  fault, ◌>>=◌,
}
use neptun.Io.{Span, subspan}
use neptun.IpAddress.{IpAddress}
use neptun.Metrics.{inc, inc_by, inc_by_lem}
use neptun.NetworkMetrics.{
  NetworkMetrics, packets_sent, packets_read, payload_ingress, payload_egress, network_metric_keys,
}
use neptun.Network.{FileDescriptor}
use neptun.OsNetwork.{
  Call, count, would_block, failed, Os, OsState, received, read_from_socket, sent, send_to,
}

-- The counters: packets sent and read, and bytes read and sent.
abbrev pub Counts : NetworkMetrics → ℕ → ℕ → ℕ → ℕ → Type 0
Counts m s r i e = m.values ≡ s ∷ r ∷ i ∷ e ∷ []

-- What the documentation of recvfrom promises: it fills no more than the buffer.
pub record IsSystem {O : Type 0} (os : Os O) : Type 0 where
  pub within :
      (o : O) (fd n : ℕ) (buffer : Span) → (os.recvfrom o fd buffer).0 ≡ count n → n ≤ length buffer
  pub same_size :
      (o : O) (fd : ℕ) (buffer : Span) → length (os.recvfrom o fd buffer).2 ≡ length buffer

-- One packet and its bytes are counted.
count_read :
    (m : NetworkMetrics) (s r i e amount : ℕ)
    → Counts m s r i e
    → (m' : NetworkMetrics) × ((inc m packets_read >>= λ m₁. inc_by m₁ payload_ingress amount)
        ≡ ok m')
      × Counts m' s ((r + 1) % 2 ^ 64) ((i + amount) % 2 ^ 64) e
unfolding inc
count_read m s r i e amount counts =
    let m₁ : NetworkMetrics = record m { values = s ∷ (r + 1) % 2 ^ 64 ∷ i ∷ e ∷ [] } in
    let first : inc m packets_read ≡ ok m₁ =
      inc_by_lem m packets_read 1 r (ap (λ v. get_elem? v 1) counts)
      ∙ ap (λ v. ok (record m { values = set v 1 ((r + 1) % 2 ^ 64) })) counts in
    (
      record m { values = s ∷ (r + 1) % 2 ^ 64 ∷ (i + amount) % 2 ^ 64 ∷ e ∷ [] },
      rw first (inc_by_lem m₁ payload_ingress amount i refl),
      refl,
    )

count_sent :
    (m : NetworkMetrics) (s r i e amount : ℕ)
    → Counts m s r i e
    → (m' : NetworkMetrics) × ((inc m packets_sent >>= λ m₁. inc_by m₁ payload_egress amount)
        ≡ ok m')
      × Counts m' ((s + 1) % 2 ^ 64) r i ((e + amount) % 2 ^ 64)
unfolding inc
count_sent m s r i e amount counts =
    let m₁ : NetworkMetrics = record m { values = (s + 1) % 2 ^ 64 ∷ r ∷ i ∷ e ∷ [] } in
    let first : inc m packets_sent ≡ ok m₁ =
      inc_by_lem m packets_sent 1 s (ap (λ v. get_elem? v 0) counts)
      ∙ ap (λ v. ok (record m { values = set v 0 ((s + 1) % 2 ^ 64) })) counts in
    (
      record m { values = (s + 1) % 2 ^ 64 ∷ r ∷ i ∷ (e + amount) % 2 ^ 64 ∷ [] },
      rw first (inc_by_lem m₁ payload_egress amount e refl),
      refl,
    )

-- Two steps of a chain whose results are known together.
two_steps :
    {A B C : Type 0} (m : Outcome A) (f : A → Outcome B) (g : B → Outcome C) (b : B)
    → (m >>= f) ≡ ok b
    → (m >>= λ a. f a >>= g) ≡ g b
two_steps fault f g b h = cc
two_steps {B = B} (ok a) f g b h = ap (λ (o : Outcome B). o >>= g) h

received_lem :
    {O : Type 0} (os : Os O) (n : OsState O) (k : ℕ) (sender : IpAddress) (buffer : Span)
    (s r i e : ℕ)
    → Counts n.metrics s r i e
    → k ≤ length buffer
    → (m : NetworkMetrics) × (received os n k sender buffer
        ≡ ok (
          some (record { sender = sender; payload = take k buffer }),
          buffer,
          record n { metrics = m },
        ))
      × Counts m s ((r + 1) % 2 ^ 64) ((i + k) % 2 ^ 64) e
unfolding received subspan
received_lem os n k sender buffer s r i e counts fits =
    let (m, run, counts') = count_read n.metrics s r i e k counts in
    let front : subspan buffer 0 k ≡ ok (take k buffer) =
      rw
        (
          subspan,
          le→ltb_false (length buffer) 0 (omega arith),
          le→ltb_false (length buffer - 0) k (omega (arith, fits)),
        )
        refl in
    (
      m,
      two_steps (inc n.metrics packets_read) (λ m₁. inc_by m₁ payload_ingress k) _ m run
          ∙ rw front refl,
      counts',
    )

Call-cases : (c : Call) → (c ≡ failed) ⊎ ((c ≡ would_block) ⊎ ((k : ℕ) × (c ≡ count k)))
Call-cases failed = inl refl
Call-cases would_block = inr (inl refl)
Call-cases (count k) = inr (inr (k, refl))

abbrev amount : Call → ℕ
amount (count k) = k
amount would_block = 0
amount failed = 0

-- `read_from_socket`, by what recvfrom returns, for a system that keeps to its documentation. It throws if
-- the call fails for another reason than that it would block. It returns none if the call would block or
-- has no bytes. Otherwise it returns the sender and the bytes that were read, and counts a packet and
-- the bytes.
pub read_from_socket_lem :
    {O : Type 0} (os : Os O) (n : OsState O) (fd : FileDescriptor) (buffer : Span) (s r i e : ℕ)
    → IsSystem os
    → Counts n.metrics s r i e
    → let (result, sender, bytes, system) = os.recvfrom n.system fd.value buffer in
      let n' : OsState O = record n { system = system } in
      ((result ≡ failed) × (read_from_socket os n fd buffer ≡ fault))
      ⊎ ((((result ≡ would_block) ⊎ (result ≡ count 0))
            × (read_from_socket os n fd buffer ≡ ok (none, bytes, n')))
          ⊎ ((k : ℕ) × (m : NetworkMetrics) × (result ≡ count k)
              × (0 < k)
              × (read_from_socket os n fd buffer
                  ≡ ok (
                    some (record { sender = sender; payload = take k bytes }),
                    bytes,
                    record n' { metrics = m },
                  ))
              × Counts m s ((r + 1) % 2 ^ 64) ((i + k) % 2 ^ 64) e))
unfolding read_from_socket
read_from_socket_lem os n fd buffer s r i e system counts =
    let (result, sender, bytes, after) = os.recvfrom n.system fd.value buffer in
    let n' : OsState _ = record n { system = after } in
    elim (Call-cases result) [
      | inl error ↦ inl (error, rw (read_from_socket, error) refl)
      | inr (inl empty) ↦ inr (inl (inl empty, rw (read_from_socket, empty) refl))
      | inr (inr (k, some_bytes)) ↦ elim (Bool-cases (k == 0)) [
        | inl nothing ↦
            let zero_bytes : result ≡ count 0 = some_bytes ∙ ap count ((==_iff k 0).0 nothing) in
            inr (inl (inr zero_bytes, rw (read_from_socket, some_bytes, nothing) refl))
        | inr something ↦
            let inside : k ≤ length bytes = omega (
              arith,
              system.within n.system fd.value k buffer some_bytes,
              system.same_size n.system fd.value buffer,
            ) in
            let (m, run, counts') = received_lem os n' k sender bytes s r i e counts inside in
            inr (
              inr (
                k,
                m,
                some_bytes,
                ground (arith, something),
                rw (read_from_socket, some_bytes, something) run,
                counts',
              ))
      ]
    ]

-- `send_to`, by what sendto returns: it throws unless the system has taken the whole payload. Then it
-- returns the payload's size, and counts a packet and the bytes.
pub os-send_to :
    {O : Type 0} (os : Os O) (n : OsState O) (fd : FileDescriptor) (ip : IpAddress) (payload : Span)
    (s r i e : ℕ)
    → Counts n.metrics s r i e
    → let (result, system) = os.sendto n.system fd.value payload ip in
      ((result ≢ count (length payload)) × (send_to os n fd ip payload ≡ fault))
      ⊎ ((m : NetworkMetrics) × (result ≡ count (length payload))
          × (send_to os n fd ip payload
              ≡ ok (length payload, record n { system = system; metrics = m }))
          × Counts m ((s + 1) % 2 ^ 64) r i ((e + length payload) % 2 ^ 64))
unfolding send_to sent
os-send_to os n fd ip payload s r i e counts =
    let (result, system) = os.sendto n.system fd.value payload ip in
    elim (Call-cases result) [
      | inl error ↦ inl (λ whole. cc, rw (send_to, error) refl)
      | inr (inl blocked) ↦ inl (λ whole. cc, rw (send_to, blocked) refl)
      | inr (inr (k, taken)) ↦ elim (Bool-cases (k == length payload)) [
        | inr part ↦ inl (
          λ whole. ground (arith, part, ap amount (sym taken ∙ whole)),
          rw (send_to, taken, sent, part) refl,
        )
        | inl all ↦
            let same = (==_iff k (length payload)).0 all in
            let (m, run, counts') = count_sent n.metrics s r i e (length payload) counts in
            inr (
              m,
              taken ∙ ap count same,
              rw (send_to, taken, same, sent, (==_iff (length payload) (length payload)).1 refl)
                  (two_steps (inc n.metrics packets_sent)
                    (λ m₁. inc_by m₁ payload_egress (length payload)) _ m run),
              counts',
            )
      ]
    ]
