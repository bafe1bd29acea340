-- ===== src/FakeNetwork/Tests.antt =====
-- The theorems of FakeNetwork at concrete networks.
use neptun.Common.{ℕ, ◌==◌, ◌≡◌, refl, List, [], ◌∷◌, map, none, some, false, ok, arith}
use neptun.Io.{Span}
use neptun.IpAddress.{IpAddress, equal, less, to_string}
use neptun.IpMap.{find, find_or}
use neptun.Network.{FileDescriptor}
use neptun.FakeNetwork.{FakeNetwork, find_ip, find_if, same_text, ip_address_or_socket_predicate}
use neptun.FakeNetwork.Steps.{queue, pending, info}
use neptun.FakeNetwork.Delivery.{send_all, read_all, read_all-send_all}
use neptun.FakeNetwork.Sockets.{IsWellBound}

abbrev address : ℕ → IpAddress
address port = record { ip_as_host_long = 2130706433; port = port }

abbrev socket : ℕ → FileDescriptor
socket n = record { value = n }

-- Two sockets at the ports 7 and 8, and an MTU of 3.
abbrev two : FakeNetwork
two = record {
  packet_formatter = none;
  should_log_packets = false;
  mtu = 3;
  next_fd = 2;
  should_drop_packets = false;
  bound = (address 7, socket 0) ∷ (address 8, socket 1) ∷ [];
  buffers = [];
  stats_by_ip = [];
  output = [];
}

abbrev one : FakeNetwork
one = record two { bound = (address 7, socket 0) ∷ [] }

two-IsWellBound : IsWellBound two
unfolding ip_address_or_socket_predicate to_string
two-IsWellBound = ((omega arith, (omega arith, tt)), ((refl, tt), (tt, tt)))

first_found : find_ip two (socket 0) ≡ some (address 7)
unfolding find_ip
first_found = refl

second_found : find_ip two (socket 1) ≡ some (address 8)
unfolding find_ip
second_found = refl

third_missing : find_ip two (socket 2) ≡ none
unfolding find_ip
third_missing = refl

nothing_waits : queue two (address 8) ≡ []
unfolding find_or find
nothing_waits = refl

unused : find_if (λ c. same_text (to_string (address 9)) (to_string c.0)) two.bound ≡ none
unfolding find_if same_text to_string
unused = refl

other_port : (p q : ℕ) → (p == q) ≡ false → equal (address p) (address q) ≡ false
unfolding equal less
other_port p q h = ground arith

-- The third byte of the first payload does not fit the reader's buffer, nor the fourth the MTU.
abbrev payloads : List Span
payloads = (1 ∷ 2 ∷ 3 ∷ 4 ∷ []) ∷ (5 ∷ []) ∷ []

read_all-send_all_example :
    (n' n'' : FakeNetwork) × (send_all two (socket 0) (address 8) payloads ≡ ok n')
    × (read_all 2 n' (socket 1) (0 ∷ 0 ∷ [])
        ≡ ok (map (λ p. some (info 2 (pending 3 (address 7) p))) payloads, n''))
    × (queue n'' (address 8) ≡ [])
read_all-send_all_example =
    read_all-send_all two (socket 0) (socket 1) (address 7) (address 8) payloads (0 ∷ 0 ∷ [])
      first_found second_found refl nothing_waits
