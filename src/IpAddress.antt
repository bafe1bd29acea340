-- ===== src/IpAddress.antt =====
-- network/ip_address.h: IPv4 addresses with a port, and their text.
-- A `sockaddr_in` is what the code reads of it: the address and the port, both in the host's order.
-- A text is the list of its characters' codes.
pub mod Text
pub mod Order
pub mod Tests
use neptun.Common.{
  ℕ, zero, suc, ◌+◌, ◌-◌, ◌*◌, ◌/◌, ◌%◌, ◌^◌, List, [], ◌∷◌, ◌++◌, Bool, true, false, not, ◌&&◌,
  ◌||◌, ltb, leb, ◌==◌, if◌then◌else◌, bit_and, bit_or, Outcome, ok, fault, check, ◌>>=◌, ◌>>◌,
}
use neptun.Io.{Span}

-- `std::stoi`: white space is skipped, a sign is read, then digits up to the first other character. It
-- throws without a digit, and outside the range of `int`. The result is cut to 32 bits, as the caller
-- stores it.
abbrev is_digit : ℕ → Bool
is_digit c = leb b'0' c && leb c b'9'

abbrev is_space : ℕ → Bool
is_space c = c == 32 || leb 9 c && leb c 13

-- The digits at the front behind `n`.
unfoldable pub digits : ℕ → Span → ℕ
digits n [] = n
digits n (c ∷ s) = if not (is_digit c) then n else digits (n * 10 + (c - b'0')) s

abbrev starts_with_digit : Span → Bool
starts_with_digit [] = false
starts_with_digit (c ∷ s) = is_digit c

unfoldable pub magnitude : Span → ℕ → Outcome ℕ
unfolding digits
magnitude s limit = do check (starts_with_digit s); check (leb (digits 0 s) limit); ok (digits 0 s)

unfoldable pub signed : Span → Outcome ℕ
unfolding magnitude
signed [] = fault
signed (c ∷ s) =
    if c == b'-'
    then (magnitude s (2 ^ 31) >>= λ n. ok ((2 ^ 32 - n) % 2 ^ 32))
    else if c == b'+'
    then magnitude s (2 ^ 31 - 1)
    else magnitude (c ∷ s) (2 ^ 31 - 1)

unfoldable pub stoi : Span → Outcome ℕ
unfolding signed
stoi [] = fault
stoi (c ∷ s) = let rest = stoi s in if is_space c then rest else signed (c ∷ s)

-- `(0xffffff00) & (ip << 8) | (0x000000ff & byte)`.
unfoldable pub push_byte : ℕ → ℕ → ℕ
push_byte ip byte = bit_or (bit_and 0xffffff00 (ip * 2 ^ 8 % 2 ^ 32)) (bit_and 0x000000ff byte)

-- The loop of `ip_string_to_host`: `token` is the text since the last dot.
unfoldable pub parse_loop : ℕ → Span → Span → Outcome ℕ
unfolding stoi push_byte
parse_loop ip token [] = do byte ← stoi token; ok (push_byte ip byte)
parse_loop ip token (c ∷ s) =
    let longer = parse_loop ip (token ++ (c ∷ [])) s in
    let next = (stoi token >>= λ byte. parse_loop (push_byte ip byte) [] s) in
    if c == b'.' then next else longer

unfoldable pub ip_string_to_host : Span → Outcome ℕ
unfolding parse_loop
ip_string_to_host s = parse_loop 0 [] s

-- `std::to_string` of an unsigned number of 32 bits, which has ten digits or fewer.
unfoldable pub decimal : ℕ → ℕ → Span → Span
decimal zero n out = out
decimal (suc k) n out =
    let more = decimal k (n / 10) ((b'0' + n % 10) ∷ out) in
    if ltb n 10 then (b'0' + n) ∷ out else more

unfoldable pub to_decimal : ℕ → Span
unfolding decimal
to_decimal n = decimal 10 n []

-- The loop of `ip_host_to_string` with `n` of its rounds left.
unfoldable pub print_loop : ℕ → Span → Span → ℕ → Span
unfolding to_decimal
print_loop zero s sep ip = s
print_loop (suc n) s sep ip =
    let byte = bit_and 0xff000000 ip / 2 ^ 24 in
    print_loop n (s ++ (sep ++ to_decimal byte)) (b'.' ∷ []) (ip * 2 ^ 8 % 2 ^ 32)

unfoldable pub ip_host_to_string : ℕ → Span
unfolding print_loop
ip_host_to_string ip = print_loop 4 [] [] ip

pub record IpAddress : Type 0 where
  pub ip_as_host_long : ℕ
  pub port : ℕ

unfoldable pub from_u32 : ℕ → ℕ → IpAddress
from_u32 ip port = record { ip_as_host_long = ip; port = port }

unfoldable pub from_ipv4 : Span → ℕ → Outcome IpAddress
unfolding ip_string_to_host
from_ipv4 s port = do
  host_endian_ip ← ip_string_to_host s
  ok (record { ip_as_host_long = host_endian_ip; port = port })

unfoldable pub to_string : IpAddress → Span
unfolding ip_host_to_string to_decimal
to_string a = ip_host_to_string a.ip_as_host_long ++ ((b':' ∷ []) ++ to_decimal a.port)

-- `operator<` and `operator==`.
unfoldable pub less : IpAddress → IpAddress → Bool
less a b =
    ltb a.ip_as_host_long b.ip_as_host_long
    || (a.ip_as_host_long == b.ip_as_host_long && ltb a.port b.port)

unfoldable pub equal : IpAddress → IpAddress → Bool
unfolding less
equal a b = not (less a b) && not (less b a)
