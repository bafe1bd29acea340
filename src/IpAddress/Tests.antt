-- ===== src/IpAddress/Tests.antt =====
-- Runs of the text of addresses, and their theorems at concrete addresses.
use neptun.Common.{ℕ, ◌*◌, ◌+◌, ◌≡◌, refl, [], ◌∷◌, arith, ok, fault}
use neptun.Io.{Span}
use neptun.IpAddress.{IpAddress, ip_string_to_host, ip_host_to_string}
use neptun.IpAddress.Text.{print_parse}

abbrev loopback : ℕ
loopback = 127 * 16777216 + 1

abbrev loopback_text : Span
loopback_text = b'1' ∷ b'2' ∷ b'7' ∷ b'.' ∷ b'0' ∷ b'.' ∷ b'0' ∷ b'.' ∷ b'1' ∷ []

abbrev server : IpAddress
server = record { ip_as_host_long = loopback; port = 7778 }

loopback_text_lem : ip_host_to_string loopback ≡ loopback_text
unfolding ip_host_to_string
loopback_text_lem = refl

-- More than four numbers: the first ones are shifted out.
five_numbers : ip_string_to_host (b'9' ∷ b'.' ∷ loopback_text) ≡ ok loopback
unfolding ip_string_to_host
five_numbers = refl

-- A number above 255 is cut to its last byte, and white space is skipped.
large_number : ip_string_to_host (b' ' ∷ b'2' ∷ b'5' ∷ b'7' ∷ []) ≡ ok 1
unfolding ip_string_to_host
large_number = refl

-- An empty field has no number, which throws.
empty_field : ip_string_to_host (b'1' ∷ b'.' ∷ b'.' ∷ []) ≡ fault
unfolding ip_string_to_host
empty_field = refl

print_parse_example : ip_string_to_host (ip_host_to_string loopback) ≡ ok loopback
print_parse_example = print_parse loopback (omega arith)
