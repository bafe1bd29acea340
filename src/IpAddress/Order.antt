-- ===== src/IpAddress/Order.antt =====
-- The comparisons: a strict total order, and its equality.
use neptun.Common.{◌≡◌, ◌⊎◌, ◌↔◌, true, arith}
use neptun.IpAddress.{IpAddress, less, equal}

-- `operator==` answers whether the address and the port are the same.
pub equal_iff : (a b : IpAddress) → (equal a b ≡ true) ↔ (a ≡ b)
unfolding equal
equal_iff a b = ground arith

-- `operator<` is transitive.
pub less_trans : (a b c : IpAddress) → less a b ≡ true → less b c ≡ true → less a c ≡ true
unfolding less
less_trans a b c h k = ground arith

-- Of two different addresses one is before the other.
pub less_total : (a b : IpAddress) → (less a b ≡ true) ⊎ (a ≡ b) ⊎ (less b a ≡ true)
unfolding less
less_total a b = ground arith
