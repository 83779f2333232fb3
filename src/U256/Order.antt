-- ===== src/U256/Order.antt =====
-- src/util/uint256.hpp: the comparisons and `is_zero`.
use btccpu.Prelude.{◌<◌, ◌≤◌, ◌≡◌, ◌↔◌, true, arith}
use btccpu.U256.{U256, IsU256, value, less, less_equal}

-- `operator<` orders 256-bit numbers by their values.
pub less_iff : (a b : U256) → IsU256 a → IsU256 b → (less a b ≡ true) ↔ (value a < value b)
unfolding less
less_iff a b ha hb = ground arith

-- `operator<=` orders 256-bit numbers by their values.
pub less_equal_iff :
    (a b : U256) → IsU256 a → IsU256 b → (less_equal a b ≡ true) ↔ (value a ≤ value b)
unfolding less_equal less
less_equal_iff a b ha hb = ground arith
