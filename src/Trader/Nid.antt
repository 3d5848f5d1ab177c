-- ===== src/Trader/Nid.antt =====
-- `Trader::generateNid`, which `Report::generateNid` repeats.
pub mod Unique
use Prim.Native.Nat.{bit_or}
use inertia_trader.Common.{ℕ, ◌+◌, ◌-◌, ◌*◌, ◌%◌, ◌^◌, ◌<◌, ltb, if◌then◌else◌}
use inertia_trader.Common.Int.{ℤ, pos, negsuc}
use inertia_trader.Common.Action.{Action, Outcome, ok, fault}

-- `nid_sub1` and `nid_sub2`, two numbers of type `int`; neither is ever negative.
pub record NidSource : Type 0 where
  pub nid_sub1 : ℕ
  pub nid_sub2 : ℕ

abbrev pub int_max : ℕ
int_max = 2 ^ 31 - 1

-- `nid_sub1 = rand() % INT32_MAX` and `nid_sub2 = 1`
unfoldable pub new_source : ℕ → NidSource
new_source random = record { nid_sub1 = random % int_max; nid_sub2 = 1 }

-- `(((ulong) nid_sub1) << 32) | nid_sub2`
unfoldable pub unsigned_key : NidSource → ℕ
unsigned_key n = bit_or (n.nid_sub1 * 2 ^ 32 % 2 ^ 64) n.nid_sub2

-- `(long) unsignedKey`
unfoldable pub to_long : ℕ → ℤ
to_long k = if ltb k (2 ^ 63) then pos k else negsuc (2 ^ 64 - 1 - k)

-- `nid_sub2++` is undefined at the greatest `int`.
unfoldable pub generate_nid : Action NidSource ℤ
generate_nid n =
    if ltb n.nid_sub2 int_max
    then (ok (to_long (unsigned_key n)), record n { nid_sub2 = n.nid_sub2 + 1 })
    else (fault, n)
