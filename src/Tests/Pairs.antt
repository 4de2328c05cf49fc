-- ===== src/Tests/Pairs.antt =====
-- The theorems on the reachability relation at concrete inputs, with rows of bits.
use rupta_fork.BitVec.{BitVec}
use rupta_fork.Reach
use rupta_fork.Reach.{ReachabilityRelation}
use rupta_fork.Reach.Rows.{bit_row}

abbrev three : ReachabilityRelation BitVec
three = Reach.new bit_row 3
