-- ===== src/Votes/Tests.antt =====
-- The theorems on the vote threshold at concrete numbers of votes.
use akropolis_os_chain_node.Common.{◌*◌, ◌≡◌, true, ltb, leb, ◌==◌, if◌then◌else◌, arith, refl}
use akropolis_os_chain_node.Votes.{votes_are_enough}
use akropolis_os_chain_node.Votes.Threshold.{votes_are_enough-rule, votes_are_enough-exclusive}

votes_are_enough-rule_example :
    votes_are_enough 51 100 ≡ (if 100 == 0 then ltb 0 51 else leb (51 * 100) (100 * 51))
votes_are_enough-rule_example = votes_are_enough-rule 51 100 (omega arith) (omega arith)

votes_are_enough-exclusive_example : ¬ (votes_are_enough 4 10 ≡ true)
unfolding votes_are_enough
votes_are_enough-exclusive_example =
    votes_are_enough-exclusive 6 4 10 (omega arith) (omega arith) refl
