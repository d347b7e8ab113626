-- ===== src/Pool/Tests.antt =====
-- pkg/pool: the theorems on the pool at concrete inputs.
use go_es.Prelude.{
  ℕ, ◌+◌, ◌*◌, ◌<◌, ◌≤◌, ◌≡◌, refl, true, none, some, List, [], ◌∷◌, All, text_eq, Text, text,
  length, inr, arith,
}
use go_es.Prelude.Int.{wrap64, ◌+ℤ◌, ◌-ℤ◌, ℤ, pos, negsuc}
use go_es.Pool.{
  chosen, rebalance, scan_nodes, visit, raised, settle, subtract_at, Pool, PoolNode, PoolConfig,
  NodeConfig, Network, new_pool, run, gets, checks, get, healthy_nodes, removes, chosen, rebalance,
  scan_nodes, visit, raised, wrap64, ◌+ℤ◌, ◌-ℤ◌,
}
use go_es.Pool.Health.{IsSound, run-new_pool-IsSound}
use go_es.Pool.Rotation.{after_gets, get-serves_each}
use go_es.Pool.Balance.{total, weight_at}
use go_es.Pool.Fairness.{served, served_bounds}

abbrev node_config : Text → ℤ → NodeConfig
node_config address weight = record {
  addresses = address ∷ [];
  username = [];
  password = [];
  weight = weight;
}

abbrev config : Text → PoolConfig
config balancer = record {
  nodes =
      node_config (text "a") (pos 2)
      ∷ node_config (text "b") (pos 1)
      ∷ node_config (text "c") (negsuc 4)
      ∷ [];
  health_check_interval = pos 0;
  load_balancer = balancer;
}

-- Every node can be reached and answers.
abbrev net : Network
net = record { new_client = λ k c. inr k; ping = λ k c. (true, none) }

run-new_pool-IsSound_example :
    All IsSound
      (run (new_pool net (config [])) (gets ∷ checks net 5 ∷ removes (text "b") ∷ gets ∷ [])).nodes
run-new_pool-IsSound_example =
    run-new_pool-IsSound net (config []) (gets ∷ checks net 5 ∷ removes (text "b") ∷ gets ∷ [])

abbrev node : ℕ → ℕ → PoolNode
node c w = record {
  client = some c;
  config = node_config (text "a") (pos w);
  healthy = true;
  last_check = 0;
  weight = w;
  current_weight = pos w;
}

abbrev trio : List PoolNode
trio = node 7 3 ∷ node 8 1 ∷ node 9 1 ∷ []

abbrev turns : Pool
turns = record { nodes = trio; config = config (text "round_robin"); closed = [] }

sound : (c w : ℕ) → 1 ≤ w → IsSound (node c w)
sound c w h = record { connected = λ _. refl; heavy = h }

get-serves_each_example : (get (after_gets 2 turns)).1 ≡ inr (some 9)
unfolding text_eq
get-serves_each_example =
    get-serves_each turns (node 7 3 ∷ node 8 1 ∷ []) (node 9 1) [] refl
      (sound 7 3 (omega arith), (sound 8 1 (omega arith), (sound 9 1 (omega arith), tt)))
      (unfold healthy_nodes in refl)

served_bounds_example :
    (total trio * served 5 0 trio < (5 + 1) * weight_at 0 trio + total trio)
    × ((5 + 1) * weight_at 0 trio ≤ total trio * served 5 0 trio + (length trio + 1) * total trio)
served_bounds_example =
    served_bounds trio 0 5 (refl, (refl, (refl, tt))) refl (omega arith) (omega arith)

-- Of five selections the first node, of weight three, takes three.
served_in_five : served 5 0 trio ≡ 3
unfolding served chosen rebalance scan_nodes visit raised wrap64 ◌+ℤ◌ ◌-ℤ◌ settle subtract_at
served_in_five = refl
