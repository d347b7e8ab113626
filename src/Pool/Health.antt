-- ===== src/Pool/Health.antt =====
-- pkg/pool/pool.go: a node is healthy only with a client, and its weight is at least one.
use go_es.Prelude.{
  ℕ, zero, suc, ◌≤◌, ◌≡◌, true, Option, none, some, List, [], ◌∷◌, ◌++◌, All, Text, arith,
}
use go_es.Prelude.Int.{ℤ, pos, negsuc}
use go_es.Pool.{
  Pool, PoolNode, PoolConfig, NodeConfig, Network, PoolCall, gets, checks, adds, removes, closes,
  has_client, weight_or_one, new_node, new_nodes, new_pool, scan_nodes, visit, Scan, subtract_at,
  settle, start_scan, rebalance, select_weighted_round_robin, without_first, first_healthy,
  move_first_to_end, get, check_node, check_nodes, check_health, add_node, nodes_without,
  remove_node, close, step, run,
}

pub record IsSound (n : PoolNode) : Type 0 where
  pub connected : n.healthy ≡ true → has_client n ≡ true
  pub heavy : 1 ≤ n.weight

weight_or_one_pos : (w : ℤ) → 1 ≤ weight_or_one w
weight_or_one_pos (pos n) = ground arith
weight_or_one_pos (negsuc n) = ground arith

new_node-IsSound : (net : Network) (k : ℕ) (config : NodeConfig) → IsSound (new_node net k config)
unfolding new_node
new_node-IsSound net k config = ground (arith, weight_or_one_pos config.weight)

new_nodes-IsSound :
    (net : Network) (k : ℕ) (configs : List NodeConfig) → All IsSound (new_nodes net k configs)
unfolding new_nodes
new_nodes-IsSound net k [] = tt
new_nodes-IsSound net k (c ∷ cs) = (new_node-IsSound net k c, new_nodes-IsSound net (suc k) cs)

All-append :
    (P : PoolNode → Type 0) (ms ns : List PoolNode) → All P ms → All P ns → All P (ms ++ ns)
All-append P [] ns h g = g
All-append P (m ∷ ms) ns h g = (h.0, All-append P ms ns h.1 g)

visit-IsSound : (k : ℕ) (n : PoolNode) (s : Scan) → IsSound n → IsSound (visit k n s).0
unfolding visit
visit-IsSound k n s h = ground arith

scan_nodes-IsSound :
    (k : ℕ) (ns : List PoolNode) (s : Scan) → All IsSound ns → All IsSound (scan_nodes k ns s).0
unfolding scan_nodes
scan_nodes-IsSound k [] s h = tt
scan_nodes-IsSound k (n ∷ ns) s h =
    (visit-IsSound k n s h.0, scan_nodes-IsSound (suc k) ns (visit k n s).1 h.1)

subtract_at-IsSound :
    (k : ℕ) (total : ℤ) (ns : List PoolNode) → All IsSound ns → All IsSound (subtract_at k total ns)
unfolding subtract_at
subtract_at-IsSound k total [] h = tt
subtract_at-IsSound zero total (n ∷ ns) h =
    (record { connected = h.0.connected; heavy = h.0.heavy }, h.1)
subtract_at-IsSound (suc k) total (n ∷ ns) h = (h.0, subtract_at-IsSound k total ns h.1)

settle-IsSound :
    (ns : List PoolNode) (total : ℤ) (max_node : Option (ℕ × ℤ))
    → All IsSound ns
    → All IsSound (settle ns total max_node)
unfolding settle
settle-IsSound ns total none h = h
settle-IsSound ns total (some (k, w)) h = subtract_at-IsSound k total ns h

rebalance-IsSound : (ns : List PoolNode) → All IsSound ns → All IsSound (rebalance ns)
unfolding rebalance
rebalance-IsSound ns h = settle-IsSound _ _ _ (scan_nodes-IsSound 0 ns start_scan h)

without_first-IsSound : (ns : List PoolNode) → All IsSound ns → All IsSound (without_first ns)
unfolding without_first
without_first-IsSound [] h = tt
without_first-IsSound (n ∷ ns) h = ground (arith, without_first-IsSound ns h.1)

first_healthy-IsSound : (ns : List PoolNode) → All IsSound ns → All IsSound (first_healthy ns)
unfolding first_healthy
first_healthy-IsSound [] h = tt
first_healthy-IsSound (n ∷ ns) h = ground (arith, first_healthy-IsSound ns h.1)

move_first_to_end-IsSound :
    (ns : List PoolNode) → All IsSound ns → All IsSound (move_first_to_end ns)
unfolding move_first_to_end
move_first_to_end-IsSound ns h = ground (
  arith,
  All-append IsSound (without_first ns) (first_healthy ns) (without_first-IsSound ns h)
      (first_healthy-IsSound ns h),
)

pub get-IsSound : (p : Pool) → All IsSound p.nodes → All IsSound (get p).0.nodes
unfolding get select_weighted_round_robin
get-IsSound p h = ground (arith, rebalance-IsSound p.nodes h, move_first_to_end-IsSound p.nodes h)

check_node-IsSound :
    (net : Network) (now k : ℕ) (n : PoolNode) → IsSound n → IsSound (check_node net now k n)
unfolding check_node
check_node-IsSound net now k n h = ground arith

check_nodes-IsSound :
    (net : Network) (now k : ℕ) (ns : List PoolNode)
    → All IsSound ns
    → All IsSound (check_nodes net now k ns)
unfolding check_nodes
check_nodes-IsSound net now k [] h = tt
check_nodes-IsSound net now k (n ∷ ns) h =
    (check_node-IsSound net now k n h.0, check_nodes-IsSound net now (suc k) ns h.1)

nodes_without-IsSound :
    (address : Text) (ns : List PoolNode) → All IsSound ns → All IsSound (nodes_without address ns)
unfolding nodes_without
nodes_without-IsSound address [] h = tt
nodes_without-IsSound address (n ∷ ns) h = ground (arith, nodes_without-IsSound address ns h.1)

remove_node-IsSound :
    (address : Text) (p : Pool) → All IsSound p.nodes → All IsSound (remove_node address p).0.nodes
unfolding remove_node
remove_node-IsSound address p h = ground (arith, nodes_without-IsSound address p.nodes h)

step-IsSound : (p : Pool) (call : PoolCall) → All IsSound p.nodes → All IsSound (step p call).nodes
unfolding step check_health add_node close
step-IsSound p gets h = get-IsSound p h
step-IsSound p (checks net now) h = check_nodes-IsSound net now 0 p.nodes h
step-IsSound p (adds net config) h =
    All-append IsSound p.nodes _ h (new_node-IsSound net 0 config, tt)
step-IsSound p (removes address) h = remove_node-IsSound address p h
step-IsSound p closes h = tt

run-IsSound :
    (p : Pool) (calls : List PoolCall) → All IsSound p.nodes → All IsSound (run p calls).nodes
unfolding run
run-IsSound p [] h = h
run-IsSound p (call ∷ calls) h = run-IsSound (step p call) calls (step-IsSound p call h)

-- Whatever the network answers and whatever calls are made, each node of a pool that was made by
-- `NewPool` is healthy only while it has a client, and its weight is at least one.
pub run-new_pool-IsSound :
    (net : Network) (config : PoolConfig) (calls : List PoolCall)
    → All IsSound (run (new_pool net config) calls).nodes
run-new_pool-IsSound net config calls =
    run-IsSound (new_pool net config) calls
      (unfold new_pool in new_nodes-IsSound net 0 config.nodes)
