-- ===== src/Pool.antt =====
-- pkg/pool/pool.go: the pool of clients. A client is the number that its pointer stands for. What a
-- call of `client.NewClient` or `Ping` gives is decided by the network: the functions of `Network`
-- take the number of the call within the operation. The methods run one at a time, although `Get`
-- changes the nodes while it holds the read lock only.
pub mod Balance
pub mod Choice
pub mod Deduction
pub mod Fairness
pub mod Rotation
mod Tests
pub mod Health
use go_es.Prelude.{
  ℕ, zero, suc, ◌+◌, Bool, true, false, not, ◌&&◌, Option, none, some, List, [], ◌∷◌, ◌++◌, ◌⊎◌,
  inl, inr, ◌==◌, Text, text_Comparable, text, length, leb, nat_eq, if◌then◌else◌,
}
use go_es.Prelude.Int.{ℤ, pos, negsuc, ◌+ℤ◌, ◌-ℤ◌, ltb_ℤ, wrap64, positive}
use go_es.Prelude.Sets.{contains}

pub record NodeConfig : Type 0 where
  pub addresses : List Text
  pub username : Text
  pub password : Text
  pub weight : ℤ

pub record PoolConfig : Type 0 where
  pub nodes : List NodeConfig
  pub health_check_interval : ℤ
  pub load_balancer : Text

-- `current_weight` is an int of 64 bits.
pub record PoolNode : Type 0 where
  pub client : Option ℕ
  pub config : NodeConfig
  pub healthy : Bool
  pub last_check : ℕ
  pub weight : ℕ
  pub current_weight : ℤ

pub record Pool : Type 0 where
  pub nodes : List PoolNode
  pub config : PoolConfig
  pub closed : List ℕ

pub record Network : Type 0 where
  pub new_client : ℕ → NodeConfig → Text ⊎ ℕ
  pub ping : ℕ → ℕ → Bool × Option Text

abbrev pub weight_or_one : ℤ → ℕ
weight_or_one (pos n) = if nat_eq n 0 then 1 else n
weight_or_one (negsuc n) = 1

-- What `NewPool` and `AddNode` append for a configuration.
unfoldable pub new_node : Network → ℕ → NodeConfig → PoolNode
new_node net k config =
    let weight : ℕ = weight_or_one config.weight in
    elim (net.new_client k config) [
      | inl reason ↦ record {
        client = none;
        config = config;
        healthy = false;
        last_check = 0;
        weight = weight;
        current_weight = pos weight;
      }
      | inr c ↦ record {
        client = some c;
        config = config;
        healthy = (net.ping k c).0;
        last_check = 0;
        weight = weight;
        current_weight = pos weight;
      }
    ]

unfoldable pub new_nodes : Network → ℕ → List NodeConfig → List PoolNode
new_nodes net k [] = []
new_nodes net k (config ∷ configs) = new_node net k config ∷ new_nodes net (suc k) configs

unfoldable pub new_pool : Network → PoolConfig → Pool
unfolding new_nodes
new_pool net config = record {
  nodes = new_nodes net 0 config.nodes;
  config = record config {
    health_check_interval =
        if positive config.health_check_interval
        then config.health_check_interval
        else pos 30_000_000_000;
  };
  closed = [];
}

abbrev pub has_client : PoolNode → Bool
has_client n = elim n.client [ none ↦ false | some _ ↦ true ]

abbrev pub is_usable : PoolNode → Bool
is_usable n = n.healthy && has_client n

-- `getHealthyNodesLocked`
unfoldable pub healthy_nodes : List PoolNode → List PoolNode
healthy_nodes [] = []
healthy_nodes (n ∷ ns) = if is_usable n then n ∷ healthy_nodes ns else healthy_nodes ns

-- The variables of the loop of `selectWeightedRoundRobin`: the node of the largest current weight
-- by its position, with that weight.
pub record Scan : Type 0 where
  pub total_weight : ℤ
  pub max_node : Option (ℕ × ℤ)

-- The current weight once its own weight is added.
unfoldable pub raised : PoolNode → ℤ
raised n = wrap64 (n.current_weight +ℤ pos n.weight)

abbrev pub is_heavier : ℤ → Option (ℕ × ℤ) → Bool
is_heavier w none = true
is_heavier w (some (_, max_weight)) = ltb_ℤ max_weight w

-- One turn of the loop, at the node of position `k`.
unfoldable pub visit : ℕ → PoolNode → Scan → PoolNode × Scan
unfolding raised
visit k n s = if not (is_usable n) then (n, s) else (
  record n { current_weight = raised n },
  record {
    total_weight = wrap64 (s.total_weight +ℤ pos n.weight);
    max_node = if is_heavier (raised n) s.max_node then some (k, raised n) else s.max_node;
  },
)

-- The loop over the nodes; those that are not usable are skipped, so it runs over the whole list.
unfoldable pub scan_nodes : ℕ → List PoolNode → Scan → List PoolNode × Scan
unfolding visit
scan_nodes k [] s = ([], s)
scan_nodes k (n ∷ ns) s =
    let (n', s') = visit k n s in let (ns', s'') = scan_nodes (suc k) ns s' in (n' ∷ ns', s'')

-- `maxNode.currentWeight -= totalWeight`
unfoldable pub subtract_at : ℕ → ℤ → List PoolNode → List PoolNode
subtract_at k total [] = []
subtract_at zero total (n ∷ ns) =
    record n { current_weight = wrap64 (n.current_weight -ℤ total) } ∷ ns
subtract_at (suc k) total (n ∷ ns) = n ∷ subtract_at k total ns

abbrev pub client_at : ℕ → List PoolNode → Option ℕ
client_at k [] = none
client_at zero (n ∷ ns) = n.client
client_at (suc k) (n ∷ ns) = client_at k ns

abbrev pub first_client : List PoolNode → Option ℕ
first_client [] = none
first_client (n ∷ ns) = n.client

abbrev pub start_scan : Scan
start_scan = record { total_weight = pos 0; max_node = none }

-- The position that the loop of `selectWeightedRoundRobin` ends with.
unfoldable pub chosen : List PoolNode → Option ℕ
unfolding scan_nodes
chosen ns = elim ((scan_nodes 0 ns start_scan).1.max_node) [ none ↦ none | some (k, _) ↦ some k ]

-- The end of the selection.
unfoldable pub settle : List PoolNode → ℤ → Option (ℕ × ℤ) → List PoolNode
unfolding subtract_at
settle ns total none = ns
settle ns total (some (k, _)) = subtract_at k total ns

-- The nodes after the selection.
unfoldable pub rebalance : List PoolNode → List PoolNode
unfolding scan_nodes settle
rebalance ns = let (ns', s) = scan_nodes 0 ns start_scan in settle ns' s.total_weight s.max_node

unfoldable pub select_weighted_round_robin : List PoolNode → List PoolNode × Option ℕ
unfolding chosen rebalance healthy_nodes
select_weighted_round_robin ns = (
  rebalance ns,
  elim (chosen ns) [ none ↦ first_client (healthy_nodes ns) | some k ↦ client_at k ns ],
)

unfoldable pub without_first : List PoolNode → List PoolNode
without_first [] = []
without_first (n ∷ ns) = if n.healthy then ns else n ∷ without_first ns

unfoldable pub first_healthy : List PoolNode → List PoolNode
first_healthy [] = []
first_healthy (n ∷ ns) = if n.healthy then n ∷ [] else first_healthy ns

-- `moveFirstToEndLocked`
unfoldable pub move_first_to_end : List PoolNode → List PoolNode
unfolding without_first first_healthy
move_first_to_end ns = if leb (length ns) 1 then ns else without_first ns ++ first_healthy ns

pub data PoolError : Type 0 where
  no_healthy_nodes : PoolError
  address_not_found : Text → PoolError
  create_failed : Text → PoolError

abbrev pub is_weighted : PoolConfig → Bool
is_weighted config =
    if config.load_balancer == text "weighted_round_robin" then true else config.load_balancer == []

-- `Get`: the client, or the error.
unfoldable pub get : Pool → Pool × (PoolError ⊎ Option ℕ)
unfolding healthy_nodes select_weighted_round_robin move_first_to_end
get p = elim (healthy_nodes p.nodes) [
  | [] ↦ (p, inl no_healthy_nodes)
  | node ∷ _ ↦
      if is_weighted p.config
      then (let (ns, c) = select_weighted_round_robin p.nodes in (record p { nodes = ns }, inr c))
      else (record p { nodes = move_first_to_end p.nodes }, inr node.client)
]

unfoldable pub clients : List PoolNode → List (Option ℕ)
clients [] = []
clients (n ∷ ns) = n.client ∷ clients ns

unfoldable pub get_all_healthy : Pool → List (Option ℕ)
unfolding healthy_nodes clients
get_all_healthy p = clients (healthy_nodes p.nodes)

unfoldable pub stats : Pool → ℕ × ℕ
unfolding healthy_nodes
stats p = (length p.nodes, length (healthy_nodes p.nodes))

unfoldable pub healthy_count : Pool → ℕ
unfolding stats
healthy_count p = (stats p).1

unfoldable pub total_count : Pool → ℕ
unfolding stats
total_count p = (stats p).0

-- The clients that closing some nodes closes.
unfoldable pub closing : List PoolNode → List ℕ
closing [] = []
closing (n ∷ ns) = elim n.client [ none ↦ closing ns | some c ↦ c ∷ closing ns ]

-- `Close`; a second call panics on the closed channel and is not modelled.
unfoldable pub close : Pool → Pool
unfolding closing
close p = record p { nodes = []; closed = closing p.nodes ++ p.closed }

-- The ping of `checkHealth`, for a node that has a client.
unfoldable pub pinged : Network → ℕ → ℕ → ℕ → PoolNode → PoolNode
pinged net now k c n =
    let (healthy, reason) = net.ping k c in
    record n {
      client = some c;
      healthy = healthy && (elim reason [ none ↦ true | some _ ↦ false ]);
      last_check = now;
    }

unfoldable pub check_node : Network → ℕ → ℕ → PoolNode → PoolNode
unfolding pinged
check_node net now k n = elim n.client [
  | none ↦ elim (net.new_client k n.config) [
    | inl reason ↦ record n { healthy = false; client = none }
    | inr c ↦ pinged net now k c n
  ]
  | some c ↦ pinged net now k c n
]

unfoldable pub check_nodes : Network → ℕ → ℕ → List PoolNode → List PoolNode
unfolding check_node
check_nodes net now k [] = []
check_nodes net now k (n ∷ ns) = check_node net now k n ∷ check_nodes net now (suc k) ns

-- `checkHealth`, without its log.
unfoldable pub check_health : Network → ℕ → Pool → Pool
unfolding check_nodes
check_health net now p = record p { nodes = check_nodes net now 0 p.nodes }

unfoldable pub add_node : Network → NodeConfig → Pool → Pool × Option PoolError
unfolding new_node
add_node net config p = (
  record p { nodes = p.nodes ++ (new_node net 0 config ∷ []) },
  elim (net.new_client 0 config) [ inl reason ↦ some (create_failed reason) | inr c ↦ none ],
)

-- The nodes without, and with, an address.
unfoldable pub nodes_without : Text → List PoolNode → List PoolNode
unfolding contains
nodes_without address [] = []
nodes_without address (n ∷ ns) =
    if contains address n.config.addresses
    then nodes_without address ns
    else n ∷ nodes_without address ns

unfoldable pub nodes_with : Text → List PoolNode → List PoolNode
unfolding contains
nodes_with address [] = []
nodes_with address (n ∷ ns) =
    if contains address n.config.addresses then n ∷ nodes_with address ns else nodes_with address ns

unfoldable pub remove_node : Text → Pool → Pool × Option PoolError
unfolding nodes_without nodes_with closing
remove_node address p = elim (nodes_with address p.nodes) [
  | [] ↦ (p, some (address_not_found address))
  | _ ∷ _ ↦ (
    record p {
      nodes = nodes_without address p.nodes;
      closed = closing (nodes_with address p.nodes) ++ p.closed;
    },
    none,
  )
]

-- A call on the pool; a health check is one.
pub data PoolCall : Type 0 where
  gets : PoolCall
  checks : Network → ℕ → PoolCall
  adds : Network → NodeConfig → PoolCall
  removes : Text → PoolCall
  closes : PoolCall

unfoldable pub step : Pool → PoolCall → Pool
unfolding get check_health add_node remove_node close
step p gets = (get p).0
step p (checks net now) = check_health net now p
step p (adds net config) = (add_node net config p).0
step p (removes address) = (remove_node address p).0
step p closes = close p

unfoldable pub run : Pool → List PoolCall → Pool
unfolding step
run p [] = p
run p (call ∷ calls) = run (step p call) calls
