-- ===== src/Eve/MapGraph.antt =====
-- src/eve/map-graph.ts: the adjacency lists of the map, jump distances, the bubble around a
-- system, and routes by risk.
-- A `Map` is the list of its entries in the order of insertion, and a `Set` the list of its
-- elements. Of a system its place on the screen is left out. The security is in hundredths, to which the build rounds it, so `security < 0.45` is a test on integers. Radius,
-- cap and limit are natural numbers, as behind the code's `Math.floor` and `Math.max`.
pub mod Levels
pub mod Distance
pub mod Rings
pub mod Bubbles
pub mod Nodes
pub mod Costs
pub mod Routes
pub mod SmallMap
mod Examples
use eveai.Base.{
  ℕ, zero, suc, ◌+◌, ◌-◌, max, String, Bool, true, false, not, ◌&&◌, ◌||◌, Option, none, some, List,
  [], ◌∷◌, ◌++◌, map, ltb, ◌==◌, if◌then◌else◌, ℤ, pos, negsuc, length, contains, get, has, put,
  remove,
}

pub record MapSystem : Type 0 where
  pub system_id : ℕ
  pub name : String
  pub constellation_id : Option ℕ
  pub region_id : Option ℕ
  pub region_name : Option String
  pub security : ℤ
  pub security_class : Option String
  pub wh_class : Option ℕ

abbrev pub Adjacency : Type 0
Adjacency = List (ℕ × List ℕ)

pub record GraphCache : Type 0 where
  pub adjacency : Adjacency
  pub systems : List (ℕ × MapSystem)

-- `map.get(id) ?? []`
abbrev pub or_nil : Option (List ℕ) → List ℕ
or_nil none = []
or_nil (some ids) = ids

abbrev pub neighbours : Adjacency → ℕ → List ℕ
neighbours a id = or_nil (get id a)

abbrev pub push_edge : Adjacency → ℕ → ℕ → Adjacency
push_edge a from to = put from (neighbours a from ++ to ∷ []) a

-- The rows of `map_edges`.
unfoldable pub load_edges : List (ℕ × ℕ) → Adjacency → Adjacency
load_edges [] a = a
load_edges ((from, to) ∷ rows) a = load_edges rows (push_edge a from to)

unfoldable pub load_systems : List MapSystem → List (ℕ × MapSystem) → List (ℕ × MapSystem)
load_systems [] m = m
load_systems (s ∷ rows) m = load_systems rows (put s.system_id s m)

unfoldable pub load_graph : List MapSystem → List (ℕ × ℕ) → GraphCache
unfolding load_edges load_systems
load_graph systems edges = record {
  adjacency = load_edges edges [];
  systems = load_systems systems [];
}

abbrev pub get_map_system : GraphCache → ℕ → Option MapSystem
get_map_system g system_id = get system_id g.systems

abbrev set_known : Option MapSystem → ℕ → List (ℕ × MapSystem) → List (ℕ × MapSystem)
set_known none id m = m
set_known (some s) id m = put id s m

unfoldable pub get_map_systems : GraphCache → List ℕ → List (ℕ × MapSystem) → List (ℕ × MapSystem)
get_map_systems g [] result = result
get_map_systems g (id ∷ ids) result = get_map_systems g ids (set_known (get id g.systems) id result)

-- `jumpDistance`: what the two inner loops find, or the systems seen and the next frontier.
pub data Scan : Type 0 where
  found : Scan
  scanned : (seen next : List ℕ) → Scan

unfoldable pub scan_neighbours : ℕ → List ℕ → List ℕ → List ℕ → Scan
scan_neighbours to_id [] seen next = scanned seen next
scan_neighbours to_id (n ∷ ns) seen next =
    let old = contains n seen in
    if not old && n == to_id
    then found
    else scan_neighbours to_id ns (if old then seen else n ∷ seen)
        (if old then next else next ++ n ∷ [])

abbrev pub go_on : Scan → (List ℕ → List ℕ → Scan) → Scan
go_on found f = found
go_on (scanned seen next) f = f seen next

unfoldable pub scan_frontier : ℕ → Adjacency → List ℕ → List ℕ → List ℕ → Scan
unfolding scan_neighbours
scan_frontier to_id a [] seen next = scanned seen next
scan_frontier to_id a (u ∷ us) seen next =
    go_on (scan_neighbours to_id (neighbours a u) seen next) (scan_frontier to_id a us)

-- The rounds of `jumpDistance`, `left` of them from the depth on.
unfoldable pub distance_rounds :
    (left depth to_id : ℕ) → Adjacency → (seen frontier : List ℕ) → Option ℕ
unfolding scan_frontier
distance_rounds zero depth to_id a seen frontier = none
distance_rounds (suc left) depth to_id a seen frontier =
    elim (scan_frontier to_id a frontier seen []) [
      | found ↦ some depth
      | scanned seen' [] ↦ none
      | scanned seen' (x ∷ xs) ↦ distance_rounds left (suc depth) to_id a seen' (x ∷ xs)
    ]

unfoldable pub jump_distance : GraphCache → (from_id to_id limit : ℕ) → Option ℕ
unfolding distance_rounds
jump_distance g from_id to_id limit =
    if from_id == to_id
    then some 0
    else if not (has from_id g.systems && has to_id g.systems)
    then none
    else distance_rounds limit 1 to_id g.adjacency (from_id ∷ []) (from_id ∷ [])

-- `bubbleFrom`: one ring.
unfoldable pub ring_neighbours : ℕ → List ℕ → List (ℕ × ℕ) → List ℕ → List (ℕ × ℕ) × List ℕ
ring_neighbours depth [] distance next = (distance, next)
ring_neighbours depth (n ∷ ns) distance next =
    let old = has n distance in
    ring_neighbours depth ns (if old then distance else put n depth distance)
      (if old then next else next ++ n ∷ [])

unfoldable pub ring : ℕ → Adjacency → List ℕ → List (ℕ × ℕ) → List ℕ → List (ℕ × ℕ) × List ℕ
unfolding ring_neighbours
ring depth a [] distance next = (distance, next)
ring depth a (u ∷ us) distance next =
    let (distance', next') = ring_neighbours depth (neighbours a u) distance next in
    ring depth a us distance' next'

pub record Expansion : Type 0 where
  pub distance : List (ℕ × ℕ)
  pub reached : ℕ
  pub truncated : Bool

unfoldable pub remove_all : List ℕ → List (ℕ × ℕ) → List (ℕ × ℕ)
remove_all [] m = m
remove_all (k ∷ ks) m = remove_all ks (remove k m)

-- The rounds of `bubbleFrom`, `left` of them behind the depth that is reached.
unfoldable pub expand_rounds :
    (left cap : ℕ) → Adjacency → (reached : ℕ) → List (ℕ × ℕ) → List ℕ → Expansion
unfolding ring remove_all
expand_rounds zero cap a reached distance frontier = record {
  distance = distance;
  reached = reached;
  truncated = false;
}
expand_rounds (suc left) cap a reached distance frontier =
    let (distance', next) = ring (suc reached) a frontier distance [] in
    elim next [
      | [] ↦ record { distance = distance'; reached = reached; truncated = false }
      | x ∷ xs ↦ elim (ltb cap (length distance')) [
        | true ↦ record {
          distance = remove_all (x ∷ xs) distance';
          reached = reached;
          truncated = true;
        }
        | false ↦ expand_rounds left cap a (suc reached) distance' (x ∷ xs)
      ]
    ]

pub record BubbleNode : Type 0 where
  pub system_id : ℕ
  pub jumps : ℕ

-- `a.jumps - b.jumps || a.systemId - b.systemId`
abbrev pub node_before : BubbleNode → BubbleNode → Bool
node_before a b = ltb a.jumps b.jumps || (a.jumps == b.jumps && ltb a.system_id b.system_id)

unfoldable pub insert_node : BubbleNode → List BubbleNode → List BubbleNode
insert_node n [] = n ∷ []
insert_node n (m ∷ ns) =
    let rest = insert_node n ns in if node_before m n then m ∷ rest else n ∷ m ∷ ns

unfoldable pub sort_nodes : List (ℕ × ℕ) → List BubbleNode
unfolding insert_node
sort_nodes [] = []
sort_nodes ((id, jumps) ∷ m) = insert_node (record { system_id = id; jumps = jumps }) (sort_nodes m)

-- The links of one node that are emitted: to known systems with a greater id.
unfoldable pub links_of : ℕ → List ℕ → List (ℕ × ℕ) → List (ℕ × ℕ)
links_of id [] distance = []
links_of id (n ∷ ns) distance =
    let rest = links_of id ns distance in
    if ltb id n && has n distance then (id, n) ∷ rest else rest

unfoldable pub bubble_edges : Adjacency → List (ℕ × ℕ) → List BubbleNode → List (ℕ × ℕ)
unfolding links_of
bubble_edges a distance [] = []
bubble_edges a distance (n ∷ ns) =
    links_of n.system_id (neighbours a n.system_id) distance ++ bubble_edges a distance ns

pub record Bubble : Type 0 where
  pub origin_id : ℕ
  pub radius : ℕ
  pub requested_radius : ℕ
  pub nodes : List BubbleNode
  pub edges : List (ℕ × ℕ)
  pub truncated : Bool

unfoldable pub bubble_from : GraphCache → (origin_id radius max_nodes : ℕ) → Bubble
unfolding expand_rounds sort_nodes bubble_edges
bubble_from g origin_id radius max_nodes =
    if not (has origin_id g.systems)
    then record {
      origin_id = origin_id;
      radius = 0;
      requested_radius = radius;
      nodes = [];
      edges = [];
      truncated = false;
    }
    else let e =
        expand_rounds radius (max 1 max_nodes) g.adjacency 0 ((origin_id, 0) ∷ [])
          (origin_id ∷ []) in
      let nodes = sort_nodes e.distance in
      record {
        origin_id = origin_id;
        radius = e.reached;
        requested_radius = radius;
        nodes = nodes;
        edges = bubble_edges g.adjacency e.distance nodes;
        truncated = e.truncated;
      }
