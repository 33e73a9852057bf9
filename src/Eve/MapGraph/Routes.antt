-- ===== src/Eve/MapGraph/Routes.antt =====
-- `routeWithRisk` of src/eve/map-graph.ts: Dijkstra's search with a risk surcharge.
-- The numbers are those of Costs. An error is a value in place of its text. `riskWeight` stands as
-- behind `Math.max(0, ...)`; a NaN there charges nothing, as zero does. The search and the walk
-- back run on fuel, and `none` is a run that uses it up.
pub mod Walks
pub mod Relaxing
pub mod Rounds
pub mod Optimal
pub mod Answers
use eveai.Base.{
  ℕ, zero, suc, ◌+◌, ◌-◌, String, Bool, true, false, not, ◌&&◌, ◌||◌, Option, none, some, List, [],
  ◌∷◌, ◌++◌, map, ltb, ◌==◌, if◌then◌else◌, ℤ, pos, negsuc, length, contains, get, has, put, remove,
}
use eveai.Eve.MapGraph.{MapSystem, Adjacency, GraphCache, neighbours, push_edge}
use eveai.Eve.MapGraph.Costs.{Numbers, Reading, clamp01}

pub data RouteMode : Type 0 where
  shortest secure insecure : RouteMode

pub data RouteError : Type 0 where
  unknown_origin unknown_destination : (system_id : ℕ) → RouteError
  destination_avoided no_gate_route : RouteError

abbrev pub no_entry {ℓ} : {A : Type ℓ} → List A → Bool
no_entry [] = true
no_entry (x ∷ xs) = false

-- `security < HIGHSEC_FLOOR`
abbrev pub below_floor : ℤ → Bool
below_floor (pos s) = ltb s 45
below_floor (negsuc s) = true

-- `graph.systems.get(systemId)?.security ?? 0`
abbrev pub security_of : Option MapSystem → ℤ
security_of none = pos 0
security_of (some s) = s.security

abbrev pub leaves_band : RouteMode → ℤ → Bool
leaves_band shortest s = false
leaves_band secure s = below_floor s
leaves_band insecure s = not (below_floor s)

abbrev band_label : RouteMode → String
band_label insecure = "enters_highsec"
band_label _ = "leaves_highsec"

pub record Breakdown (C : Type 0) : Type 0 where
  pub cost : C
  pub terms : List (String × C)

pub record RouteHop (C : Type 0) : Type 0 where
  pub system_id : ℕ
  pub cost : C
  pub terms : List (String × C)

pub record RouteOptions (C : Type 0) : Type 0 where
  pub mode : RouteMode
  pub risk_weight : C
  pub avoid : List ℕ
  pub danger_of : ℕ → Reading C
  pub extra_edges : List (ℕ × ℕ)

pub record RiskRoute (C : Type 0) : Type 0 where
  pub ok : Bool
  pub mode : RouteMode
  pub risk_weight : C
  pub system_ids : List ℕ
  pub hops : List (RouteHop C)
  pub jumps : ℕ
  pub total_cost : C
  pub error : Option RouteError

-- The maps and the set of the search; `settled` is newest first.
pub record Search (C : Type 0) : Type 0 where
  pub best : List (ℕ × C)
  pub previous : List (ℕ × ℕ)
  pub settled : List ℕ
  pub queue : List (ℕ × C)

-- How a round of the `while` loop ends.
pub data Round (C : Type 0) : Type 0 where
  finished goes_on : Search C → Round C

module _ {C : Type 0} (n : Numbers C) where
  abbrev pub danger_terms : C → C → Breakdown C
  danger_terms weight danger =
      if n.lt n.zero danger
      then record {
        cost = n.add n.one (n.mul weight danger);
        terms = ("jump", n.one) ∷ ("danger", n.mul weight danger) ∷ [];
      }
      else record { cost = n.one; terms = ("jump", n.one) ∷ [] }

  abbrev pub jump_terms : RouteOptions C → ℕ → Breakdown C
  jump_terms o id =
      if n.lt n.zero o.risk_weight
      then danger_terms o.risk_weight (clamp01 n (o.danger_of id))
      else record { cost = n.one; terms = ("jump", n.one) ∷ [] }

  unfoldable pub hop_cost : GraphCache → RouteOptions C → ℕ → Breakdown C
  hop_cost g o id =
      let jump = jump_terms o id in
      if leaves_band o.mode (security_of (get id g.systems))
      then record {
        cost = n.add jump.cost n.fifty;
        terms = jump.terms ++ (band_label o.mode, n.fifty) ∷ [];
      }
      else jump

  -- `best.get(id) ?? Infinity`
  abbrev pub or_infinity : Option C → C
  or_infinity none = n.infinity
  or_infinity (some c) = c

  -- The `for` that picks the cheapest entry of the queue.
  unfoldable pub pick : List (ℕ × C) → Option ℕ × C → Option ℕ × C
  pick [] current = current
  pick ((id, cost) ∷ q) (current_id, current_cost) =
      pick q (if n.lt cost current_cost then (some id, cost) else (current_id, current_cost))

  module _ (links : ℕ → List ℕ) (avoid : List ℕ) (hop : ℕ → C) (destination_id : ℕ) where
    -- One neighbour of the system that was picked.
    unfoldable pub relax : ℕ → C → Search C → ℕ → Search C
    relax current_id current_cost s v =
        let cost = n.add current_cost (hop v) in
        if contains v s.settled || contains v avoid
        then s
        else if n.lt cost (or_infinity (get v s.best))
        then record s {
          best = put v cost s.best;
          previous = put v current_id s.previous;
          queue = put v cost s.queue;
        }
        else s

    unfoldable pub relax_all : ℕ → C → Search C → List ℕ → Search C
    unfolding relax
    relax_all current_id current_cost s [] = s
    relax_all current_id current_cost s (v ∷ vs) =
        relax_all current_id current_cost (relax current_id current_cost s v) vs

    -- A round behind the pick. (If nothing costs less than infinity, the code settles the id -1, which
    -- is in no map, and goes round again with the same queue.)
    unfoldable pub visit : Search C → Option ℕ × C → Round C
    unfolding relax_all
    visit s (none, cost) = goes_on s
    visit s (some id, cost) =
        let s' = record s { queue = remove id s.queue } in
        if id == destination_id
        then finished s'
        else if contains id s'.settled
        then goes_on s'
        else goes_on (relax_all id cost (record s' { settled = id ∷ s'.settled }) (links id))

    unfoldable pub round : Search C → Round C
    unfolding pick visit
    round s = if no_entry s.queue then finished s else visit s (pick s.queue (none, n.infinity))

    abbrev pub after_round : Round C → (Search C → Option (Search C)) → Option (Search C)
    after_round (finished s) f = some s
    after_round (goes_on s) f = f s

    unfoldable pub search : ℕ → Search C → Option (Search C)
    unfolding round
    search zero s = none
    search (suc fuel) s = after_round (round s) (search fuel)

-- The walk back from the destination, the ids in the order that `reverse` gives.
unfoldable pub trace : ℕ → List (ℕ × ℕ) → (origin_id cursor : ℕ) → List ℕ → Option (List ℕ)
trace zero previous origin_id cursor ids = none
trace (suc fuel) previous origin_id cursor ids =
    if cursor == origin_id then some (cursor ∷ ids) else elim (get cursor previous) [
      | none ↦ some (cursor ∷ ids)
      | some before ↦ trace fuel previous origin_id before (cursor ∷ ids)
    ]

-- Both directions of an extra link between systems of the map.
unfoldable pub extra_links : GraphCache → List (ℕ × ℕ) → Adjacency → Adjacency
extra_links g [] a = a
extra_links g ((from, to) ∷ es) a = extra_links g es (
    if not (has from g.systems) || not (has to g.systems)
    then a
    else push_edge (push_edge a from to) to from)

unfoldable pub targets : Adjacency → List ℕ
targets [] = []
targets ((from, tos) ∷ a) = tos ++ targets a

module _ {C : Type 0} (n : Numbers C) (g : GraphCache) (o : RouteOptions C) where
  abbrev pub all_links : ℕ → List ℕ
  unfolding extra_links
  all_links id = neighbours g.adjacency id ++ neighbours (extra_links g o.extra_edges []) id

  abbrev pub no_route : RouteError → RiskRoute C
  no_route e = record {
    ok = false;
    mode = o.mode;
    risk_weight = o.risk_weight;
    system_ids = [];
    hops = [];
    jumps = 0;
    total_cost = n.zero;
    error = some e;
  }

  abbrev pub first_hop : ℕ → RouteHop C
  first_hop id = record { system_id = id; cost = n.zero; terms = [] }

  abbrev pub next_hop : ℕ → RouteHop C
  unfolding hop_cost
  next_hop id =
      let b = hop_cost n g o id in record { system_id = id; cost = b.cost; terms = b.terms }

  abbrev pub hops_of : List ℕ → List (RouteHop C)
  unfolding hop_cost
  hops_of [] = []
  hops_of (id ∷ ids) = first_hop id ∷ map next_hop ids

  abbrev pub route_of : List ℕ → C → RiskRoute C
  unfolding hop_cost
  route_of ids cost = record {
    ok = true;
    mode = o.mode;
    risk_weight = o.risk_weight;
    system_ids = ids;
    hops = hops_of ids;
    jumps = length ids - 1;
    total_cost = cost;
    error = none;
  }

  abbrev pub traced : C → Option (List ℕ) → Option (RiskRoute C)
  unfolding hop_cost
  traced cost none = none
  traced cost (some ids) = some (route_of ids cost)

  -- Behind the search: `best.has(destinationId)`, and the walk back.
  abbrev pub read_back : (origin_id destination_id : ℕ) → Search C → Option C → Option (RiskRoute C)
  unfolding hop_cost trace
  read_back origin_id destination_id s none = some (no_route no_gate_route)
  read_back origin_id destination_id s (some cost) =
      traced cost (trace (suc (suc (length s.settled))) s.previous origin_id destination_id [])

  abbrev pub searched : (origin_id destination_id : ℕ) → Option (Search C) → Option (RiskRoute C)
  unfolding hop_cost trace
  searched origin_id destination_id none = none
  searched origin_id destination_id (some s) =
      read_back origin_id destination_id s (get destination_id s.best)

  abbrev pub first_search : ℕ → Search C
  first_search origin_id = record {
    best = (origin_id, n.zero) ∷ [];
    previous = [];
    settled = [];
    queue = (origin_id, n.zero) ∷ [];
  }

  -- As many rounds as the origin and the ends of all links.
  abbrev pub universe : ℕ → List ℕ
  unfolding extra_links targets
  universe origin_id = origin_id ∷ targets g.adjacency ++ targets (extra_links g o.extra_edges [])

  unfoldable pub route_with_risk : (origin_id destination_id : ℕ) → Option (RiskRoute C)
  unfolding search hop_cost trace extra_links targets
  route_with_risk origin_id destination_id =
      if not (has origin_id g.systems)
      then some (no_route (unknown_origin origin_id))
      else if not (has destination_id g.systems)
      then some (no_route (unknown_destination destination_id))
      else if contains destination_id o.avoid
      then some (no_route destination_avoided)
      else if origin_id == destination_id
      then some (route_of (origin_id ∷ []) n.zero)
      else searched origin_id destination_id (
          search n all_links o.avoid (λ id. (hop_cost n g o id).cost) destination_id
            (suc (suc (length (universe origin_id)))) (first_search origin_id))
