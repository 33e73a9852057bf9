-- ===== src/Eve/MapGraph/Nodes.antt =====
-- The bubble that `bubbleFrom` returns, against the shortest walks from its origin.
use eveai.Base.{
  ℕ, suc, ◌≤◌, ◌≡◌, refl, max, true, false, Option, none, some, List, [], ◌∷◌, ◌==◌, ==_iff, length,
  Bool-cases, inl, inr, arith, if◌then◌else◌, get, has, IsKeyed, has-get-none, has-get, subst,
}
use eveai.Eve.MapGraph.{
  Adjacency, GraphCache, expand_rounds, BubbleNode, insert_node, sort_nodes, Bubble, bubble_from,
}
use eveai.Eve.MapGraph.Levels.{Walk, Level-start}
use eveai.Eve.MapGraph.Bubbles.{IsNearest, IsMeasured, IsExpanded, expand_rounds-IsExpanded}

-- The jumps of a system in the list of the nodes.
unfoldable pub jumps_of : ℕ → List BubbleNode → Option ℕ
jumps_of v [] = none
jumps_of v (n ∷ ns) = if n.system_id == v then some n.jumps else jumps_of v ns

jumps_of-insert_node :
    (v : ℕ) (n : BubbleNode) (ns : List BubbleNode)
    → jumps_of n.system_id ns ≡ none
    → jumps_of v (insert_node n ns) ≡ (if n.system_id == v then some n.jumps else jumps_of v ns)
unfolding jumps_of insert_node
jumps_of-insert_node v n [] h = refl
jumps_of-insert_node v n (m ∷ ns) h = ground (arith, jumps_of-insert_node v n ns)

length-insert_node :
    (n : BubbleNode) (ns : List BubbleNode) → length (insert_node n ns) ≡ suc (length ns)
unfolding insert_node
length-insert_node n [] = refl
length-insert_node n (m ∷ ns) = ground (arith, length-insert_node n ns)

length-sort_nodes : (d : List (ℕ × ℕ)) → length (sort_nodes d) ≡ length d
unfolding sort_nodes
length-sort_nodes [] = refl
length-sort_nodes ((k, j) ∷ d) =
    let n : BubbleNode = record { system_id = k; jumps = j } in
    omega (arith, length-insert_node n (sort_nodes d), length-sort_nodes d)

jumps_of-sort_nodes : (v : ℕ) (d : List (ℕ × ℕ)) → IsKeyed d → jumps_of v (sort_nodes d) ≡ get v d
unfolding sort_nodes get jumps_of
jumps_of-sort_nodes v [] h = refl
jumps_of-sort_nodes v ((k, j) ∷ d) h =
    let n : BubbleNode = record { system_id = k; jumps = j } in
    let absent = jumps_of-sort_nodes k d h.1 in
    let gone = has-get-none k d h.0 in
    rw (jumps_of-insert_node v n (sort_nodes d) (cc), jumps_of-sort_nodes v d h.1) refl

-- The nodes are the systems up to the radius that is reached, each with the length of its shortest
-- walks. Neither the radius asked for nor the cap is exceeded, and nothing within the radius asked
-- for is missing unless the bubble says that it was truncated.
pub record IsBubble (a : Adjacency) (from requested cap : ℕ) (b : Bubble) : Type 0 where
  pub exact : (v j : ℕ) → jumps_of v b.nodes ≡ some j → (j ≤ b.radius) × IsNearest a from j v
  pub full : (j v : ℕ) → j ≤ b.radius → Walk a from j v → (i : ℕ) × (jumps_of v b.nodes ≡ some i)
  pub within : b.radius ≤ requested
  pub fits : length b.nodes ≤ max 1 cap
  pub whole :
      b.truncated ≡ false
      → (j v : ℕ) → j ≤ requested
      → Walk a from j v
      → (i : ℕ) × (jumps_of v b.nodes ≡ some i)

abbrev the_origin : ℕ → List (ℕ × ℕ)
the_origin from = (from, 0) ∷ []

start-IsMeasured : (a : Adjacency) (from : ℕ) → IsMeasured a from 0 (the_origin from)
unfolding get has
start-IsMeasured a from =
    let level = Level-start a from (λ v. has v (the_origin from)) (λ v. ground arith) in
    record {
      keyed = (refl, tt);
      exact = λ v j h. elim (Bool-cases (from == v)) [
        | inl e ↦
            let zero_jumps : 0 ≡ j = ground arith in
            (
              omega arith,
              subst (λ x. IsNearest a from x v) zero_jumps
                  ((==_iff from v).0 e, λ i w. omega arith),
            )
        | inr e ↦ ground arith
      ];
      full = level.complete;
    }

-- For a system of the map `bubbleFrom` returns the bubble of its nearest systems.
pub bubble_from-IsBubble :
    (g : GraphCache) (origin_id radius max_nodes : ℕ)
    → has origin_id g.systems ≡ true
    → IsBubble g.adjacency origin_id radius max_nodes (bubble_from g origin_id radius max_nodes)
unfolding bubble_from has
bubble_from-IsBubble g o radius max_nodes known =
    let a = g.adjacency in
    let e = expand_rounds radius (max 1 max_nodes) a 0 ((o, 0) ∷ []) (o ∷ []) in
    let expanded : IsExpanded a o radius (max 1 max_nodes) e =
      subst (λ l. IsExpanded a o l (max 1 max_nodes) e) (omega arith)
        (expand_rounds-IsExpanded a o (max 1 max_nodes) radius 0 ((o, 0) ∷ []) (o ∷ [])
          (Level-start a o (λ v. has v (the_origin o)) (λ v. ground arith)) (start-IsMeasured a o)
          (omega arith)) in
    let node = λ (v : ℕ). jumps_of-sort_nodes v e.distance expanded.measured.keyed in
    rw known record {
      exact = λ v j h. expanded.measured.exact v j (rw (node v) at h);
      full = λ j v near w.
          let (i, at_i) = has-get v e.distance (expanded.measured.full j v near w) in
          (i, rw (node v) at_i);
      within = expanded.within;
      fits = omega (arith, length-sort_nodes e.distance, expanded.fits);
      whole = λ t j v near w.
          let (i, at_i) = has-get v e.distance (expanded.whole t j v near w) in
          (i, rw (node v) at_i);
    }
