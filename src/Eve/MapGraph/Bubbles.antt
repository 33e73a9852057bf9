-- ===== src/Eve/MapGraph/Bubbles.antt =====
-- `bubbleFrom`: which systems the bubble holds, at which distances, and how far it reaches.
use eveai.Base.{
  ℕ, zero, suc, ◌+◌, ◌≤◌, ◌≡◌, refl, sym, true, false, not, ◌&&◌, ◌||◌, some, List, [], ◌∷◌, ltb,
  contains, length, Bool-cases, ◌⊎◌, inl, inr, arith, if◌then◌else◌, get, has, IsKeyed,
  has-get-none, ap, subst,
}
use eveai.Eve.MapGraph.{Adjacency, ring_neighbours, ring, remove_all, Expansion, expand_rounds}
use eveai.Eve.MapGraph.Levels.{
  Walk, links_to, Level, Level-next, Level-closed, candidates, contains-candidates, order_cases,
}
use eveai.Eve.MapGraph.Rings.{
  ring-candidates, has-ring, contains-ring, get-ring, ring_appends, ring-IsKeyed, remove_all-tagged,
}

-- A shortest walk has so many jumps.
abbrev pub IsNearest : Adjacency → (from j v : ℕ) → Type 0
IsNearest a from j v = Walk a from j v × ((i : ℕ) → Walk a from i v → j ≤ i)

-- The distances up to a radius.
pub record IsMeasured (a : Adjacency) (from k : ℕ) (d : List (ℕ × ℕ)) : Type 0 where
  pub keyed : IsKeyed d
  pub exact : (v j : ℕ) → get v d ≡ some j → (j ≤ k) × IsNearest a from j v
  pub full : (j v : ℕ) → j ≤ k → Walk a from j v → has v d ≡ true

-- What `expandRounds` leaves for a radius and a cap.
pub record IsExpanded (a : Adjacency) (from limit cap : ℕ) (e : Expansion) : Type 0 where
  pub measured : IsMeasured a from e.reached e.distance
  pub within : e.reached ≤ limit
  pub fits : length e.distance ≤ cap
  pub whole :
      e.truncated ≡ false → (j v : ℕ) → j ≤ limit → Walk a from j v → has v e.distance ≡ true

module _ (a : Adjacency) (from k : ℕ) (d : List (ℕ × ℕ)) (frontier : List ℕ)
    (level : Level a from k (λ v. has v d) frontier) (measured : IsMeasured a from k d)
    (d' : List (ℕ × ℕ)) (next : List ℕ) (e : ring (suc k) a frontier d [] ≡ (d', next)) where
  ringed : ring_neighbours (suc k) (candidates a frontier) d [] ≡ (d', next)
  ringed = rw (ring-candidates (suc k) a frontier d []) at e

  next_lem : (v : ℕ) → contains v next ≡ (not (has v d) && links_to a v frontier)
  next_lem v =
      let at = ap (λ p. contains v p.1) ringed in
      ground (
        arith,
        contains-ring (suc k) v (candidates a frontier) d [],
        at,
        contains-candidates a v frontier,
      )

  grown_lem : (v : ℕ) → has v d' ≡ (has v d || contains v next)
  grown_lem v =
      let at = ap (λ p. has v p.0) ringed in
      ground (
        arith,
        has-ring (suc k) v (candidates a frontier) d [],
        at,
        contains-candidates a v frontier,
        next_lem v,
      )

  get_lem :
      (v : ℕ)
      → get v d' ≡ (if has v d then get v d else if contains v next then some (suc k) else get v d)
  get_lem v =
      let at = ap (λ p. get v p.0) ringed in
      ground (
        arith,
        get-ring (suc k) v (candidates a frontier) d [],
        at,
        contains-candidates a v frontier,
        next_lem v,
      )

  ring-Level : Level a from (suc k) (λ v. has v d') next
  ring-Level =
      Level-next a from k (λ v. has v d) (λ v. has v d') frontier next level next_lem grown_lem

  not_nearer : (v : ℕ) → has v d ≡ false → (i : ℕ) → Walk a from i v → suc k ≤ i
  not_nearer v h i w = elim (order_cases i k) [
    | inl near ↦ let known = measured.full i v near w in cc
    | inr far ↦ far
  ]

  exact_lem : (v j : ℕ) → get v d' ≡ some j → (j ≤ suc k) × IsNearest a from j v
  exact_lem v j h = elim (Bool-cases (has v d)) [
    | inl old ↦
        let same : get v d ≡ some j = ground (arith, get_lem v) in
        let (near, nearest) = measured.exact v j same in (omega arith, nearest)
    | inr fresh ↦
        let absent = has-get-none v d fresh in
        let at : contains v next ≡ true = ground (arith, get_lem v) in
        let depth : suc k ≡ j = ground (arith, get_lem v) in
        (
          omega arith,
          subst (λ x. IsNearest a from x v) depth (ring-Level.inside v at, not_nearer v fresh),
        )
  ]

  ring-IsMeasured : IsMeasured a from (suc k) d'
  ring-IsMeasured = record {
    keyed =
        subst (λ p. IsKeyed p.0) ringed
          (ring-IsKeyed (suc k) (candidates a frontier) d [] measured.keyed);
    exact = exact_lem;
    full = ring-Level.complete;
  }

  ring_back : remove_all next d' ≡ d
  ring_back =
      let (new, distances, frontiers) = ring_appends (suc k) (candidates a frontier) d [] in
      let keyed = ring-IsKeyed (suc k) (candidates a frontier) d [] measured.keyed in
      let same = ap (λ p. remove_all p.1 p.0) ringed in
      rw (sym same, distances, frontiers) (remove_all-tagged (suc k) new d (rw distances at keyed))

next_cases : (ns : List ℕ) → (ns ≡ []) ⊎ ((x : ℕ) × (xs : List ℕ) × (ns ≡ x ∷ xs))
next_cases [] = inl refl
next_cases (x ∷ xs) = inr (x, xs, refl)

module _ (a : Adjacency) (from cap : ℕ) where
  pub expand_rounds-IsExpanded :
      (left k : ℕ) (d : List (ℕ × ℕ)) (frontier : List ℕ)
      → Level a from k (λ v. has v d) frontier
      → IsMeasured a from k d
      → length d ≤ cap
      → IsExpanded a from (k + left) cap (expand_rounds left cap a k d frontier)
  unfolding expand_rounds
  expand_rounds-IsExpanded zero k d frontier level measured small = record {
    measured = measured;
    within = omega arith;
    fits = small;
    whole = λ t j v near w. measured.full j v (omega arith) w;
  }
  expand_rounds-IsExpanded (suc left) k d frontier level measured small =
      let d' = (ring (suc k) a frontier d []).0 in
      let next = (ring (suc k) a frontier d []).1 in
      let next-Level = ring-Level a from k d frontier level measured d' next refl in
      let back = ring_back a from k d frontier level measured d' next refl in
      elim (next_cases next) [
        | inl e ↦
            let closed =
              Level-closed a from (suc k) (λ v. has v d')
                (subst (Level a from (suc k) (λ v. has v d')) e next-Level) in
            let same : d' ≡ d = rw e at back in
            rw (e, expand_rounds)
              (rw same record {
                measured = measured;
                within = omega arith;
                fits = small;
                whole = λ t j v near w. rw same at (closed j v w);
              })
        | inr (x, xs, e) ↦ elim (Bool-cases (ltb cap (length d'))) [
          | inl full ↦
              let same = rw e at back in
              rw (e, full, expand_rounds)
                (rw same record {
                  measured = measured;
                  within = omega arith;
                  fits = small;
                  whole = λ t j v near w. absurd (cc);
                })
          | inr fits ↦
              rw (e, fits, expand_rounds)
                (subst (λ l. IsExpanded a from l cap (expand_rounds left cap a (suc k) d' (x ∷ xs)))
                  (omega arith)
                  (expand_rounds-IsExpanded left (suc k) d' (x ∷ xs)
                    (subst (Level a from (suc k) (λ v. has v d')) e next-Level)
                    (ring-IsMeasured a from k d frontier level measured d' next refl)
                    (ground arith)))
        ]
      ]
