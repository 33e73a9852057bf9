-- ===== src/Eve/MapGraph/Distance.antt =====
-- `jumpDistance` finds the length of a shortest walk, if its limit allows that length.
use eveai.Base.{
  ℕ, zero, suc, ◌+◌, ◌≤◌, ◌<◌, ◌≡◌, refl, true, false, not, ◌&&◌, ◌||◌, Option, none, some, List,
  [], ◌∷◌, ◌++◌, ◌==◌, ==_iff, contains, Bool-cases, ◌⊎◌, inl, inr, arith, subst, sym, has,
  if◌then◌else◌,
}
use eveai.Eve.MapGraph.{
  Adjacency, GraphCache, neighbours, Scan, found, scanned, go_on, scan_neighbours, scan_frontier,
  distance_rounds, jump_distance,
}
use eveai.Eve.MapGraph.Levels.{
  candidates, contains-candidates, Walk, links_to, contains-snoc, Level, Level-next, Level-start,
  Level-closed, order_cases, links_to-source,
}

go_on_ext :
    (r : Scan) (f g : List ℕ → List ℕ → Scan)
    → ((seen next : List ℕ) → f seen next ≡ g seen next)
    → go_on r f ≡ go_on r g
go_on_ext found f g h = refl
go_on_ext (scanned seen next) f g h = h seen next

scan_neighbours-append :
    (to_id : ℕ) (xs ys seen next : List ℕ)
    → scan_neighbours to_id (xs ++ ys) seen next
      ≡ go_on (scan_neighbours to_id xs seen next) (scan_neighbours to_id ys)
unfolding scan_neighbours
scan_neighbours-append to_id [] ys seen next = refl
scan_neighbours-append to_id (x ∷ xs) ys seen next =
    let old = contains x seen in
    elim (Bool-cases (not old && x == to_id)) [
      | inl e ↦ rw e refl
      | inr e ↦ rw e (
          scan_neighbours-append to_id xs ys (if old then seen else x ∷ seen)
            (if old then next else next ++ x ∷ []))
    ]

scan_frontier-candidates :
    (to_id : ℕ) (a : Adjacency) (us seen next : List ℕ)
    → scan_frontier to_id a us seen next ≡ scan_neighbours to_id (candidates a us) seen next
unfolding scan_frontier candidates
scan_frontier-candidates to_id a [] seen next = refl
scan_frontier-candidates to_id a (u ∷ us) seen next =
    rw (scan_neighbours-append to_id (neighbours a u) (candidates a us) seen next) (
      go_on_ext (scan_neighbours to_id (neighbours a u) seen next) _ _
        (scan_frontier-candidates to_id a us))

same_contains : (n v : ℕ) (xs : List ℕ) → (n == v) ≡ true → contains v xs ≡ contains n xs
same_contains n v xs h = rw ((==_iff n v).0 h) refl

module _ (to_id : ℕ) where
  scan-found :
      (ns seen next : List ℕ)
      → scan_neighbours to_id ns seen next ≡ found
      → (contains to_id ns ≡ true) × (contains to_id seen ≡ false)
  unfolding scan_neighbours
  scan-found [] seen next h = cc
  scan-found (n ∷ ns) seen next h = elim (Bool-cases (contains n seen)) [
    | inl old ↦ ground (arith, scan-found ns seen next)
    | inr new ↦ elim (Bool-cases (n == to_id)) [
      | inl hit ↦ let same = same_contains n to_id seen hit in ground arith
      | inr miss ↦ ground (arith, scan-found ns (n ∷ seen) (next ++ n ∷ []))
    ]
  ]

  scan-scanned :
      (ns seen next seen' next' : List ℕ)
      → scan_neighbours to_id ns seen next ≡ scanned seen' next'
      → ((contains to_id seen ≡ false → contains to_id ns ≡ false))
        × ((v : ℕ) → contains v seen' ≡ (contains v seen || contains v ns))
        × ((v : ℕ) → contains v next' ≡ (contains v next || not (contains v seen) && contains v ns))
  unfolding scan_neighbours
  scan-scanned [] seen next seen' next' h = (λ e. refl, λ v. ground arith, λ v. ground arith)
  scan-scanned (n ∷ ns) seen next seen' next' h = elim (Bool-cases (contains n seen)) [
    | inl old ↦
        let rest = scan-scanned ns seen next seen' next' (rw old at h) in
        (
          λ e. let same = same_contains n to_id seen in ground (arith, rest.0),
          λ v. let same = same_contains n v seen in ground (arith, rest.1 v),
          λ v. let same = same_contains n v seen in ground (arith, rest.2 v),
        )
    | inr new ↦ elim (Bool-cases (n == to_id)) [
      | inl hit ↦ let x = rw (new, hit) at h in cc
      | inr miss ↦
          let rest =
            scan-scanned ns (n ∷ seen) (next ++ n ∷ []) seen' next' (rw (new, miss) at h) in
          (
            λ e. ground (arith, rest.0),
            λ v. ground (arith, rest.1 v),
            λ v.
                let same = same_contains n v seen in
                ground (arith, rest.2 v, contains-snoc v n next),
          )
    ]
  ]

-- The length of a shortest walk, if it is within the limit, and none if no walk is.
pub data IsDistance (a : Adjacency) (from to_id limit : ℕ) : Option ℕ → Type 0 where
  reached :
      {d : ℕ}
      → Walk a from d to_id
      → d ≤ limit
      → ((k : ℕ) → Walk a from k to_id → d ≤ k)
      → IsDistance a from to_id limit (some d)
  beyond : ((k : ℕ) → Walk a from k to_id → limit < k) → IsDistance a from to_id limit none

scan_cases :
    (r : Scan) → (r ≡ found) ⊎ ((seen' : List ℕ) × (next' : List ℕ) × (r ≡ scanned seen' next'))
scan_cases found = inl refl
scan_cases (scanned seen next) = inr (seen, next, refl)

module _ (a : Adjacency) (from to_id k : ℕ) (seen frontier : List ℕ)
    (level : Level a from k (λ v. contains v seen) frontier)
    (unmet : contains to_id seen ≡ false) where
  far : (j : ℕ) → Walk a from j to_id → k < j
  far j w = elim (order_cases j k) [
    | inl near ↦ let met = level.complete j to_id near w in cc
    | inr h ↦ h
  ]

  found-Walk : scan_frontier to_id a frontier seen [] ≡ found → Walk a from (suc k) to_id
  found-Walk e =
      let e' = rw (scan_frontier-candidates to_id a frontier seen []) at e in
      let (links, new) = scan-found to_id (candidates a frontier) seen [] e' in
      let (u, at, link) =
        links_to-source a to_id frontier (rw (contains-candidates a to_id frontier) at links) in
      (u, level.inside u at, link)

  module _ (seen' next : List ℕ)
      (e : scan_frontier to_id a frontier seen [] ≡ scanned seen' next) where
    ring_facts :
        (links_to a to_id frontier ≡ false)
        × ((v : ℕ) → contains v seen' ≡ (contains v seen || links_to a v frontier))
        × ((v : ℕ) → contains v next ≡ (not (contains v seen) && links_to a v frontier))
    ring_facts =
        let e' = rw (scan_frontier-candidates to_id a frontier seen []) at e in
        let (apart, grown, ring) =
          scan-scanned to_id (candidates a frontier) seen [] seen' next e' in
        (
          rw (sym (contains-candidates a to_id frontier)) (apart unmet),
          λ v. rw (sym (contains-candidates a v frontier)) (grown v),
          λ v. rw (sym (contains-candidates a v frontier)) (ring v),
        )

    still_unmet : contains to_id seen' ≡ false
    still_unmet = let (apart, grown, ring) = ring_facts in ground (arith, grown to_id)

    next-Level : Level a from (suc k) (λ v. contains v seen') next
    next-Level =
        let (apart, grown, ring) = ring_facts in
        Level-next a from k (λ v. contains v seen) (λ v. contains v seen') frontier next level ring
          (λ v. ground (arith, grown v, ring v))

module _ (a : Adjacency) (from to_id : ℕ) where
  distance_rounds-IsDistance :
      (left k : ℕ) (seen frontier : List ℕ)
      → Level a from k (λ v. contains v seen) frontier
      → contains to_id seen ≡ false
      → IsDistance a from to_id (k + left) (distance_rounds left (suc k) to_id a seen frontier)
  unfolding distance_rounds
  distance_rounds-IsDistance zero k seen frontier level new =
      beyond (λ j w. omega (arith, far a from to_id k seen frontier level new j w))
  distance_rounds-IsDistance (suc left) k seen frontier level new =
      elim (scan_cases (scan_frontier to_id a frontier seen [])) [
        | inl e ↦
            rw (e, distance_rounds)
              (reached (found-Walk a from to_id k seen frontier level new e) (omega arith)
                (far a from to_id k seen frontier level new))
        | inr (seen', [], e) ↦
            let last = next-Level a from to_id k seen frontier level new seen' [] e in
            let unmet = still_unmet a from to_id k seen frontier level new seen' [] e in
            rw (e, distance_rounds)
              (beyond (λ j w.
                let met = Level-closed a from (suc k) (λ v. contains v seen') last j to_id w in
                absurd (cc)))
        | inr (seen', x ∷ xs, e) ↦
            rw (e, distance_rounds)
              (subst
                (λ l.
                  IsDistance a from to_id l
                    (distance_rounds left (suc (suc k)) to_id a seen' (x ∷ xs)))
                (omega arith)
                (distance_rounds-IsDistance left (suc k) seen' (x ∷ xs)
                  (next-Level a from to_id k seen frontier level new seen' (x ∷ xs) e)
                  (still_unmet a from to_id k seen frontier level new seen' (x ∷ xs) e)))
      ]

-- Between two systems of the map `jumpDistance` returns the length of a shortest walk if that is
-- within the limit, and null if no walk is.
pub jump_distance_lem :
    (g : GraphCache) (from to_id limit : ℕ)
    → has from g.systems ≡ true
    → has to_id g.systems ≡ true
    → IsDistance g.adjacency from to_id limit (jump_distance g from to_id limit)
unfolding jump_distance
jump_distance_lem g from to_id limit known known' = elim (Bool-cases (from == to_id)) [
  | inl e ↦ rw e (reached ((==_iff from to_id).0 e) (omega arith) (λ k w. omega arith))
  | inr e ↦
      rw (e, known, known')
        (subst
          (λ l.
            IsDistance g.adjacency from to_id l
              (distance_rounds limit 1 to_id g.adjacency (from ∷ []) (from ∷ [])))
          (omega arith)
          (distance_rounds-IsDistance g.adjacency from to_id limit 0 (from ∷ []) (from ∷ [])
            (Level-start g.adjacency from (λ v. contains v (from ∷ [])) (λ v. ground arith))
            (ground arith)))
]
