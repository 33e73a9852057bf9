-- ===== src/Eve/MapGraph/Levels.antt =====
-- Walks on the map, and what a breadth-first search knows between two rounds.
use eveai.Base.{
  ℕ, zero, suc, ◌≤◌, ◌<◌, ◌≡◌, refl, Bool, true, false, not, ◌&&◌, ◌||◌, List, [], ◌∷◌, ◌++◌, ◌==◌,
  ==_iff, contains, Bool-cases, ◌⊎◌, inl, inr, arith, subst,
}
use eveai.Eve.MapGraph.{Adjacency, neighbours}

-- A walk of so many jumps.
abbrev pub Walk : Adjacency → ℕ → ℕ → ℕ → Type 0
Walk a from zero v = from ≡ v
Walk a from (suc k) v = (u : ℕ) × Walk a from k u × (contains v (neighbours a u) ≡ true)

-- Does one of the systems link to the system?
unfoldable pub links_to : Adjacency → ℕ → List ℕ → Bool
links_to a v [] = false
links_to a v (u ∷ us) = contains v (neighbours a u) || links_to a v us

pub contains-append :
    (v : ℕ) (xs ys : List ℕ) → contains v (xs ++ ys) ≡ (contains v xs || contains v ys)
contains-append v [] ys = refl
contains-append v (x ∷ xs) ys = ground (arith, contains-append v xs ys)

pub contains-snoc : (v x : ℕ) (xs : List ℕ) → contains v (xs ++ x ∷ []) ≡ (contains v xs || x == v)
contains-snoc v x xs = ground (arith, contains-append v xs (x ∷ []))

-- The systems that the inner loops run through.
unfoldable pub candidates : Adjacency → List ℕ → List ℕ
candidates a [] = []
candidates a (u ∷ us) = neighbours a u ++ candidates a us

pub contains-candidates :
    (a : Adjacency) (v : ℕ) (us : List ℕ) → contains v (candidates a us) ≡ links_to a v us
unfolding candidates links_to
contains-candidates a v [] = refl
contains-candidates a v (u ∷ us) =
    rw (contains-append v (neighbours a u) (candidates a us), contains-candidates a v us) refl

pub links_to-source :
    (a : Adjacency) (v : ℕ) (us : List ℕ)
    → links_to a v us ≡ true
    → (u : ℕ) × (contains u us ≡ true) × (contains v (neighbours a u) ≡ true)
unfolding links_to
links_to-source a v [] h = cc
links_to-source a v (u ∷ us) h = elim (Bool-cases (contains v (neighbours a u))) [
  | inl e ↦ (u, ground (arith, (==_iff u u).1 refl), e)
  | inr e ↦ let (w, inside, link) = links_to-source a v us (rw e at h) in (w, ground arith, link)
]

pub source-links_to :
    (a : Adjacency) (u v : ℕ) (us : List ℕ)
    → contains u us ≡ true
    → contains v (neighbours a u) ≡ true
    → links_to a v us ≡ true
unfolding links_to
source-links_to a u v [] h e = cc
source-links_to a u v (x ∷ us) h e = elim (Bool-cases (x == u)) [
  | inl s ↦ rw ((==_iff x u).0 s, e) refl
  | inr d ↦ let inside = rw d at h in ground (arith, source-links_to a u v us)
]

pub order_cases : (j k : ℕ) → (j ≤ k) ⊎ (k < j)
order_cases j k = ground arith

within_cases : (j k : ℕ) → j ≤ suc k → (j ≤ k) ⊎ (j ≡ suc k)
within_cases j k h = ground arith

no_jump : (a : Adjacency) (from j v : ℕ) → j ≤ 0 → Walk a from j v → from ≡ v
no_jump a from zero v h w = w
no_jump a from (suc j) v h w = absurd (omega arith)

-- After `k` rounds: which systems were met, and which stand in the frontier.
pub record Level (a : Adjacency) (from k : ℕ) (met : ℕ → Bool) (frontier : List ℕ) : Type 0 where
  pub sound : (v : ℕ) → met v ≡ true → (j : ℕ) × (j ≤ k) × Walk a from j v
  pub complete : (j v : ℕ) → j ≤ k → Walk a from j v → met v ≡ true
  pub inside : (v : ℕ) → contains v frontier ≡ true → Walk a from k v
  pub outer :
      (v : ℕ)
      → Walk a from k v
      → (contains v frontier ≡ true) ⊎ ((j : ℕ) × (j < k) × Walk a from j v)

module _ (a : Adjacency) (from k : ℕ) (met met' : ℕ → Bool) (frontier next : List ℕ)
    (level : Level a from k met frontier)
    (ring : (v : ℕ) → contains v next ≡ (not (met v) && links_to a v frontier))
    (grown : (v : ℕ) → met' v ≡ (met v || contains v next)) where
  -- A new system is linked from the frontier.
  reach_next : (v : ℕ) → contains v next ≡ true → Walk a from (suc k) v
  reach_next v h =
      let both = rw (ring v) at h in
      let (u, at, link) = links_to-source a v frontier (ground arith) in
      (u, level.inside u at, link)

  met_after : (v : ℕ) → Walk a from (suc k) v → met' v ≡ true
  met_after v (u, w, link) = elim (level.outer u w) [
    | inl at ↦ let links = source-links_to a u v frontier at link in ground (arith, ring v, grown v)
    | inr (j, earlier, w') ↦
        let old = level.complete (suc j) v (omega arith) (u, w', link) in ground (arith, grown v)
  ]

  pub Level-next : Level a from (suc k) met' next
  Level-next = record {
    sound = λ v h. elim (Bool-cases (met v)) [
      | inl old ↦ let (j, within, w) = level.sound v old in (j, omega arith, w)
      | inr fresh ↦ (suc k, omega arith, reach_next v (ground (arith, grown v)))
    ];
    complete = λ j v within w. elim (Bool-cases (met v)) [
      | inl old ↦ ground (arith, grown v)
      | inr fresh ↦ elim (within_cases j k within) [
        | inl earlier ↦ let old = level.complete j v earlier w in cc
        | inr last ↦ met_after v (subst (λ x. Walk a from x v) last w)
      ]
    ];
    inside = reach_next;
    outer = λ v w. elim (Bool-cases (met v)) [
      | inl old ↦ let (j, within, w') = level.sound v old in inr (j, omega arith, w')
      | inr fresh ↦ let seen = met_after v w in inl (ground (arith, grown v))
    ];
  }

pub Level-start :
    (a : Adjacency) (from : ℕ) (met : ℕ → Bool)
    → ((v : ℕ) → met v ≡ (from == v))
    → Level a from 0 met (from ∷ [])
Level-start a from met h = record {
  sound = λ v e. (0, omega arith, (==_iff from v).0 (ground (arith, h v)));
  complete = λ j v within w.
      let same = (==_iff from v).1 (no_jump a from j v within w) in ground (arith, h v);
  inside = λ v e. (==_iff from v).0 (ground arith);
  outer = λ v w. inl (ground (arith, (==_iff from v).1 w));
}

-- With an empty frontier every walk ends among the systems that were met.
pub Level-closed :
    (a : Adjacency) (from k : ℕ) (met : ℕ → Bool)
    → Level a from k met []
    → (j v : ℕ) → Walk a from j v
    → met v ≡ true
Level-closed a from k met level zero v w = level.complete 0 v (omega arith) w
Level-closed a from k met level (suc j) v (u, w, link) =
    let (i, within, w') = level.sound u (Level-closed a from k met level j u w) in
    elim (order_cases k i) [
      | inr shorter ↦ level.complete (suc i) v (omega arith) (u, w', link)
      | inl longest ↦
          let last : i ≡ k = omega arith in
          elim (level.outer u (subst (λ x. Walk a from x u) last w')) [
            | inl at ↦ cc
            | inr (i', earlier, w'') ↦ level.complete (suc i') v (omega arith) (u, w'', link)
          ]
    ]
