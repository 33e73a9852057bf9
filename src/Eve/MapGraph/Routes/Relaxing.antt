-- ===== src/Eve/MapGraph/Routes/Relaxing.antt =====
-- What holds between two rounds of the search, and that looking at a neighbour keeps it.
use eveai.Base.{
  ℕ, ◌≡◌, refl, sym, subst, true, false, none, some, List, [], ◌∷◌, ◌==◌, ==_iff, arith, Bool-cases,
  ◌⊎◌, inl, inr, contains, get, put, IsKeyed, get-put, put-IsKeyed, ◌∙◌,
}
use eveai.Eve.MapGraph.Costs.{Numbers}
use eveai.Eve.MapGraph.Routes.{Search, or_infinity, relax, relax_all}
use eveai.Eve.MapGraph.Routes.Walks.{Le, Le-refl, Le_trans, Le-of_lt}

module _ {C : Type 0} (n : Numbers C) (links : ℕ → List ℕ) (avoid : List ℕ) (hop : ℕ → C)
    (origin_id destination_id : ℕ) (universe : List ℕ) where
  abbrev pub cost_at : Search C → ℕ → C
  cost_at s v = or_infinity n (get v s.best)

  -- The settled system that a cost comes from.
  pub record Parent (s : Search C) (v : ℕ) (d : C) : Type 0 where
    pub from : ℕ
    pub cost : C
    pub points : get v s.previous ≡ some from
    pub settled : contains from s.settled ≡ true
    pub known : get from s.best ≡ some cost
    pub link : contains v (links from) ≡ true
    pub allowed : contains v avoid ≡ false
    pub sums : d ≡ n.add cost (hop v)

  -- Each settled system is the origin, or comes from one that was settled before it.
  abbrev pub IsRanked : List (ℕ × ℕ) → List ℕ → Type 0
  IsRanked previous [] = Unit
  IsRanked previous (v ∷ vs) =
      ((v ≡ origin_id) ⊎ ((u : ℕ) × (get v previous ≡ some u) × (contains u vs ≡ true)))
      × IsRanked previous vs

  -- The settled systems cost at most `c`, those in the queue at least.
  pub record Inv (c : C) (s : Search C) : Type 0 where
    pub origin_cost : get origin_id s.best ≡ some n.zero
    pub open_ : (v : ℕ) → contains v s.settled ≡ false → get v s.queue ≡ get v s.best
    pub closed : (v : ℕ) → contains v s.settled ≡ true → get v s.queue ≡ none
    pub keyed : IsKeyed s.queue
    pub low : (v : ℕ) → contains v s.settled ≡ true → Le n (cost_at s v) c
    pub high : (v : ℕ) (d : C) → get v s.queue ≡ some d → Le n c d × (n.lt d n.infinity ≡ true)
    pub parents : (v : ℕ) (d : C) → get v s.best ≡ some d → (v ≡ origin_id) ⊎ Parent s v d
    pub ranked : IsRanked s.previous s.settled
    pub inside : (v : ℕ) (d : C) → get v s.queue ≡ some d → contains v universe ≡ true
    pub unreached : contains destination_id s.settled ≡ false

  -- The settled systems' links are looked at.
  abbrev pub IsRelaxed : Search C → (u v : ℕ) → Type 0
  IsRelaxed s u v = contains v avoid ≡ false → Le n (cost_at s v) (n.add (cost_at s u) (hop v))

  IsRanked-put :
      (v u : ℕ) (previous : List (ℕ × ℕ)) (vs : List ℕ)
      → contains v vs ≡ false
      → IsRanked previous vs
      → IsRanked (put v u previous) vs
  IsRanked-put v u previous [] h r = tt
  IsRanked-put v u previous (w ∷ vs) h r = (
    elim r.0 [
      | inl root ↦ inl root
      | inr (p, points, earlier) ↦
          inr (p, ground (arith, get-put v w u previous, ==_iff v w, ==_iff w v), earlier)
    ],
    IsRanked-put v u previous vs (ground arith) r.1,
  )

  module _ (id : ℕ) (c : C) (s : Search C) (holds : Inv c s)
      (settled : contains id s.settled ≡ true) (known : get id s.best ≡ some c) where
    -- The changes of one neighbour: costs fall, those of settled systems stay.
    pub record IsStep (s' : Search C) : Type 0 where
      pub same : s'.settled ≡ s.settled
      pub falls : (x : ℕ) → Le n (cost_at s' x) (cost_at s x)
      pub fixed : (x : ℕ) → contains x s.settled ≡ true → get x s'.best ≡ get x s.best
      pub inv : Inv c s'

    IsStep-refl : IsStep s
    IsStep-refl = record {
      same = refl;
      falls = λ x. Le-refl n (cost_at s x);
      fixed = λ x h. refl;
      inv = holds;
    }

    abbrev improved : ℕ → C → Search C
    improved v cost = record s {
      best = put v cost s.best;
      previous = put v id s.previous;
      queue = put v cost s.queue;
    }

    module _ (v : ℕ) (link : contains v (links id) ≡ true) (target : contains v universe ≡ true)
        (new : contains v s.settled ≡ false) (allowed : contains v avoid ≡ false)
        (better : n.lt (n.add c (hop v)) (cost_at s v) ≡ true) where
      abbrev cost : C
      cost = n.add c (hop v)

      abbrev after : Search C
      after = improved v cost

      not_origin : (v == origin_id) ≡ false
      not_origin = elim (Bool-cases (v == origin_id)) [
        | inl e ↦
            let at_v : get v s.best ≡ some n.zero =
              subst (λ x. get x s.best ≡ some n.zero) (sym ((==_iff v origin_id).0 e))
                holds.origin_cost in
            let b : n.lt cost n.zero ≡ true = rw at_v at better in let z = n.zero_least cost in cc
        | inr e ↦ e
      ]

      finite : n.lt cost n.infinity ≡ true
      finite = elim (Bool-cases (n.lt cost n.infinity)) [
        | inl e ↦ e
        | inr e ↦
            let dear =
              n.ge_trans cost n.infinity (cost_at s v) e (n.infinity_greatest (cost_at s v)) in
            cc
      ]

      apart : (x : ℕ) → contains x s.settled ≡ true → (v == x) ≡ false
      apart x h = elim (Bool-cases (v == x)) [
        | inl e ↦
            let old = subst (λ y. contains y s.settled ≡ false) ((==_iff v x).0 e) new in
            absurd (let clash : true ≡ false = sym h ∙ old in cc)
        | inr e ↦ e
      ]

      falls_lem : (x : ℕ) → Le n (cost_at after x) (cost_at s x)
      falls_lem x = elim (Bool-cases (v == x)) [
        | inl hit ↦
            rw (get-put v x cost s.best, hit)
              (subst (λ y. Le n cost (cost_at s y)) ((==_iff v x).0 hit) (Le-of_lt n _ _ better))
        | inr miss ↦ rw (get-put v x cost s.best, miss) (Le-refl n (cost_at s x))
      ]

      fixed_lem : (x : ℕ) → contains x s.settled ≡ true → get x after.best ≡ get x s.best
      fixed_lem x h = rw (get-put v x cost s.best, apart x h) refl

      high_lem :
          (x : ℕ) (d : C) → get x after.queue ≡ some d → Le n c d × (n.lt d n.infinity ≡ true)
      high_lem x d h = elim (Bool-cases (v == x)) [
        | inl hit ↦
            let found : some cost ≡ some d = rw (get-put v x cost s.queue, hit) at h in
            let same : cost ≡ d = ground arith in
            subst (λ y. Le n c y × (n.lt y n.infinity ≡ true)) same (n.add_grows c (hop v), finite)
        | inr miss ↦ holds.high x d (rw (get-put v x cost s.queue, miss) at h)
      ]

      new-Parent : Parent after v cost
      new-Parent = record {
        from = id;
        cost = c;
        points = rw (get-put v v id s.previous, (==_iff v v).1 refl) refl;
        settled = settled;
        known = rw (fixed_lem id settled) known;
        link = link;
        allowed = allowed;
        sums = refl;
      }

      old-Parent : (x : ℕ) (d : C) → (v == x) ≡ false → Parent s x d → Parent after x d
      old-Parent x d miss p = record {
        from = p.from;
        cost = p.cost;
        points = rw (get-put v x id s.previous, miss) p.points;
        settled = p.settled;
        known = rw (fixed_lem p.from p.settled) p.known;
        link = p.link;
        allowed = p.allowed;
        sums = p.sums;
      }

      parents_lem : (x : ℕ) (d : C) → get x after.best ≡ some d → (x ≡ origin_id) ⊎ Parent after x d
      parents_lem x d h = elim (Bool-cases (v == x)) [
        | inl hit ↦
            let found : some cost ≡ some d = rw (get-put v x cost s.best, hit) at h in
            let same : cost ≡ d = ground arith in
            inr (
              subst (Parent after x) same
                (subst (λ y. Parent after y cost) ((==_iff v x).0 hit) new-Parent))
        | inr miss ↦ elim (holds.parents x d (rw (get-put v x cost s.best, miss) at h)) [
          | inl root ↦ inl root
          | inr p ↦ inr (old-Parent x d miss p)
        ]
      ]

      inside_lem : (x : ℕ) (d : C) → get x after.queue ≡ some d → contains x universe ≡ true
      inside_lem x d h = elim (Bool-cases (v == x)) [
        | inl hit ↦ subst (λ y. contains y universe ≡ true) ((==_iff v x).0 hit) target
        | inr miss ↦ holds.inside x d (rw (get-put v x cost s.queue, miss) at h)
      ]

      improved-Inv : Inv c after
      improved-Inv = record {
        origin_cost = rw (get-put v origin_id cost s.best, not_origin) holds.origin_cost;
        open_ = λ x h.
            ground (arith, get-put v x cost s.queue, get-put v x cost s.best, holds.open_ x h);
        closed = λ x h. rw (get-put v x cost s.queue, apart x h) (holds.closed x h);
        keyed = put-IsKeyed v cost s.queue holds.keyed;
        low = λ x h. rw (get-put v x cost s.best, apart x h) (holds.low x h);
        high = high_lem;
        parents = parents_lem;
        ranked = IsRanked-put v id s.previous s.settled new holds.ranked;
        inside = inside_lem;
        unreached = holds.unreached;
      }

      improved-IsStep : IsStep after
      improved-IsStep = record {
        same = refl;
        falls = falls_lem;
        fixed = fixed_lem;
        inv = improved-Inv;
      }

    abbrev next : ℕ → Search C
    next v = relax n links avoid hop destination_id id c s v

    -- A neighbour that may be entered costs at most the way over `id` afterwards.
    pub relax-IsStep :
        (v : ℕ)
        → contains v (links id) ≡ true
        → contains v universe ≡ true
        → IsStep (relax n links avoid hop destination_id id c s v)
          × (contains v avoid ≡ false
              → Le n
                  (cost_at (relax n links avoid hop destination_id id c s v) v)
                  (n.add c (hop v)))
    unfolding relax
    relax-IsStep v link target = elim (Bool-cases (contains v s.settled)) [
      | inl old ↦
          rw (old, relax)
            (IsStep-refl, λ allowed. Le_trans n _ c _ (holds.low v old) (n.add_grows c (hop v)))
      | inr new ↦ elim (Bool-cases (contains v avoid)) [
        | inl banned ↦ rw (new, banned, relax) (IsStep-refl, λ allowed. cc)
        | inr allowed ↦ elim (Bool-cases (n.lt (n.add c (hop v)) (cost_at s v))) [
          | inl better ↦
              rw (new, allowed, better, relax)
                (
                  improved-IsStep v link target new allowed better,
                  λ _.
                      rw (get-put v v (n.add c (hop v)) s.best, (==_iff v v).1 refl)
                        (Le-refl n (n.add c (hop v))),
                )
          | inr worse ↦ rw (new, allowed, worse, relax) (IsStep-refl, λ _. worse)
        ]
      ]
    ]

  -- All neighbours of the system that was picked.
  pub relax_all-IsStep :
      (id : ℕ) (c : C) (s : Search C) (vs : List ℕ) (holds : Inv c s)
      (settled : contains id s.settled ≡ true) (known : get id s.best ≡ some c)
      → ((v : ℕ)
          → contains v vs ≡ true
          → (contains v (links id) ≡ true) × (contains v universe ≡ true))
      → IsStep id c s holds settled known (relax_all n links avoid hop destination_id id c s vs)
        × ((v : ℕ)
            → contains v vs ≡ true
            → contains v avoid ≡ false
            → Le n
                (cost_at (relax_all n links avoid hop destination_id id c s vs) v)
                (n.add c (hop v)))
  unfolding relax_all
  relax_all-IsStep id c s [] holds settled known near =
      (IsStep-refl id c s holds settled known, λ v h. cc)
  relax_all-IsStep id c s (v ∷ vs) holds settled known near =
      let head = near v (ground (arith, (==_iff v v).1 refl)) in
      let (one, bound) = relax-IsStep id c s holds settled known v head.0 head.1 in
      let s' = relax n links avoid hop destination_id id c s v in
      let t = relax_all n links avoid hop destination_id id c s' vs in
      let settled' : contains id s'.settled ≡ true = rw one.same settled in
      let known' : get id s'.best ≡ some c = rw (one.fixed id settled) known in
      let (rest, bounds) =
        relax_all-IsStep id c s' vs one.inv settled' known' (λ x h. near x (ground arith)) in
      (
        record {
          same = rest.same ∙ one.same;
          falls = λ x. Le_trans n _ (cost_at s' x) _ (rest.falls x) (one.falls x);
          fixed = λ x h. rest.fixed x (rw one.same h) ∙ one.fixed x h;
          inv = rest.inv;
        },
        λ x h allowed. elim (Bool-cases (v == x)) [
          | inl hit ↦
              let same = (==_iff v x).0 hit in
              let allowed' = subst (λ y. contains y avoid ≡ false) (sym same) allowed in
              subst (λ y. Le n (cost_at t y) (n.add c (hop y))) same
                (Le_trans n _ (cost_at s' v) _ (rest.falls v) (bound allowed'))
          | inr miss ↦ bounds x (rw miss at h) allowed
        ],
      )
