-- ===== src/Eve/MapGraph/Routes/Rounds.antt =====
-- The rounds of the search and their number.
use eveai.Base.{
  ℕ, zero, suc, ◌≤◌, ◌<◌, ◌≡◌, refl, sym, ap, subst, true, false, not, Option, none, some, List, [],
  ◌∷◌, ◌==◌, ==_iff, arith, ◌∙◌, Bool-cases, ◌⊎◌, inl, inr, contains, get, remove, get-remove,
  remove-IsKeyed, count_where,
}
use eveai.Eve.MapGraph.Costs.{Numbers}
use eveai.Eve.MapGraph.Routes.{
  Search, finished, goes_on, no_entry, pick, relax_all, visit, round, search,
}
use eveai.Eve.MapGraph.Routes.Walks.{Le, Le-refl, Le_trans, pick_entry, pick_least}
use eveai.Eve.MapGraph.Routes.Relaxing.{cost_at, Parent, Inv, IsStep, relax_all-IsStep}

-- What is settled is no longer open.
settle_mono :
    (id : ℕ) (settled us : List ℕ)
    → count_where (λ u. not (contains u (id ∷ settled))) us
      ≤ count_where (λ u. not (contains u settled)) us
unfolding count_where
settle_mono id settled [] = omega arith
settle_mono id settled (u ∷ us) = ground (arith, settle_mono id settled us)

settle_fewer :
    (id : ℕ) (settled us : List ℕ)
    → contains id us ≡ true
    → contains id settled ≡ false
    → count_where (λ u. not (contains u (id ∷ settled))) us
      < count_where (λ u. not (contains u settled)) us
unfolding count_where
settle_fewer id settled [] h k = cc
settle_fewer id settled (u ∷ us) h k = elim (Bool-cases (u == id)) [
  | inl hit ↦
      let same = (==_iff u id).0 hit in
      let open_ = subst (λ y. contains y settled ≡ false) (sym same) k in
      ground (arith, settle_mono id settled us, ==_iff id u)
  | inr miss ↦ ground (arith, settle_fewer id settled us)
]

module _ {C : Type 0} (n : Numbers C) (links : ℕ → List ℕ) (avoid : List ℕ) (hop : ℕ → C)
    (origin_id destination_id : ℕ) (universe : List ℕ)
    (ends : (u v : ℕ) → contains v (links u) ≡ true → contains v universe ≡ true) where
  abbrev Holds : C → Search C → Type 0
  Holds c s = Inv n links avoid hop origin_id destination_id universe c s

  abbrev cost : Search C → ℕ → C
  cost s v = cost_at n links avoid hop origin_id destination_id universe s v

  -- Every link of a settled system is looked at.
  abbrev AllRelaxed : Search C → Type 0
  AllRelaxed s =
      (u v : ℕ)
      → contains u s.settled ≡ true
      → contains v (links u) ≡ true
      → contains v avoid ≡ false
      → Le n (cost s v) (n.add (cost s u) (hop v))

  pub record Ready (s : Search C) : Type 0 where
    pub bound : C
    pub inv : Holds bound s
    pub relaxed : AllRelaxed s

  -- The pick of a queue that is not empty: an entry, and no other is cheaper.
  pub record IsPick (s : Search C) (id : ℕ) (c : C) : Type 0 where
    pub entry : get id s.queue ≡ some c
    pub least : (v : ℕ) (d : C) → get v s.queue ≡ some d → Le n c d

  first_entry : (q : List (ℕ × C)) → no_entry q ≡ false → (i : ℕ) × (c : C) × (get i q ≡ some c)
  unfolding get
  first_entry [] h = cc
  first_entry ((i, c) ∷ q) h = (i, c, rw ((==_iff i i).1 refl) refl)

  picks :
      (s : Search C) (r : Ready s)
      → no_entry s.queue ≡ false
      → (id : ℕ) × (c : C) × (pick n s.queue (none, n.infinity) ≡ (some id, c)) × IsPick s id c
  picks s r h = elim (pick_entry n s.queue (none, n.infinity) r.inv.keyed) [
    | inl same ↦
        let (i, c, head) = first_entry s.queue h in
        let dear = (pick_least n s.queue (none, n.infinity)).1 i c head in
        let dear' : Le n n.infinity c = rw same at dear in
        let cheap = (r.inv.high i c head).1 in absurd (let x = sym cheap ∙ dear' in cc)
    | inr (id, at_id, found) ↦ (
      id,
      (pick n s.queue (none, n.infinity)).1,
      ap {B = Option ℕ × C} (λ o. (o, (pick n s.queue (none, n.infinity)).1)) at_id,
      record { entry = found; least = (pick_least n s.queue (none, n.infinity)).1 },
    )
  ]

  module _ (s : Search C) (r : Ready s) (id : ℕ) (c : C) (p : IsPick s id c) where
    unsettled : contains id s.settled ≡ false
    unsettled = elim (Bool-cases (contains id s.settled)) [
      | inl e ↦ let gone = r.inv.closed id e in absurd (let x = sym p.entry ∙ gone in cc)
      | inr e ↦ e
    ]

    known : get id s.best ≡ some c
    known = sym (r.inv.open_ id unsettled) ∙ p.entry

    abbrev picked : Search C
    picked = record s { queue = remove id s.queue; settled = id ∷ s.settled }

    picked_settled : contains id picked.settled ≡ true
    picked_settled = ground (arith, (==_iff id id).1 refl)

    bound_below : Le n r.bound c
    bound_below = (r.inv.high id c p.entry).0

    picked_low : (v : ℕ) → contains v picked.settled ≡ true → Le n (cost s v) c
    picked_low v h = elim (Bool-cases (id == v)) [
      | inl hit ↦ subst (λ y. Le n (cost s y) c) ((==_iff id v).0 hit) (rw known (Le-refl n c))
      | inr miss ↦ Le_trans n _ r.bound c (r.inv.low v (rw miss at h)) bound_below
    ]

    still_queued : (v : ℕ) (d : C) → get v picked.queue ≡ some d → get v s.queue ≡ some d
    still_queued v d h = elim (Bool-cases (id == v)) [
      | inl hit ↦ let x = rw (get-remove id v s.queue, hit) at h in cc
      | inr miss ↦ rw (get-remove id v s.queue, miss) at h
    ]

    picked_parents :
        (v : ℕ) (d : C)
        → get v s.best ≡ some d
        → (v ≡ origin_id) ⊎ Parent n links avoid hop origin_id destination_id universe picked v d
    picked_parents v d h = elim (r.inv.parents v d h) [
      | inl root ↦ inl root
      | inr q ↦ inr (record {
        from = q.from;
        cost = q.cost;
        points = q.points;
        settled = ground (arith, q.settled);
        known = q.known;
        link = q.link;
        allowed = q.allowed;
        sums = q.sums;
      })
    ]

    picked-Inv : (id == destination_id) ≡ false → Holds c picked
    picked-Inv d = record {
      origin_cost = r.inv.origin_cost;
      open_ = λ v h. ground (arith, get-remove id v s.queue, r.inv.open_ v);
      closed = λ v h. ground (arith, get-remove id v s.queue, r.inv.closed v);
      keyed = remove-IsKeyed id s.queue r.inv.keyed;
      low = picked_low;
      high = λ v e h. (p.least v e (still_queued v e h), (r.inv.high v e (still_queued v e h)).1);
      parents = picked_parents;
      ranked = (
        elim (r.inv.parents id c known) [
          | inl root ↦ inl root
          | inr q ↦ inr (q.from, q.points, q.settled)
        ],
        r.inv.ranked,
      );
      inside = λ v e h. r.inv.inside v e (still_queued v e h);
      unreached = ground (arith, r.inv.unreached);
    }

    abbrev visited : Search C
    visited = relax_all n links avoid hop destination_id id c picked (links id)

    module _ (d : (id == destination_id) ≡ false) where
      all_steps :
          IsStep n links avoid hop origin_id destination_id universe id c picked
            (picked-Inv d)
            picked_settled
            known
            visited
          × ((v : ℕ)
              → contains v (links id) ≡ true
              → contains v avoid ≡ false
              → Le n (cost visited v) (n.add c (hop v)))
      all_steps =
          relax_all-IsStep n links avoid hop origin_id destination_id universe id c picked
            (links id) (picked-Inv d) picked_settled known (λ v h. (h, ends id v h))

      visited_relaxed : AllRelaxed visited
      visited_relaxed u v settled link allowed =
          let (step, bounds) = all_steps in
          let before = rw step.same at settled in
          elim (Bool-cases (id == u)) [
            | inl hit ↦
                let same = (==_iff id u).0 hit in
                let link' = subst (λ y. contains v (links y) ≡ true) (sym same) link in
                subst (λ y. Le n (cost visited v) (n.add (cost visited y) (hop v))) same
                  (rw (step.fixed id (ground (arith, (==_iff id id).1 refl)), known)
                    (bounds v link' allowed))
            | inr miss ↦ rw (step.fixed u before) (
                Le_trans n _ (cost s v) _ (step.falls v)
                  (r.relaxed u v (rw miss at before) link allowed))
          ]

      visited-Ready : Ready visited
      visited-Ready = record { bound = c; inv = all_steps.0.inv; relaxed = visited_relaxed }

  abbrev pub open_count : List ℕ → ℕ
  open_count settled = count_where (λ u. not (contains u settled)) universe

  -- How the search ends: with an empty queue, or with the destination picked.
  pub record IsEnd (t : Search C) : Type 0 where
    pub last : Search C
    pub ready : Ready last
    pub outcome :
        ((t ≡ last) × (no_entry last.queue ≡ true))
        ⊎ ((c : C) × IsPick last destination_id c
            × (t ≡ record last { queue = remove destination_id last.queue }))

  visit_destination :
      (s : Search C) (c : C)
      → visit n links avoid hop destination_id s (some destination_id, c)
        ≡ finished (record s { queue = remove destination_id s.queue })
  unfolding visit
  visit_destination s c = rw (visit, (==_iff destination_id destination_id).1 refl) refl

  module _ (s : Search C) (r : Ready s) where
    round_empty : no_entry s.queue ≡ true → round n links avoid hop destination_id s ≡ finished s
    unfolding round
    round_empty e = rw (round, e) refl

    round-pick :
        (id : ℕ) (c : C)
        → no_entry s.queue ≡ false
        → pick n s.queue (none, n.infinity) ≡ (some id, c)
        → round n links avoid hop destination_id s
          ≡ visit n links avoid hop destination_id s (some id, c)
    unfolding round
    round-pick id c e h = rw (round, e, h) refl

    visit_other :
        (id : ℕ) (c : C) (p : IsPick s id c)
        → (id == destination_id) ≡ false
        → visit n links avoid hop destination_id s (some id, c) ≡ goes_on (visited s r id c p)
    unfolding visit
    visit_other id c p d = rw (visit, d, unsettled s r id c p) refl

  -- With fuel for the systems that are not settled the search ends.
  pub search-IsEnd :
      (fuel : ℕ) (s : Search C)
      → Ready s
      → open_count s.settled < fuel
      → (t : Search C) × (search n links avoid hop destination_id fuel s ≡ some t) × IsEnd t
  unfolding search
  search-IsEnd zero s r h = absurd (omega arith)
  search-IsEnd (suc fuel) s r h = elim (Bool-cases (no_entry s.queue)) [
    | inl e ↦ (
      s,
      rw (search, round_empty s r e) refl,
      record { last = s; ready = r; outcome = inl (refl, e) },
    )
    | inr e ↦
        let (id, c, picked_at, p) = picks s r e in
        elim (Bool-cases (id == destination_id)) [
          | inl hit ↦
              let same = (==_iff id destination_id).0 hit in
              let at_end =
                subst (λ y. pick n s.queue (none, n.infinity) ≡ (some y, c)) same picked_at in
              (
                record s { queue = remove destination_id s.queue },
                rw (search, round-pick s r destination_id c e at_end, visit_destination s c) refl,
                record {
                  last = s;
                  ready = r;
                  outcome = inr (c, subst (λ y. IsPick s y c) same p, refl);
                },
              )
          | inr miss ↦
              let fewer =
                settle_fewer id s.settled universe (r.inv.inside id c p.entry)
                  (unsettled s r id c p) in
              let settled = (all_steps s r id c p miss).0.same in
              let less : open_count (visited s r id c p).settled < fuel =
                rw settled (omega (arith, fewer)) in
              let (t, ends, is_end) =
                search-IsEnd fuel (visited s r id c p) (visited-Ready s r id c p miss) less in
              (
                t,
                rw (search, round-pick s r id c e picked_at, visit_other s r id c p miss) ends,
                is_end,
              )
        ]
  ]
