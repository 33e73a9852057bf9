-- ===== src/Eve/MapGraph/Routes/Answers.antt =====
-- What `routeWithRisk` answers, compared with all walks on the map.
use eveai.Base.{
  ℕ, suc, ◌≤◌, ◌≡◌, refl, sym, ap, subst, Bool, true, false, not, Option, ◌⊎◌, some, List, [], ◌∷◌,
  ◌++◌, ◌==◌, ==_iff, arith, ◌∙◌, Bool-cases, ◌⊎◌, inl, inr, contains, length, get, has, remove,
  count_where,
}
use eveai.Eve.MapGraph.{Adjacency, GraphCache, neighbours}
use mathlib.Core.List.{append-nil}
use eveai.Eve.MapGraph.Levels.{contains-append}
use eveai.Eve.MapGraph.Costs.{Numbers}
use eveai.Eve.MapGraph.Routes.{
  RouteOptions, RiskRoute, no_gate_route, Search, no_entry, trace, extra_links, targets, all_links,
  no_route, route_of, read_back, first_search, universe, hop_cost, route_with_risk,
}
use eveai.Eve.MapGraph.Routes.Walks.{Le, Walk, here, Walk-allowed}
use eveai.Eve.MapGraph.Routes.Rounds.{Ready, IsEnd, IsPick, search-IsEnd}
use eveai.Eve.MapGraph.Routes.Optimal.{get_empty, trace_known, picked_least, nothing_left}

targets-neighbours :
    (a : Adjacency) (u v : ℕ) → contains v (neighbours a u) ≡ true → contains v (targets a) ≡ true
unfolding get targets
targets-neighbours [] u v h = cc
targets-neighbours ((i, tos) ∷ a) u v h = elim (Bool-cases (i == u)) [
  | inl hit ↦
      let first : contains v tos ≡ true = rw hit at h in
      rw (contains-append v tos (targets a), first) refl
  | inr miss ↦
      let later = targets-neighbours a u v (rw miss at h) in
      rw (contains-append v tos (targets a), later) (ground arith)
]

module _ (v : ℕ) (xs ys : List ℕ) where
  in_either : contains v (xs ++ ys) ≡ true → (contains v xs ≡ true) ⊎ (contains v ys ≡ true)
  in_either h = let both = sym (contains-append v xs ys) ∙ h in ground arith

  in_first : contains v xs ≡ true → contains v (xs ++ ys) ≡ true
  in_first h = rw (contains-append v xs ys, h) refl

  in_second : contains v ys ≡ true → contains v (xs ++ ys) ≡ true
  in_second h = ground (arith, contains-append v xs ys)

in_head : (x v : ℕ) (xs : List ℕ) → x ≡ v → contains v (x ∷ xs) ≡ true
in_head x v xs h = ground (arith, (==_iff x v).1 h)

in_later : (x v : ℕ) (xs : List ℕ) → contains v xs ≡ true → contains v (x ∷ xs) ≡ true
in_later x v xs h = ground arith

-- No more than all.
count_where-length : (p : ℕ → Bool) (xs : List ℕ) → count_where p xs ≤ length xs
unfolding count_where
count_where-length p [] = omega arith
count_where-length p (x ∷ xs) = ground (arith, count_where-length p xs)

module _ {C : Type 0} (n : Numbers C) (g : GraphCache) (o : RouteOptions C)
    (origin_id destination_id : ℕ) where
  -- The cost of entering a system.
  abbrev pub entry_cost : ℕ → C
  unfolding hop_cost
  entry_cost id = (hop_cost n g o id).cost

  -- The walks over gates and extra links past the systems that are avoided.
  abbrev pub RouteWalk : ℕ → C → List ℕ → Type 0
  unfolding extra_links hop_cost
  RouteWalk v c ids = Walk n (all_links n g o) o.avoid entry_cost origin_id v c ids

  -- A cheapest walk, or every walk costs infinitely much.
  pub data IsRouted (r : RiskRoute C) : Type 0 where
    routed :
        r.ok ≡ true
        → RouteWalk destination_id r.total_cost r.system_ids
        → ((d : C) (ids : List ℕ) → RouteWalk destination_id d ids → Le n r.total_cost d)
        → IsRouted r
    unrouted :
        r.ok ≡ false
        → r.error ≡ some no_gate_route
        → r.system_ids ≡ []
        → ((d : C) (ids : List ℕ) → RouteWalk destination_id d ids → Le n n.infinity d)
        → IsRouted r

  -- The answer passes no system of the avoid list but the origin.
  pub IsRouted-allowed :
      (r : RiskRoute C) (id : ℕ)
      → IsRouted r
      → contains id r.system_ids ≡ true
      → (id ≡ origin_id) ⊎ (contains id o.avoid ≡ false)
  unfolding RouteWalk
  IsRouted-allowed r id (routed ok walk least) h =
      Walk-allowed n (all_links n g o) o.avoid entry_cost origin_id destination_id r.total_cost
        r.system_ids id walk h
  IsRouted-allowed r id (unrouted failed e empty dear) h = absurd (let x = rw empty at h in cc)

  all_links-universe :
      (u v : ℕ)
      → contains v (all_links n g o u) ≡ true
      → contains v (universe n g o origin_id) ≡ true
  unfolding all_links universe extra_links targets
  all_links-universe u v h =
      let gates = g.adjacency in
      let extra = extra_links g o.extra_edges [] in
      in_later origin_id v _ (elim (in_either v (neighbours gates u) (neighbours extra u) h) [
        | inl e ↦ in_first v (targets gates) (targets extra) (targets-neighbours gates u v e)
        | inr e ↦ in_second v (targets gates) (targets extra) (targets-neighbours extra u v e)
      ])

  start_entry :
      (v : ℕ) (d : C) → get v ((origin_id, n.zero) ∷ []) ≡ some d → (v ≡ origin_id) × (n.zero ≡ d)
  unfolding get
  start_entry v d h = elim (Bool-cases (origin_id == v)) [
    | inl hit ↦
        let found : some n.zero ≡ some d = rw hit at h in
        (sym ((==_iff origin_id v).0 hit), ground arith)
    | inr miss ↦ let lost = rw miss at h in cc
  ]

  start_high :
      (v : ℕ) (d : C)
      → get v ((origin_id, n.zero) ∷ []) ≡ some d
      → Le n n.zero d × (n.lt d n.infinity ≡ true)
  start_high v d h =
      let (at, same) = start_entry v d h in
      subst (λ x. Le n n.zero x × (n.lt x n.infinity ≡ true)) same
        (n.zero_least n.zero, n.zero_finite)

  abbrev IsSearchReady : Search C → Type 0
  IsSearchReady s =
      Ready n (all_links n g o) o.avoid entry_cost origin_id destination_id
        (universe n g o origin_id) all_links-universe s

  first_search-Ready : IsSearchReady (first_search n g o origin_id)
  unfolding get has universe extra_links targets
  first_search-Ready = record {
    bound = n.zero;
    inv = record {
      origin_cost = rw ((==_iff origin_id origin_id).1 refl) refl;
      open_ = λ v h. refl;
      closed = λ v h. cc;
      keyed = (refl, tt);
      low = λ v h. cc;
      high = start_high;
      parents = λ v d h. inl (start_entry v d h).0;
      ranked = tt;
      inside = λ v d h. in_head origin_id v _ (sym (start_entry v d h).0);
      unreached = refl;
    };
    relaxed = λ u v h link allowed. cc;
  }

  abbrev IsAnswer : Option (RiskRoute C) → Type 0
  IsAnswer x = (r : RiskRoute C) × (x ≡ some r) × IsRouted r

  -- The walk back from a destination with its least cost.
  read_back-IsAnswer :
      (s : Search C) (c : C) (ids : List ℕ)
      → trace (suc (suc (length s.settled))) s.previous origin_id destination_id [] ≡ some ids
      → RouteWalk destination_id c ids
      → ((d : C) (ids : List ℕ) → RouteWalk destination_id d ids → Le n c d)
      → IsAnswer (read_back n g o origin_id destination_id s (some c))
  unfolding read_back
  read_back-IsAnswer s c ids h walk least =
      (route_of n g o ids c, rw (read_back, h) refl, routed refl walk least)

  stuck-IsAnswer :
      (s : Search C)
      → IsSearchReady s
      → no_entry s.queue ≡ true
      → IsAnswer (read_back n g o origin_id destination_id s (get destination_id s.best))
  unfolding read_back RouteWalk
  stuck-IsAnswer s r empty =
      let nothing =
        sym (r.inv.open_ destination_id r.inv.unreached)
        ∙ get_empty n (all_links n g o) o.avoid entry_cost origin_id destination_id
            (universe n g o origin_id) all_links-universe s r s.queue destination_id empty in
      rw nothing (
        no_route n g o no_gate_route,
        refl,
        unrouted refl refl refl (
            nothing_left n (all_links n g o) o.avoid entry_cost origin_id destination_id
              (universe n g o origin_id) all_links-universe s r empty),
      )

  picked-IsAnswer :
      (s : Search C) (r : IsSearchReady s) (c : C)
      → IsPick n
          (all_links n g o)
          o.avoid
          entry_cost
          origin_id
          destination_id
          (universe n g o origin_id)
          all_links-universe
          s
          destination_id
          c
      → IsAnswer (
          read_back n g o origin_id destination_id
            (record s { queue = remove destination_id s.queue })
            (get destination_id s.best))
  unfolding RouteWalk
  picked-IsAnswer s r c p =
      let known = sym (r.inv.open_ destination_id r.inv.unreached) ∙ p.entry in
      let (ids, found, walk) =
        trace_known n (all_links n g o) o.avoid entry_cost origin_id destination_id
          (universe n g o origin_id) all_links-universe s r destination_id c known in
      rw known (
        read_back-IsAnswer (record s { queue = remove destination_id s.queue }) c ids
          (found ∙ ap some (append-nil ids)) walk
          (picked_least n (all_links n g o) o.avoid entry_cost origin_id destination_id
            (universe n g o origin_id) all_links-universe s r c p))

  ended-IsAnswer :
      (t : Search C)
      → IsEnd n
          (all_links n g o)
          o.avoid
          entry_cost
          origin_id
          destination_id
          (universe n g o origin_id)
          all_links-universe
          t
      → IsAnswer (read_back n g o origin_id destination_id t (get destination_id t.best))
  ended-IsAnswer t e = elim e.outcome [
    | inl (same, empty) ↦ rw same (stuck-IsAnswer e.last e.ready empty)
    | inr (c, p, same) ↦ rw same (picked-IsAnswer e.last e.ready c p)
  ]

  -- Over numbers with the laws of Costs, with both ends on the map and the destination not in the
  -- avoid list, `routeWithRisk` returns. It answers a walk over gates and extra links to the destination, which enters no system of the
  -- avoid list, with its cost, and no such walk is cheaper; or it answers that no gate route
  -- connects the systems, and every such walk costs no less than infinity.
  pub route_with_risk_lem :
      has origin_id g.systems ≡ true
      → has destination_id g.systems ≡ true
      → contains destination_id o.avoid ≡ false
      → (r : RiskRoute C) × (route_with_risk n g o origin_id destination_id ≡ some r) × IsRouted r
  unfolding route_with_risk RouteWalk
  route_with_risk_lem h k a = elim (Bool-cases (origin_id == destination_id)) [
    | inl same ↦ (
      route_of n g o (origin_id ∷ []) n.zero,
      rw (route_with_risk, h, k, a, same) refl,
      routed refl (here (sym ((==_iff origin_id destination_id).0 same)) refl refl)
          (λ d ids w. n.zero_least d),
    )
    | inr apart ↦
        let (t, ends, is_end) =
          search-IsEnd n (all_links n g o) o.avoid entry_cost origin_id destination_id
            (universe n g o origin_id) all_links-universe
            (suc (suc (length (universe n g o origin_id)))) (first_search n g o origin_id)
            first_search-Ready
            (omega
              (arith, count_where-length (λ u. not (contains u [])) (universe n g o origin_id))) in
        let (r, found, ok) = ended-IsAnswer t is_end in
        (r, rw (route_with_risk, h, k, a, apart, ends) found, ok)
  ]
