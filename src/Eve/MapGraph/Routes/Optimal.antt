-- ===== src/Eve/MapGraph/Routes/Optimal.antt =====
-- The end of the search against all walks, and the walk back.
use eveai.Base.{
  ℕ, zero, suc, ◌<◌, ◌≡◌, refl, sym, ap, subst, true, false, none, some, List, [], ◌∷◌, ◌++◌, ◌==◌,
  ==_iff, arith, ◌∙◌, Bool-cases, Option-cases, inl, inr, contains, length, get,
}
use mathlib.Core.List.{append_assoc}
use eveai.Eve.MapGraph.Costs.{Numbers}
use eveai.Eve.MapGraph.Routes.{Search, or_infinity, no_entry, trace}
use eveai.Eve.MapGraph.Routes.Walks.{Le, Le-refl, Le_trans, Walk, here, onward}
use eveai.Eve.MapGraph.Routes.Relaxing.{Parent, IsRanked}
use eveai.Eve.MapGraph.Routes.Rounds.{Ready, IsPick}

module _ {C : Type 0} (n : Numbers C) (links : ℕ → List ℕ) (avoid : List ℕ) (hop : ℕ → C)
    (origin_id destination_id : ℕ) (universe : List ℕ)
    (ends : (u v : ℕ) → contains v (links u) ≡ true → contains v universe ≡ true) where
  abbrev IsReady : Search C → Type 0
  IsReady s = Ready n links avoid hop origin_id destination_id universe ends s

  abbrev WalkTo : ℕ → C → List ℕ → Type 0
  WalkTo v c ids = Walk n links avoid hop origin_id v c ids

  -- A walk leads to a settled system that costs no more, or something in the queue does not.
  data Frontier (s : Search C) (w : ℕ) (d : C) : Type 0 where
    behind : contains w s.settled ≡ true → Le n (or_infinity n (get w s.best)) d → Frontier s w d
    waiting : (x : ℕ) (c : C) → get x s.queue ≡ some c → Le n c d → Frontier s w d
    endless : Le n n.infinity d → Frontier s w d

  module _ (s : Search C) (r : IsReady s) where
    known_frontier : (w : ℕ) (d : C) → Le n (or_infinity n (get w s.best)) d → Frontier s w d
    known_frontier w d h = elim (Bool-cases (contains w s.settled)) [
      | inl e ↦ behind e h
      | inr e ↦ elim (Option-cases (get w s.best)) [
        | inl none_yet ↦ endless (rw none_yet at h)
        | inr (c, best) ↦ waiting w c (r.inv.open_ w e ∙ best) (rw best at h)
      ]
    ]

    frontier : (w : ℕ) (d : C) (ids : List ℕ) → WalkTo w d ids → Frontier s w d
    frontier w d ids (here at_origin free _) =
        known_frontier w d (rw (at_origin, r.inv.origin_cost, free) (Le-refl n n.zero))
    frontier w d ids (onward {u} {v} {c} before link allowed sums _) =
        elim (frontier u c _ before) [
          | behind settled below ↦
              let over = r.relaxed u w settled link allowed in
              let raised = n.add_mono c (or_infinity n (get u s.best)) (hop w) below in
              known_frontier w d (rw sums (Le_trans n _ _ _ over raised))
          | waiting x e queued below ↦
              waiting x e queued (rw sums (Le_trans n e c _ below (n.add_grows c (hop w))))
          | endless below ↦ endless (rw sums (Le_trans n _ c _ below (n.add_grows c (hop w))))
        ]

    -- The walk back from a system, in front of what is known already.
    abbrev pub Traced : ℕ → ℕ → C → List ℕ → Type 0
    Traced fuel v c rest =
        (ids : List ℕ) × (trace fuel s.previous origin_id v rest ≡ some (ids ++ rest))
        × WalkTo v c ids

    trace_origin :
        (fuel v : ℕ) (rest : List ℕ)
        → v ≡ origin_id
        → trace (suc fuel) s.previous origin_id v rest ≡ some (v ∷ rest)
    unfolding trace
    trace_origin fuel v rest h = rw (trace, (==_iff v origin_id).1 h) refl

    trace_before :
        (fuel v u : ℕ) (rest : List ℕ)
        → (v == origin_id) ≡ false
        → get v s.previous ≡ some u
        → trace (suc fuel) s.previous origin_id v rest
          ≡ trace fuel s.previous origin_id u (v ∷ rest)
    unfolding trace
    trace_before fuel v u rest h e = rw (trace, h, e) refl

    Traced-origin :
        (fuel v : ℕ) (c : C) (rest : List ℕ)
        → v ≡ origin_id
        → get v s.best ≡ some c
        → Traced (suc fuel) v c rest
    Traced-origin fuel v c rest h e =
        let free = sym (subst (λ x. get x s.best ≡ some n.zero) (sym h) r.inv.origin_cost) ∙ e in
        let same : n.zero ≡ c = ground arith in
        (v ∷ [], trace_origin fuel v rest h, here h (sym same) (rw h refl))

    Traced-Parent :
        (fuel v : ℕ) (c : C) (rest : List ℕ)
        → (v == origin_id) ≡ false
        → (p : Parent n links avoid hop origin_id destination_id universe s v c)
        → Traced fuel p.from p.cost (v ∷ rest)
        → Traced (suc fuel) v c rest
    Traced-Parent fuel v c rest h p (ids, found, walk) = (
      ids ++ v ∷ [],
      rw (trace_before fuel v p.from rest h p.points, found)
          (ap some (sym (append_assoc ids (v ∷ []) rest))),
      onward walk p.link p.allowed p.sums refl,
    )

    trace_settled :
        (vs : List ℕ)
        → IsRanked n links avoid hop origin_id destination_id universe s.previous vs
        → (fuel v : ℕ) (c : C) (rest : List ℕ) → length vs < fuel
        → contains v vs ≡ true
        → get v s.best ≡ some c
        → Traced fuel v c rest
    trace_settled [] ranked fuel v c rest h e k = cc
    trace_settled (x ∷ vs) ranked zero v c rest h e k = absurd (omega arith)
    trace_settled (x ∷ vs) ranked (suc fuel) v c rest h e k = elim (Bool-cases (v == origin_id)) [
      | inl root ↦ Traced-origin fuel v c rest ((==_iff v origin_id).0 root) k
      | inr inner ↦ elim (Bool-cases (x == v)) [
        | inr miss ↦ trace_settled vs ranked.1 (suc fuel) v c rest (omega arith) (rw miss at e) k
        | inl hit ↦
            let same = (==_iff x v).0 hit in
            elim (r.inv.parents v c k) [
              | inl root ↦ absurd (let x' = (==_iff v origin_id).1 root in cc)
              | inr p ↦ elim ranked.0 [
                | inl root ↦ absurd (let x' = (==_iff v origin_id).1 (sym same ∙ root) in cc)
                | inr (u, points, earlier) ↦
                    let both = sym p.points ∙ subst (λ y. get y s.previous ≡ some u) same points in
                    let from : u ≡ p.from = ground arith in
                    Traced-Parent fuel v c rest inner p (
                      trace_settled vs ranked.1 fuel p.from p.cost (v ∷ rest) (omega arith)
                        (subst (λ y. contains y vs ≡ true) from earlier) p.known)
              ]
            ]
      ]
    ]

    -- From a system with a cost, settled or not.
    pub trace_known :
        (v : ℕ) (c : C) → get v s.best ≡ some c → Traced (suc (suc (length s.settled))) v c []
    trace_known v c k = elim (Bool-cases (v == origin_id)) [
      | inl root ↦ Traced-origin (suc (length s.settled)) v c [] ((==_iff v origin_id).0 root) k
      | inr inner ↦ elim (r.inv.parents v c k) [
        | inl root ↦ absurd (let x = (==_iff v origin_id).1 root in cc)
        | inr p ↦ Traced-Parent (suc (length s.settled)) v c [] inner p (
            trace_settled s.settled r.inv.ranked (suc (length s.settled)) p.from p.cost (v ∷ [])
              (omega arith) p.settled p.known)
      ]
    ]

    -- The destination was picked: no walk to it is cheaper.
    pub picked_least :
        (c : C)
        → IsPick n links avoid hop origin_id destination_id universe ends s destination_id c
        → (d : C) (ids : List ℕ) → WalkTo destination_id d ids
        → Le n c d
    picked_least c p d ids w = elim (frontier destination_id d ids w) [
      | behind settled below ↦ absurd (let x = sym settled ∙ r.inv.unreached in cc)
      | waiting x e queued below ↦ Le_trans n c e d (p.least x e queued) below
      | endless below ↦ Le_trans n c _ d (n.infinity_greatest c) below
    ]

    pub get_empty : (q : List (ℕ × C)) (v : ℕ) → no_entry q ≡ true → get v q ≡ none
    unfolding get
    get_empty [] v h = refl
    get_empty (x ∷ q) v h = cc

    -- The queue is empty: no walk to the destination costs less than infinity.
    pub nothing_left :
        no_entry s.queue ≡ true
        → (d : C) (ids : List ℕ) → WalkTo destination_id d ids
        → Le n n.infinity d
    nothing_left e d ids w = elim (frontier destination_id d ids w) [
      | behind settled below ↦ absurd (let x = sym settled ∙ r.inv.unreached in cc)
      | waiting x c queued below ↦ absurd (let y = sym (get_empty s.queue x e) ∙ queued in cc)
      | endless below ↦ below
    ]
