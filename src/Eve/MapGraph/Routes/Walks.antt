-- ===== src/Eve/MapGraph/Routes/Walks.antt =====
-- Walks with their costs, and the pick of the cheapest entry.
use eveai.Base.{
  subst, ℕ, ◌≡◌, refl, sym, true, false, Option, some, List, [], ◌∷◌, ◌++◌, ◌==◌, ==_iff, arith,
  Bool-cases, ◌⊎◌, inl, inr, contains, get, has, IsKeyed, ap, ◌∙◌,
}
use eveai.Eve.MapGraph.Levels.{contains-snoc}
use eveai.Eve.MapGraph.Costs.{Numbers}
use eveai.Eve.MapGraph.Routes.{pick}

module _ {C : Type 0} (n : Numbers C) where
  -- `a ≤ b`
  abbrev pub Le : C → C → Type 0
  Le a b = n.lt b a ≡ false

  pub Le-refl : (a : C) → Le a a
  Le-refl a = elim (Bool-cases (n.lt a a)) [ inl e ↦ n.lt_asymm a a e | inr e ↦ e ]

  pub Le_trans : (a b c : C) → Le a b → Le b c → Le a c
  Le_trans a b c h k = n.ge_trans c b a k h

  pub Le-of_lt : (a b : C) → n.lt a b ≡ true → Le a b
  Le-of_lt a b h = n.lt_asymm a b h

  -- A walk from the origin, its cost as the search adds it up, and its systems. Only the origin
  -- may stand in the avoid list.
  pub data Walk (links : ℕ → List ℕ) (avoid : List ℕ) (hop : ℕ → C) (origin_id : ℕ)
      : ℕ → C → List ℕ → Type 0 where
    here :
        {v : ℕ} {c : C} {ids : List ℕ}
        → v ≡ origin_id
        → c ≡ n.zero
        → ids ≡ origin_id ∷ []
        → Walk links avoid hop origin_id v c ids
    onward :
        {u v : ℕ} {c d : C} {ids ids' : List ℕ}
        → Walk links avoid hop origin_id u c ids
        → contains v (links u) ≡ true
        → contains v avoid ≡ false
        → d ≡ n.add c (hop v)
        → ids' ≡ ids ++ v ∷ []
        → Walk links avoid hop origin_id v d ids'

  get-some-has : (k : ℕ) (d : C) (q : List (ℕ × C)) → get k q ≡ some d → has k q ≡ true
  unfolding get has
  get-some-has k d [] h = cc
  get-some-has k d ((i, c) ∷ q) h = ground (arith, get-some-has k d q)

  module _ (i : ℕ) (c : C) (q : List (ℕ × C)) (id : Option ℕ) (d : C) where
    pick_cheaper : n.lt c d ≡ true → pick n ((i, c) ∷ q) (id, d) ≡ pick n q (some i, c)
    unfolding pick
    pick_cheaper e = rw (e, pick) refl

    pick_dearer : n.lt c d ≡ false → pick n ((i, c) ∷ q) (id, d) ≡ pick n q (id, d)
    unfolding pick
    pick_dearer e = rw (e, pick) refl

  get_later :
      (i j : ℕ) (c d : C) (q : List (ℕ × C))
      → has i q ≡ false
      → get j q ≡ some d
      → get j ((i, c) ∷ q) ≡ some d
  unfolding get
  get_later i j c d q h e = elim (Bool-cases (i == j)) [
    | inl same ↦
        let known = get-some-has j d q e in
        let absent = rw ((==_iff i j).0 same) at h in
        absurd (let x : true ≡ false = sym known ∙ absent in cc)
    | inr apart ↦ rw apart e
  ]

  get_first : (i : ℕ) (c : C) (q : List (ℕ × C)) {d : C} → c ≡ d → get i ((i, c) ∷ q) ≡ some d
  unfolding get
  get_first i c q h = rw ((==_iff i i).1 refl) (ap some h)

  head_or :
      (i : ℕ) (c : C) (q : List (ℕ × C)) (b : C)
      → Le b c
      → ((v : ℕ) (d : C) → get v q ≡ some d → Le b d)
      → (v : ℕ) (d : C) → get v ((i, c) ∷ q) ≡ some d
      → Le b d
  unfolding get
  head_or i c q b h all v d e = elim (Bool-cases (i == v)) [
    | inl hit ↦ let same : c ≡ d = ground arith in rw (sym same) h
    | inr miss ↦ all v d (rw miss at e)
  ]

  -- The pick is the start or an entry.
  pub pick_entry :
      (q : List (ℕ × C)) (current : Option ℕ × C)
      → IsKeyed q
      → (pick n q current ≡ current)
        ⊎ ((id : ℕ) × ((pick n q current).0 ≡ some id) × (get id q ≡ some (pick n q current).1))
  unfolding pick
  pick_entry [] current h = inl refl
  pick_entry ((i, c) ∷ q) (id, d) h = elim (Bool-cases (n.lt c d)) [
    | inl e ↦ rw (pick_cheaper i c q id d e) (elim (pick_entry q (some i, c) h.1) [
      | inl same ↦ inr (i, ap (λ r. r.0) same, get_first i c q (ap (λ r. r.1) (sym same)))
      | inr (j, at_j, found) ↦ inr (j, at_j, get_later i j c _ q h.0 found)
    ])
    | inr e ↦ rw (pick_dearer i c q id d e) (elim (pick_entry q (id, d) h.1) [
      | inl same ↦ inl same
      | inr (j, at_j, found) ↦ inr (j, at_j, get_later i j c _ q h.0 found)
    ])
  ]

  -- Nothing is cheaper than the pick.
  pub pick_least :
      (q : List (ℕ × C)) (current : Option ℕ × C)
      → Le (pick n q current).1 current.1
        × ((v : ℕ) (d : C) → get v q ≡ some d → Le (pick n q current).1 d)
  unfolding pick get
  pick_least [] current = (Le-refl current.1, λ v d h. cc)
  pick_least ((i, c) ∷ q) (id, d) = elim (Bool-cases (n.lt c d)) [
    | inl e ↦
        let (below, all) = pick_least q (some i, c) in
        rw (pick_cheaper i c q id d e)
          (Le_trans _ c d below (Le-of_lt c d e), head_or i c q _ below all)
    | inr e ↦
        let (below, all) = pick_least q (id, d) in
        rw (pick_dearer i c q id d e) (below, head_or i c q _ (Le_trans _ d c below e) all)
  ]

-- A walk passes no system of the avoid list but the origin.
pub Walk-allowed :
    {C : Type 0} (n : Numbers C) (links : ℕ → List ℕ) (avoid : List ℕ) (hop : ℕ → C)
    (origin_id v : ℕ) (c : C) (ids : List ℕ) (x : ℕ)
    → Walk n links avoid hop origin_id v c ids
    → contains x ids ≡ true
    → (x ≡ origin_id) ⊎ (contains x avoid ≡ false)
Walk-allowed n links avoid hop origin_id v c ids x (here at_origin free alone) h =
    inl (sym ((==_iff origin_id x).0 (let one = rw alone at h in ground arith)))
Walk-allowed n links avoid hop origin_id v d path x
      (onward {u} {c} {ids} walk link allowed sums extends) h =
    elim (Bool-cases (contains x ids)) [
      | inl e ↦ Walk-allowed n links avoid hop origin_id u c ids x walk e
      | inr e ↦
          let all = rw (extends, contains-snoc x v ids, e) at h in
          inr (subst (λ y. contains y avoid ≡ false) ((==_iff v x).0 all) allowed)
    ]
