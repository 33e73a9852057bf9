-- ===== src/Eve/MapGraph/Rings.antt =====
-- One ring of `bubbleFrom`: what it adds to the distances, and what taking it back leaves.
use eveai.Base.{
  ℕ, ◌≡◌, refl, sym, Bool, true, false, not, ◌&&◌, ◌||◌, some, List, [], ◌∷◌, ◌++◌, map, ◌==◌,
  ==_iff, contains, Bool-cases, inl, inr, arith, if◌then◌else◌, get, has, put, remove, IsKeyed,
  get-put, has-put, put-IsKeyed, remove-IsKeyed,
}
use mathlib.Core.List.{append-nil, append_assoc}
use eveai.Eve.MapGraph.{Adjacency, neighbours, ring_neighbours, ring, remove_all}
use eveai.Eve.MapGraph.Levels.{candidates, contains-snoc}

abbrev pub tagged : ℕ → List ℕ → List (ℕ × ℕ)
tagged depth ks = map (λ k. (k, depth)) ks

abbrev old_or : Bool → List ℕ → ℕ → List ℕ
old_or old next n = if old then next else next ++ n ∷ []

ring_neighbours-append :
    (depth : ℕ) (xs ys : List ℕ) (d : List (ℕ × ℕ)) (next : List ℕ)
    → ring_neighbours depth (xs ++ ys) d next
      ≡ ring_neighbours depth ys
          (ring_neighbours depth xs d next).0
          (ring_neighbours depth xs d next).1
unfolding ring_neighbours
ring_neighbours-append depth [] ys d next = refl
ring_neighbours-append depth (x ∷ xs) ys d next =
    let old = has x d in
    ring_neighbours-append depth xs ys (if old then d else put x depth d) (old_or old next x)

pub ring-candidates :
    (depth : ℕ) (a : Adjacency) (us : List ℕ) (d : List (ℕ × ℕ)) (next : List ℕ)
    → ring depth a us d next ≡ ring_neighbours depth (candidates a us) d next
unfolding ring candidates
ring-candidates depth a [] d next = refl
ring-candidates depth a (u ∷ us) d next =
    rw (ring_neighbours-append depth (neighbours a u) (candidates a us) d next) (
      ring-candidates depth a us (ring_neighbours depth (neighbours a u) d next).0
        (ring_neighbours depth (neighbours a u) d next).1)

module _ (depth n : ℕ) (ns : List ℕ) (d : List (ℕ × ℕ)) (next : List ℕ) where
  ring_old :
      has n d ≡ true → ring_neighbours depth (n ∷ ns) d next ≡ ring_neighbours depth ns d next
  unfolding ring_neighbours
  ring_old e = rw (e, ring_neighbours) refl

  ring_new :
      has n d ≡ false
      → ring_neighbours depth (n ∷ ns) d next
        ≡ ring_neighbours depth ns (put n depth d) (next ++ n ∷ [])
  unfolding ring_neighbours
  ring_new e = rw (e, ring_neighbours) refl

same_has : (n v : ℕ) (m : List (ℕ × ℕ)) → (n == v) ≡ true → has v m ≡ has n m
same_has n v m h = rw ((==_iff n v).0 h) refl

module _ (depth v : ℕ) where
  pub has-ring :
      (ns : List ℕ) (d : List (ℕ × ℕ)) (next : List ℕ)
      → has v (ring_neighbours depth ns d next).0 ≡ (has v d || contains v ns)
  unfolding ring_neighbours
  has-ring [] d next = ground arith
  has-ring (n ∷ ns) d next = elim (Bool-cases (has n d)) [
    | inl old ↦
        let same = same_has n v d in
        rw (ring_old depth n ns d next old) (ground (arith, has-ring ns d next))
    | inr new ↦
        rw (ring_new depth n ns d next new)
          (ground (arith, has-ring ns (put n depth d) (next ++ n ∷ []), has-put n v depth d))
  ]

  pub contains-ring :
      (ns : List ℕ) (d : List (ℕ × ℕ)) (next : List ℕ)
      → contains v (ring_neighbours depth ns d next).1
        ≡ (contains v next || not (has v d) && contains v ns)
  unfolding ring_neighbours
  contains-ring [] d next = ground arith
  contains-ring (n ∷ ns) d next = elim (Bool-cases (has n d)) [
    | inl old ↦
        let same = same_has n v d in
        rw (ring_old depth n ns d next old) (ground (arith, contains-ring ns d next))
    | inr new ↦
        let same = same_has n v d in
        rw (ring_new depth n ns d next new) (
          ground (
            arith,
            contains-ring ns (put n depth d) (next ++ n ∷ []),
            has-put n v depth d,
            contains-snoc v n next,
          ))
  ]

  pub get-ring :
      (ns : List ℕ) (d : List (ℕ × ℕ)) (next : List ℕ)
      → get v (ring_neighbours depth ns d next).0
        ≡ (if has v d then get v d else if contains v ns then some depth else get v d)
  unfolding ring_neighbours
  get-ring [] d next = ground arith
  get-ring (n ∷ ns) d next = elim (Bool-cases (has n d)) [
    | inl old ↦
        let same = same_has n v d in
        rw (ring_old depth n ns d next old) (ground (arith, get-ring ns d next))
    | inr new ↦
        let same = same_has n v d in
        rw (ring_new depth n ns d next new) (
          ground (
            arith,
            get-ring ns (put n depth d) (next ++ n ∷ []),
            has-put n v depth d,
            get-put n v depth d,
          ))
  ]

put_absent : (k w : ℕ) (m : List (ℕ × ℕ)) → has k m ≡ false → put k w m ≡ m ++ (k, w) ∷ []
unfolding put has
put_absent k w [] h = refl
put_absent k w ((i, x) ∷ m) h = ground (arith, put_absent k w m)

-- The ring appends its systems to the distances and to the next frontier.
pub ring_appends :
    (depth : ℕ) (ns : List ℕ) (d : List (ℕ × ℕ)) (next : List ℕ)
    → (new : List ℕ) × ((ring_neighbours depth ns d next).0 ≡ d ++ tagged depth new)
      × ((ring_neighbours depth ns d next).1 ≡ next ++ new)
unfolding ring_neighbours
ring_appends depth [] d next = ([], sym (append-nil d), sym (append-nil next))
ring_appends depth (n ∷ ns) d next = elim (Bool-cases (has n d)) [
  | inl old ↦ rw (ring_old depth n ns d next old) (ring_appends depth ns d next)
  | inr fresh ↦
      let (new, distances, frontier) = ring_appends depth ns (put n depth d) (next ++ n ∷ []) in
      (
        n ∷ new,
        rw (ring_new depth n ns d next fresh, distances, put_absent n depth d fresh)
            (append_assoc d _ _),
        rw (ring_new depth n ns d next fresh, frontier) (append_assoc next _ _),
      )
]

pub ring-IsKeyed :
    (depth : ℕ) (ns : List ℕ) (d : List (ℕ × ℕ)) (next : List ℕ)
    → IsKeyed d
    → IsKeyed (ring_neighbours depth ns d next).0
unfolding ring_neighbours
ring-IsKeyed depth [] d next h = h
ring-IsKeyed depth (n ∷ ns) d next h = elim (Bool-cases (has n d)) [
  | inl old ↦ rw (ring_old depth n ns d next old) (ring-IsKeyed depth ns d next h)
  | inr fresh ↦
      rw (ring_new depth n ns d next fresh)
        (ring-IsKeyed depth ns (put n depth d) _ (put-IsKeyed n depth d h))
]

remove_absent : (k : ℕ) (m : List (ℕ × ℕ)) → has k m ≡ false → remove k m ≡ m
unfolding remove has
remove_absent k [] h = refl
remove_absent k ((i, x) ∷ m) h = ground (arith, remove_absent k m)

has-append : (k : ℕ) (m n : List (ℕ × ℕ)) → has k (m ++ n) ≡ (has k m || has k n)
unfolding has
has-append k [] n = refl
has-append k ((i, x) ∷ m) n = ground (arith, has-append k m n)

remove_middle :
    (k w : ℕ) (d rest : List (ℕ × ℕ))
    → IsKeyed (d ++ (k, w) ∷ rest)
    → remove k (d ++ (k, w) ∷ rest) ≡ d ++ rest
unfolding remove has
remove_middle k w [] rest h = rw ((==_iff k k).1 refl) (remove_absent k rest h.0)
remove_middle k w ((i, x) ∷ d) rest h =
    let apart = has-append i d ((k, w) ∷ rest) in ground (arith, remove_middle k w d rest)

-- Taking the ring back leaves the distances as they were.
pub remove_all-tagged :
    (depth : ℕ) (ks : List ℕ) (d : List (ℕ × ℕ))
    → IsKeyed (d ++ tagged depth ks)
    → remove_all ks (d ++ tagged depth ks) ≡ d
unfolding remove_all
remove_all-tagged depth [] d h = append-nil d
remove_all-tagged depth (k ∷ ks) d h =
    let gone = remove_middle k depth d (tagged depth ks) h in
    rw gone (remove_all-tagged depth ks d (rw gone at (remove-IsKeyed k _ h)))
