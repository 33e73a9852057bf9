-- ===== src/Eve/MapGraph/SmallMap.antt =====
-- A small map and numbers to try map-graph.ts on.
use eveai.Base.{
  ℕ, ◌+◌, ◌*◌, ◌≡◌, refl, Bool, true, false, Option, none, some, [], ◌∷◌, ℤ, pos, negsuc, ltb,
  arith,
}
use eveai.Eve.MapGraph.{MapSystem, GraphCache, load_graph}
use eveai.Eve.MapGraph.Costs.{Numbers}

-- Natural numbers with infinity, as the numbers of a route.
abbrev plus : Option ℕ → Option ℕ → Option ℕ
plus (some a) (some b) = some (a + b)
plus _ _ = none

abbrev times : Option ℕ → Option ℕ → Option ℕ
times (some a) (some b) = some (a * b)
times _ _ = none

abbrev below : Option ℕ → Option ℕ → Bool
below (some a) (some b) = ltb a b
below (some a) none = true
below none _ = false

pub below_asymm : (a b : Option ℕ) → below a b ≡ true → below b a ≡ false
below_asymm none b h = cc
below_asymm (some a) none h = refl
below_asymm (some a) (some b) h = ground arith

pub below_ge_trans : (a b c : Option ℕ) → below a b ≡ false → below b c ≡ false → below a c ≡ false
below_ge_trans none b c h k = refl
below_ge_trans (some a) none c h k = cc
below_ge_trans (some a) (some b) none h k = cc
below_ge_trans (some a) (some b) (some c) h k = ground arith

pub plus_grows : (a b : Option ℕ) → below (plus a b) a ≡ false
plus_grows none b = refl
plus_grows (some a) none = refl
plus_grows (some a) (some b) = ground arith

pub plus_mono : (a b c : Option ℕ) → below a b ≡ false → below (plus a c) (plus b c) ≡ false
plus_mono none b c h = refl
plus_mono (some a) none c h = cc
plus_mono (some a) (some b) none h = refl
plus_mono (some a) (some b) (some c) h = ground arith

pub zero_lowest : (a : Option ℕ) → below a (some 0) ≡ false
zero_lowest none = refl
zero_lowest (some a) = ground arith

abbrev pub numbers : Numbers (Option ℕ)
numbers = record {
  zero = some 0;
  one = some 1;
  fifty = some 50;
  infinity = none;
  add = plus;
  mul = times;
  lt = below;
  lt_asymm = below_asymm;
  ge_trans = below_ge_trans;
  zero_finite = refl;
  zero_least = zero_lowest;
  infinity_greatest = λ a. refl;
  add_grows = plus_grows;
  add_mono = plus_mono;
}

abbrev pub a_system : ℕ → ℤ → MapSystem
a_system id security = record {
  system_id = id;
  name = "system";
  constellation_id = none;
  region_id = some 7;
  region_name = some "region";
  security = security;
  security_class = none;
  wh_class = none;
}

-- A direct link from 1 to 3 through low security, a way round over 2, and an island.
abbrev pub small_map : GraphCache
small_map =
    load_graph
      (a_system 1 (pos 90)
        ∷ a_system 2 (pos 70)
        ∷ a_system 3 (pos 50)
        ∷ a_system 4 (negsuc 9)
        ∷ a_system 9 (pos 0)
        ∷ [])
      ((1, 4) ∷ (4, 1) ∷ (4, 3) ∷ (3, 4) ∷ (1, 2) ∷ (2, 1) ∷ (2, 8) ∷ (8, 3) ∷ [])
