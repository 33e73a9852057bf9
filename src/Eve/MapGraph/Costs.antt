-- ===== src/Eve/MapGraph/Costs.antt =====
-- The numbers that a route adds up: doubles that are zero or positive, infinity among them.
-- The laws are those of their comparison and of rounded addition, which is monotonic.
use eveai.Base.{◌≡◌, Bool, true, false, if◌then◌else◌}

pub record Numbers (C : Type 0) : Type 0 where
  pub zero : C
  pub one : C
  pub fifty : C
  pub infinity : C
  pub add : C → C → C
  pub mul : C → C → C
  pub lt : C → C → Bool
  pub lt_asymm : (a b : C) → lt a b ≡ true → lt b a ≡ false
  pub ge_trans : (a b c : C) → lt a b ≡ false → lt b c ≡ false → lt a c ≡ false
  pub zero_finite : lt zero infinity ≡ true
  pub zero_least : (a : C) → lt a zero ≡ false
  pub infinity_greatest : (a : C) → lt infinity a ≡ false
  pub add_grows : (a b : C) → lt (add a b) a ≡ false
  pub add_mono : (a b c : C) → lt a b ≡ false → lt (add a c) (add b c) ≡ false

-- A number of the caller, as `clamp01` reads it.
pub data Reading (C : Type 0) : Type 0 where
  not_finite : Reading C
  negative : Reading C
  at_least_zero : C → Reading C

module _ {C : Type 0} (n : Numbers C) where
  abbrev pub clamp01 : Reading C → C
  clamp01 not_finite = n.zero
  clamp01 negative = n.zero
  clamp01 (at_least_zero c) = if n.lt n.one c then n.one else c
