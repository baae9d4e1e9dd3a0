-- ===== src/Prelude/Pairs.antt =====
-- Derived `Eq` and `Ord` of pairs.
use mathlib.Core.Path.{◌≡◌}
use mathlib.Core.Logic.{◌↔◌}
use mathlib.Core.Bool.{Bool, true, false, ◌&&◌}
use native.Mathlib.Omega.{arith}
use jq_ble.Prelude.Tests.{if◌then◌else◌}
use jq_ble.Prelude.Keys.{Eq, Order, ◌==◌}

module _ {A B : Type 0} ⦃e : Eq A⦄ ⦃f : Eq B⦄ where
  abbrev pub pair_beq : A × B → A × B → Bool
  pair_beq (a, b) (c, d) = a == c && b == d

  pub pair_beq_iff : (p q : A × B) → (pair_beq p q ≡ true) ↔ (p ≡ q)
  pair_beq_iff (a, b) (c, d) = ground (arith, e.decides a c, f.decides b d)

  instance abbrev pub pair_eq : Eq (A × B)
  pair_eq = record { beq = pair_beq; decides = pair_beq_iff }

module _ {A B : Type 0} ⦃o : Order A⦄ ⦃p : Order B⦄ where
  abbrev pub pair_less : A × B → A × B → Bool
  pair_less (a, b) (c, d) = if o.less a c then true else if o.less c a then false else p.less b d

  pub pair_less_irrefl : (x : A × B) → pair_less x x ≡ false
  pair_less_irrefl (a, b) = ground (arith, o.less_irrefl a, p.less_irrefl b)

  pub pair_less_total : (x y : A × B) → pair_less x y ≡ false → pair_less y x ≡ false → x ≡ y
  pair_less_total (a, b) (c, d) h k = ground (arith, o.less_total a c, p.less_total b d)

  pub pair_less_trans :
      (x y z : A × B) → pair_less x y ≡ true → pair_less y z ≡ true → pair_less x z ≡ true
  pair_less_trans (a, b) (c, d) (e, f) h k = ground (
    arith,
    p.less_trans b d f,
    o.less_trans a c e,
    o.less_trans c e a,
    o.less_trans e a c,
    o.less_trans e c a,
    o.less_total a c,
    o.less_total c e,
    o.less_total a e,
    o.less_irrefl a,
    o.less_irrefl c,
  )

  instance abbrev pub pair_order : Order (A × B)
  pair_order = record {
    less = pair_less;
    less_irrefl = pair_less_irrefl;
    less_trans = pair_less_trans;
    less_total = pair_less_total;
  }
