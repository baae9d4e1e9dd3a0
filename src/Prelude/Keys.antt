-- ===== src/Prelude/Keys.antt =====
-- Equality tests and orders of keys, as instances: Rust's `Eq` and `Ord`.
use Prim.Native.Nat.{ℕ}
use mathlib.Core.Path.{◌≡◌, refl}
use mathlib.Core.Logic.{◌↔◌}
use mathlib.Core.Bool.{Bool, true, false, ◌&&◌}
use mathlib.Core.Option.{Option, none, some}
use mathlib.Core.List.{List, [], ◌∷◌}
use native.Mathlib.Omega.{arith}
use jq_ble.Prelude.Tests.{nat_beq, nat_beq_iff, ltb, if◌then◌else◌}

pub record Eq {ℓ} (A : Type ℓ) : Type ℓ where
  pub beq : A → A → Bool
  pub decides : (a b : A) → (beq a b ≡ true) ↔ (a ≡ b)

-- The operators of `PartialEq`.
infix 50 ◌==◌
abbrev pub ◌==◌ {κ} : {K : Type κ} ⦃d : Eq K⦄ → K → K → Bool
◌==◌ ⦃d⦄ j k = d.beq j k

module _ {ℓ} {A : Type ℓ} ⦃e : Eq A⦄ where
  abbrev pub list_beq : List A → List A → Bool
  list_beq [] [] = true
  list_beq [] (y ∷ ys) = false
  list_beq (x ∷ xs) [] = false
  list_beq (x ∷ xs) (y ∷ ys) = x == y && list_beq xs ys

  pub list_beq_iff : (xs ys : List A) → (list_beq xs ys ≡ true) ↔ (xs ≡ ys)
  list_beq_iff [] [] = ground arith
  list_beq_iff [] (y ∷ ys) = ground arith
  list_beq_iff (x ∷ xs) [] = ground arith
  list_beq_iff (x ∷ xs) (y ∷ ys) = ground (arith, e.decides x y, list_beq_iff xs ys)

  abbrev pub option_beq : Option A → Option A → Bool
  option_beq none none = true
  option_beq none (some y) = false
  option_beq (some x) none = false
  option_beq (some x) (some y) = x == y

  pub option_beq_iff : (a b : Option A) → (option_beq a b ≡ true) ↔ (a ≡ b)
  option_beq_iff none none = ground arith
  option_beq_iff none (some y) = ground arith
  option_beq_iff (some x) none = ground arith
  option_beq_iff (some x) (some y) = ground (arith, e.decides x y)

  unfoldable pub contains : List A → A → Bool
  contains [] a = false
  contains (x ∷ xs) a = let rest = contains xs a in if x == a then true else rest

  pub beq_refl : (a : A) → (a == a) ≡ true
  beq_refl a = (e.decides a a).1 refl

instance abbrev pub nat_eq : Eq ℕ
nat_eq = record { beq = nat_beq; decides = nat_beq_iff }

instance abbrev pub list_eq {ℓ} : {A : Type ℓ} ⦃e : Eq A⦄ → Eq (List A)
list_eq = record { beq = list_beq; decides = list_beq_iff }

instance abbrev pub option_eq {ℓ} : {A : Type ℓ} ⦃e : Eq A⦄ → Eq (Option A)
option_eq = record { beq = option_beq; decides = option_beq_iff }

-- A strict order: what a `BTreeMap` asks of its keys.
pub record Order {ℓ} (A : Type ℓ) : Type ℓ where
  pub less : A → A → Bool
  pub less_irrefl : (a : A) → less a a ≡ false
  pub less_trans : (a b c : A) → less a b ≡ true → less b c ≡ true → less a c ≡ true
  pub less_total : (a b : A) → less a b ≡ false → less b a ≡ false → a ≡ b

pub ltb_irrefl : (a : ℕ) → ltb a a ≡ false
ltb_irrefl a = ground arith

pub ltb_trans : (a b c : ℕ) → ltb a b ≡ true → ltb b c ≡ true → ltb a c ≡ true
ltb_trans a b c h k = ground arith

pub ltb_total : (a b : ℕ) → ltb a b ≡ false → ltb b a ≡ false → a ≡ b
ltb_total a b h k = ground arith

instance abbrev pub nat_order : Order ℕ
nat_order = record {
  less = ltb;
  less_irrefl = ltb_irrefl;
  less_trans = ltb_trans;
  less_total = ltb_total;
}

module _ {ℓ} {A : Type ℓ} ⦃o : Order A⦄ where
  -- Lexicographic, as for slices and arrays.
  abbrev pub list_less : List A → List A → Bool
  list_less [] [] = false
  list_less [] (y ∷ ys) = true
  list_less (x ∷ xs) [] = false
  list_less (x ∷ xs) (y ∷ ys) =
      let rest = list_less xs ys in if o.less x y then true else if o.less y x then false else rest

  pub list_less_irrefl : (xs : List A) → list_less xs xs ≡ false
  list_less_irrefl [] = refl
  list_less_irrefl (x ∷ xs) = ground (arith, o.less_irrefl x, list_less_irrefl xs)

  pub list_less_total :
      (xs ys : List A) → list_less xs ys ≡ false → list_less ys xs ≡ false → xs ≡ ys
  list_less_total [] [] h k = refl
  list_less_total [] (y ∷ ys) h k = cc
  list_less_total (x ∷ xs) [] h k = cc
  list_less_total (x ∷ xs) (y ∷ ys) h k = ground (arith, o.less_total x y, list_less_total xs ys)

  pub list_less_trans :
      (xs ys zs : List A) → list_less xs ys ≡ true → list_less ys zs ≡ true → list_less xs zs ≡ true
  list_less_trans [] [] zs h k = cc
  list_less_trans [] (y ∷ ys) [] h k = cc
  list_less_trans [] (y ∷ ys) (z ∷ zs) h k = refl
  list_less_trans (x ∷ xs) [] zs h k = cc
  list_less_trans (x ∷ xs) (y ∷ ys) [] h k = cc
  list_less_trans (x ∷ xs) (y ∷ ys) (z ∷ zs) h k = ground (
    arith,
    list_less_trans xs ys zs,
    o.less_trans x y z,
    o.less_trans y z x,
    o.less_trans z x y,
    o.less_trans z y x,
    o.less_total x y,
    o.less_total y z,
    o.less_total x z,
    o.less_irrefl x,
    o.less_irrefl y,
  )

instance abbrev pub list_order {ℓ} : {A : Type ℓ} ⦃o : Order A⦄ → Order (List A)
list_order = record {
  less = list_less;
  less_irrefl = list_less_irrefl;
  less_trans = list_less_trans;
  less_total = list_less_total;
}
