-- ===== src/Prelude/Maps.antt =====
-- `BTreeMap` and `BTreeSet`: association lists in the order of their keys.
use mathlib.Core.Path.{◌≡◌, refl, sym, ap, subst}
use mathlib.Core.Bool.{Bool, true, false}
use mathlib.Core.Option.{Option, none, some}
use mathlib.Core.List.{List, [], ◌∷◌}
use native.Mathlib.Omega.{arith}
use mathlib.Core.Logic.{inl, inr}
use jq_ble.Prelude.Tests.{Bool-cases, if◌then◌else◌, is_some}
use jq_ble.Prelude.Keys.{Eq, Order, ◌==◌}

abbrev pub Map {ℓ κ} : Type ℓ → Type κ → Type (ℓ ⊔ κ)
Map K V = List (K × V)

module _ {ℓ} {K : Type ℓ} ⦃e : Eq K⦄ ⦃o : Order K⦄ where
  less_of_not : (j k : K) → (j == k) ≡ false → o.less k j ≡ false → o.less j k ≡ true
  less_of_not j k differ after = elim (Bool-cases (o.less j k)) [
    | inl before ↦ before
    | inr not_before ↦ cc ((e.decides j k).1 (o.less_total j k not_before after))
  ]

module _ {ℓ κ} {K : Type ℓ} {V : Type κ} ⦃e : Eq K⦄ ⦃o : Order K⦄ where
  -- `get`; `contains_key` is `has`.
  unfoldable pub get : K → Map K V → Option V
  get k [] = none
  get k ((j, v) ∷ m) = let rest = get k m in if j == k then some v else rest

  abbrev pub has : K → Map K V → Bool
  has k m = is_some (get k m)

  unfoldable pub insert : K → V → Map K V → Map K V
  insert k v [] = (k, v) ∷ []
  insert k v ((j, w) ∷ m) =
      let rest = insert k v m in
      if j == k then (k, v) ∷ m else if o.less k j then (k, v) ∷ (j, w) ∷ m else (j, w) ∷ rest

  unfoldable pub remove : K → Map K V → Map K V
  remove k [] = []
  remove k ((j, v) ∷ m) = let rest = remove k m in if j == k then rest else (j, v) ∷ rest

  abbrev pub values : Map K V → List V
  values [] = []
  values ((j, v) ∷ m) = v ∷ values m

  abbrev pub keys : Map K V → List K
  keys [] = []
  keys ((j, v) ∷ m) = j ∷ keys m

  -- `BTreeMap::retain`.
  unfoldable pub retain_entries : (K → V → Bool) → Map K V → Map K V
  retain_entries p [] = []
  retain_entries p ((j, v) ∷ m) =
      let rest = retain_entries p m in if p j v then (j, v) ∷ rest else rest

  pub get-insert :
      (k j : K) (v : V) (m : Map K V) → get j (insert k v m) ≡ (if k == j then some v else get j m)
  unfolding get insert
  get-insert k j v [] = refl
  get-insert k j v ((i, w) ∷ m) =
      ground (arith, e.decides k j, e.decides i k, e.decides i j, get-insert k j v m)

  pub get-remove : (k j : K) (m : Map K V) → get j (remove k m) ≡ (if k == j then none else get j m)
  unfolding get remove
  get-remove k j [] = ground arith
  get-remove k j ((i, w) ∷ m) =
      ground (arith, e.decides k j, e.decides i k, e.decides i j, get-remove k j m)

  -- Every key of `m` lies above `k`.
  abbrev pub Above : K → Map K V → Type 0
  Above k [] = Unit
  Above k ((j, v) ∷ m) = (o.less k j ≡ true) × Above k m

  -- The keys ascend strictly, so that no key stands twice.
  abbrev pub IsSorted : Map K V → Type 0
  IsSorted [] = Unit
  IsSorted ((j, v) ∷ m) = Above j m × IsSorted m

  Above-trans : (i j : K) (m : Map K V) → o.less i j ≡ true → Above j m → Above i m
  Above-trans i j [] h a = tt
  Above-trans i j ((k, v) ∷ m) h a = (o.less_trans i j k h a.0, Above-trans i j m h a.1)

  insert-Above :
      (i k : K) (v : V) (m : Map K V) → o.less i k ≡ true → Above i m → Above i (insert k v m)
  unfolding insert
  insert-Above i k v [] h a = (h, tt)
  insert-Above i k v ((j, w) ∷ m) h a = elim (Bool-cases (j == k)) [
    | inl same ↦ rw same (h, a.1)
    | inr differ ↦ rw differ (elim (Bool-cases (o.less k j)) [
      | inl before ↦ rw before (h, (a.0, a.1))
      | inr after ↦ rw after (a.0, insert-Above i k v m h a.1)
    ])
  ]

  pub insert-IsSorted : (k : K) (v : V) (m : Map K V) → IsSorted m → IsSorted (insert k v m)
  unfolding insert
  insert-IsSorted k v [] s = (tt, tt)
  insert-IsSorted k v ((j, w) ∷ m) s = elim (Bool-cases (j == k)) [
    | inl same ↦ rw same (subst (λ i. Above i m) ((e.decides j k).0 same) s.0, s.1)
    | inr differ ↦ rw differ (elim (Bool-cases (o.less k j)) [
      | inl before ↦ rw before ((before, Above-trans k j m before s.0), (s.0, s.1))
      | inr after ↦
          rw after
            (insert-Above j k v m (less_of_not j k differ after) s.0, insert-IsSorted k v m s.1)
    ])
  ]

  retain_entries-Above :
      (p : K → V → Bool) (i : K) (m : Map K V) → Above i m → Above i (retain_entries p m)
  unfolding retain_entries
  retain_entries-Above p i [] a = tt
  retain_entries-Above p i ((j, v) ∷ m) a = elim (Bool-cases (p j v)) [
    | inl kept ↦ rw kept (a.0, retain_entries-Above p i m a.1)
    | inr gone ↦ rw gone (retain_entries-Above p i m a.1)
  ]

  pub retain_entries-IsSorted :
      (p : K → V → Bool) (m : Map K V) → IsSorted m → IsSorted (retain_entries p m)
  unfolding retain_entries
  retain_entries-IsSorted p [] s = tt
  retain_entries-IsSorted p ((j, v) ∷ m) s = elim (Bool-cases (p j v)) [
    | inl kept ↦ rw kept (retain_entries-Above p j m s.0, retain_entries-IsSorted p m s.1)
    | inr gone ↦ rw gone (retain_entries-IsSorted p m s.1)
  ]

  remove-Above : (i k : K) (m : Map K V) → Above i m → Above i (remove k m)
  unfolding remove
  remove-Above i k [] a = tt
  remove-Above i k ((j, v) ∷ m) a = elim (Bool-cases (j == k)) [
    | inl same ↦ rw same (remove-Above i k m a.1)
    | inr differ ↦ rw differ (a.0, remove-Above i k m a.1)
  ]

  pub remove-IsSorted : (k : K) (m : Map K V) → IsSorted m → IsSorted (remove k m)
  unfolding remove
  remove-IsSorted k [] s = tt
  remove-IsSorted k ((j, v) ∷ m) s = elim (Bool-cases (j == k)) [
    | inl same ↦ rw same (remove-IsSorted k m s.1)
    | inr differ ↦ rw differ (remove-Above j k m s.0, remove-IsSorted k m s.1)
  ]

  -- A key below all the others is not in the map.
  get_below : (k : K) (m : Map K V) → Above k m → get k m ≡ none
  unfolding get
  get_below k [] a = refl
  get_below k ((j, v) ∷ m) a = elim (Bool-cases (j == k)) [
    | inl same ↦
        let h : o.less k k ≡ true = subst (λ i. o.less k i ≡ true) ((e.decides j k).0 same) a.0 in
        cc (o.less_irrefl k)
    | inr differ ↦ rw differ (get_below k m a.1)
  ]

  -- `retain` keeps the entries that pass.
  pub get-retain_entries :
      (p : K → V → Bool) (k : K) (m : Map K V)
      → IsSorted m
      → get k (retain_entries p m)
        ≡ elim (get k m) [ none ↦ none | some v ↦ if p k v then some v else none ]
  unfolding get retain_entries
  get-retain_entries p k [] s = refl
  get-retain_entries p k ((j, v) ∷ m) s = elim (Bool-cases (j == k)) [
    | inl same ↦ elim (Bool-cases (p j v)) [
      | inl kept ↦ rw (kept, same) (rw (subst (λ i. p i v ≡ true) ((e.decides j k).0 same) kept))
      | inr gone ↦
          rw (gone, same, subst (λ i. p i v ≡ false) ((e.decides j k).0 same) gone)
            (get_below k (retain_entries p m)
              (retain_entries-Above p k m (subst (λ i. Above i m) ((e.decides j k).0 same) s.0)))
    ]
    | inr differ ↦ elim (Bool-cases (p j v)) [
      | inl kept ↦ rw (kept, differ) (get-retain_entries p k m s.1)
      | inr gone ↦ rw (gone, differ) (get-retain_entries p k m s.1)
    ]
  ]

  -- An entry that stands already is not moved.
  pub insert_same : (k : K) (v : V) (m : Map K V) → IsSorted m → get k m ≡ some v → insert k v m ≡ m
  unfolding get insert
  insert_same k v [] s h = ground (arith, h)
  insert_same k v ((j, w) ∷ m) s h = elim (Bool-cases (j == k)) [
    | inl same ↦
        let there : w ≡ v = cc (rw same at h) in
        rw same (rw (sym there, sym ((e.decides j k).0 same)) refl)
    | inr differ ↦ elim (Bool-cases (o.less k j)) [
      | inl before ↦ absurd (cc (rw differ at h, get_below k m (Above-trans k j m before s.0)))
      | inr after ↦
          rw (differ, after)
            (ap (λ (rest : Map K V). (j, w) ∷ rest) (insert_same k v m s.1 (rw differ at h)))
    ]
  ]
