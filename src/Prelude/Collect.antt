-- ===== src/Prelude/Collect.antt =====
-- The loop that fills a `BTreeMap` from a vector, `insert(key, x).is_some()` being an error.
use mathlib.Core.Path.{◌≡◌, refl, sym, ◌∙◌}
use mathlib.Core.Bool.{Bool, true, false}
use mathlib.Core.Option.{Option}
use mathlib.Core.List.{List, [], ◌∷◌}
use mathlib.Core.Logic.{◌⊎◌, inl, inr}
use native.Mathlib.Omega.{arith}
use jq_ble.Prelude.Tests.{Bool-cases, is_some}
use jq_ble.Prelude.Lists.{any, find, or_else, All, Member}
use jq_ble.Prelude.Keys.{Eq, Order, ◌==◌, beq_refl}
use jq_ble.Prelude.Maps.{Map, get, has, insert, get-insert}
use jq_ble.Prelude.Results.{Result, ok, err, Result-cases}

module _ {K A E : Type 0} ⦃e : Eq K⦄ ⦃o : Order K⦄ (key : A → K) (check : A → Result E (Unit {0}))
    (duplicate : K → E) where
  unfoldable pub collect_into : Map K A → List A → Result E (Map K A)
  collect_into m [] = ok m
  collect_into m (x ∷ xs) = elim (check x) [
    | err reason ↦ err reason
    | ok _ ↦ elim (has (key x) m) [
      | true ↦ err (duplicate (key x))
      | false ↦ collect_into (insert (key x) x m) xs
    ]
  ]

module _ {K A : Type 0} ⦃e : Eq K⦄ (key : A → K) where
  abbrev pub declared : List A → K → Bool
  declared xs k = any (λ x. key x == k) xs

  abbrev pub declaration : List A → K → Option A
  declaration xs k = find (λ x. key x == k) xs

  abbrev pub HasDistinctKeys : List A → Type 0
  HasDistinctKeys [] = Unit
  HasDistinctKeys (x ∷ xs) = (declared xs (key x) ≡ false) × HasDistinctKeys xs

  -- Two of the elements have this key.
  abbrev pub Twice : List A → K → Type 0
  Twice [] k = ⊥
  Twice (x ∷ xs) k = ((key x ≡ k) × (declared xs k ≡ true)) ⊎ Twice xs k

  pub is_some-declaration : (xs : List A) (k : K) → is_some (declaration xs k) ≡ declared xs k
  is_some-declaration [] k = refl
  is_some-declaration (x ∷ xs) k = ground (arith, is_some-declaration xs k)

module _ {K A E : Type 0} ⦃e : Eq K⦄ ⦃o : Order K⦄ (key : A → K) (check : A → Result E (Unit {0}))
    (duplicate : K → E) where
  pub record Collected (m : Map K A) (xs : List A) (m' : Map K A) : Type 0 where
    pub checked : All (λ x. check x ≡ ok tt) xs
    pub fresh : All (λ x. has (key x) m ≡ false) xs
    pub distinct : HasDistinctKeys key xs
    pub contents : (k : K) → get k m' ≡ or_else (get k m) (declaration key xs k)

  fresh_after :
      (m : Map K A) (x : A) (xs : List A)
      → All (λ y. has (key y) (insert (key x) x m) ≡ false) xs
      → (declared key xs (key x) ≡ false) × All (λ y. has (key y) m ≡ false) xs
  fresh_after m x [] h = (refl, tt)
  fresh_after m x (y ∷ ys) h =
      let later = fresh_after m x ys h.1 in
      let here = h.0 in
      ground (
        arith,
        here,
        later,
        get-insert (key x) (key y) x m,
        e.decides (key x) (key y),
        e.decides (key y) (key x),
      )

  module _ (m : Map K A) (x : A) (xs : List A) where
    collect_step :
        check x ≡ ok tt
        → has (key x) m ≡ false
        → collect_into key check duplicate m (x ∷ xs)
          ≡ collect_into key check duplicate (insert (key x) x m) xs
    unfolding collect_into
    collect_step passed absent = rw (passed, collect_into) (rw (absent, collect_into) refl)

    collect_failed :
        (reason : E)
        → check x ≡ err reason
        → collect_into key check duplicate m (x ∷ xs) ≡ err reason
    unfolding collect_into
    collect_failed reason failed = rw (failed, collect_into) refl

    collect_doubled :
        check x ≡ ok tt
        → has (key x) m ≡ true
        → collect_into key check duplicate m (x ∷ xs) ≡ err (duplicate (key x))
    unfolding collect_into
    collect_doubled passed present = rw (passed, collect_into) (rw (present, collect_into) refl)

    contents_step :
        (k : K) (m' : Map K A)
        → has (key x) m ≡ false
        → get k m' ≡ or_else (get k (insert (key x) x m)) (declaration key xs k)
        → get k m' ≡ or_else (get k m) (declaration key (x ∷ xs) k)
    contents_step k m' absent later =
        ground (arith, later, absent, get-insert (key x) k x m, e.decides (key x) k)

  collect_into_sound :
      (m : Map K A) (xs : List A) (m' : Map K A)
      → collect_into key check duplicate m xs ≡ ok m'
      → Collected m xs m'
  unfolding collect_into
  collect_into_sound m [] m' h = record {
    checked = tt;
    fresh = tt;
    distinct = tt;
    contents = λ k. ground (arith, h);
  }
  collect_into_sound m (x ∷ xs) m' h = elim (Result-cases (check x)) [
    | inl (reason, failed) ↦ cc (collect_failed m x xs reason failed, h)
    | inr (done, passed) ↦ elim (Bool-cases (has (key x) m)) [
      | inl present ↦ cc (collect_doubled m x xs passed present, h)
      | inr absent ↦
          let later =
            collect_into_sound (insert (key x) x m) xs m'
              (sym (collect_step m x xs passed absent) ∙ h) in
          let (alone, others) = fresh_after m x xs later.fresh in
          record {
            checked = (passed, later.checked);
            fresh = (absent, others);
            distinct = (alone, later.distinct);
            contents = λ k. contents_step m x xs k m' absent (later.contents k);
          }
    ]
  ]

  fresh_before :
      (m : Map K A) (x : A) (xs : List A)
      → declared key xs (key x) ≡ false
      → All (λ y. has (key y) m ≡ false) xs
      → All (λ y. has (key y) (insert (key x) x m) ≡ false) xs
  fresh_before m x [] alone others = tt
  fresh_before m x (y ∷ ys) alone others =
      let here = others.0 in
      let rest : declared key ys (key x) ≡ false = ground (arith, alone) in
      (
        ground (
          arith,
          alone,
          here,
          get-insert (key x) (key y) x m,
          e.decides (key x) (key y),
          e.decides (key y) (key x),
        ),
        fresh_before m x ys rest others.1,
      )

  collect_into_complete :
      (m : Map K A) (xs : List A)
      → All (λ x. check x ≡ ok tt) xs
      → All (λ x. has (key x) m ≡ false) xs
      → HasDistinctKeys key xs
      → (m' : Map K A) × (collect_into key check duplicate m xs ≡ ok m')
  unfolding collect_into
  collect_into_complete m [] checked fresh distinct = (m, refl)
  collect_into_complete m (x ∷ xs) checked fresh distinct =
      let (m', done) =
        collect_into_complete (insert (key x) x m) xs checked.1
          (fresh_before m x xs distinct.0 fresh.1) distinct.1 in
      (m', collect_step m x xs checked.0 fresh.0 ∙ done)

  empty_fresh : (xs : List A) → All (λ x. has {V = A} (key x) [] ≡ false) xs
  unfolding get
  empty_fresh [] = tt
  empty_fresh (x ∷ xs) = (refl, empty_fresh xs)

  -- From an empty map.
  pub collect_complete :
      (xs : List A)
      → All (λ x. check x ≡ ok tt) xs
      → HasDistinctKeys key xs
      → (m' : Map K A) × (collect_into key check duplicate [] xs ≡ ok m')
  collect_complete xs checked distinct =
      collect_into_complete [] xs checked (empty_fresh xs) distinct

  pub collect_sound :
      (xs : List A) (m' : Map K A)
      → collect_into key check duplicate [] xs ≡ ok m'
      → All (λ x. check x ≡ ok tt) xs
        × HasDistinctKeys key xs
        × ((k : K) → get k m' ≡ declaration key xs k)
  unfolding get
  collect_sound xs m' h =
      let c = collect_into_sound [] xs m' h in (c.checked, c.distinct, c.contents)

  -- The two ways in which the loop fails.
  abbrev pub Fails : List A → E → Type 0
  Fails xs reason =
      ((x : A) × Member x xs × (check x ≡ err reason))
      ⊎ ((k : K) × (reason ≡ duplicate k) × Twice key xs k)

  -- The same, the map holding some keys already.
  abbrev FailsAfter : Map K A → List A → E → Type 0
  FailsAfter m xs reason =
      Fails xs reason
      ⊎ ((k : K) × (reason ≡ duplicate k) × (has k m ≡ true) × (declared key xs k ≡ true))

  fails_step :
      (m : Map K A) (x : A) (xs : List A) (reason : E)
      → FailsAfter (insert (key x) x m) xs reason
      → FailsAfter m (x ∷ xs) reason
  fails_step m x xs reason (inl (inl (y, member, failed))) = inl (inl (y, inr member, failed))
  fails_step m x xs reason (inl (inr (k, same, twice))) = inl (inr (k, same, inr twice))
  fails_step m x xs reason (inr (k, same, present, again)) = elim (Bool-cases (key x == k)) [
    | inl here ↦ inl (inr (k, same, inl ((e.decides (key x) k).0 here, again)))
    | inr elsewhere ↦
        inr (
          k,
          same,
          ground (arith, present, elsewhere, get-insert (key x) k x m),
          rw elsewhere again,
        )
  ]

  collect_into_fails :
      (m : Map K A) (xs : List A) (reason : E)
      → collect_into key check duplicate m xs ≡ err reason
      → FailsAfter m xs reason
  unfolding collect_into
  collect_into_fails m [] reason h = ground (arith, h)
  collect_into_fails m (x ∷ xs) reason h = elim (Result-cases (check x)) [
    | inl (other, failed) ↦
        let ended = collect_failed m x xs other failed in inl (inl (x, inl refl, cc))
    | inr (done, passed) ↦ elim (Bool-cases (has (key x) m)) [
      | inl present ↦
          let ended = collect_doubled m x xs passed present in
          inr (key x, cc, present, rw (beq_refl (key x)) refl)
      | inr absent ↦ fails_step m x xs reason (
          collect_into_fails (insert (key x) x m) xs reason
            (sym (collect_step m x xs passed absent) ∙ h))
    ]
  ]

  pub collect-Fails :
      (xs : List A) (reason : E)
      → collect_into key check duplicate [] xs ≡ err reason
      → Fails xs reason
  unfolding get
  collect-Fails xs reason h = elim (collect_into_fails [] xs reason h) [
    | inl fails ↦ fails
    | inr (k, same, present, again) ↦ cc
  ]
