-- ===== src/Map/Laws.antt =====
-- Laws of maps and sets.
use nixdeploy_corbet_ch.Base.{
  if◌then◌else◌, Bool-cases, All, Ordering, ◌≡◌, refl, ◌↔◌, inl, inr, true, false, ◌||◌, none, some,
  [], ◌∷◌, arith,
}
use nixdeploy_corbet_ch.Text.{Text, ◌==◌, compare_text}
use nixdeploy_corbet_ch.Text.Laws.{eq_refl, eq_iff, compare_text-eq, ==-compare_text}
use nixdeploy_corbet_ch.Map.{
  BTreeMap, get, contains_key, insert, Leaf, same_pair, compare_pair, PairSet, insert_pair,
  contains_pair,
}

module _ {ℓ} {V : Type ℓ} where
  pub get-insert :
      (m : BTreeMap V) (k : Text) (v : V) (j : Text)
      → get (insert m k v) j ≡ (if k == j then some v else get m j)
  unfolding get insert
  get-insert [] k v j = refl
  get-insert ((i, w) ∷ m) k v j = go (compare_text k i) refl (get-insert m k v j)
    where
      go :
          (o : Ordering)
          → compare_text k i ≡ o
          → get (insert m k v) j ≡ (if k == j then some v else get m j)
          → get
              (elim o [
                | Ordering.lt ↦ (k, v) ∷ (i, w) ∷ m
                | Ordering.eq ↦ (k, v) ∷ m
                | Ordering.gt ↦ (i, w) ∷ insert m k v
              ])
              j
            ≡ (if k == j then some v else if i == j then some w else get m j)
      go Ordering.lt e h = refl
      go Ordering.eq e h = ground (arith, compare_text-eq k i, eq_iff i j, eq_iff k j)
      go Ordering.gt e h = ground (arith, ==-compare_text k i, eq_iff k i, eq_iff i j, eq_iff k j)

  pub get-insert_self : (m : BTreeMap V) (k : Text) (v : V) → get (insert m k v) k ≡ some v
  get-insert_self m k v = rw get-insert (rw eq_refl)

  pub get-contains_key :
      (m : BTreeMap V) (k : Text)
      → contains_key m k ≡ elim (get m k) [ none ↦ false | some _ ↦ true ]
  unfolding get contains_key
  get-contains_key [] k = refl
  get-contains_key ((j, w) ∷ m) k = ground (arith, get-contains_key m k)

  -- A property of all entries holds of the one that a lookup finds.
  pub All-get {κ} :
      (P : Text × V → Type κ) (m : BTreeMap V) (k : Text) (v : V)
      → All P m
      → get m k ≡ some v
      → P (k, v)
  unfolding get
  All-get P [] k v h e = cc
  All-get P ((j, w) ∷ m) k v h e = elim (Bool-cases (j == k)) [
    | inl hit ↦ ground (arith, eq_iff j k, h.0)
    | inr miss ↦ All-get P m k v h.1 (ground arith)
  ]

pub same_pair_iff : (p q : Leaf) → (same_pair p q ≡ true) ↔ (p ≡ q)
same_pair_iff (a, b) (c, d) = ground (arith, eq_iff a c, eq_iff b d)

pub compare_pair-eq : (p q : Leaf) → compare_pair p q ≡ Ordering.eq → p ≡ q
compare_pair-eq (a, b) (c, d) h = ground (arith, compare_text-eq a c, compare_text-eq b d)

pub contains_pair-insert_pair :
    (s : PairSet) (p q : Leaf)
    → contains_pair (insert_pair s p) q ≡ (same_pair p q || contains_pair s q)
unfolding contains_pair insert_pair
contains_pair-insert_pair [] p q = refl
contains_pair-insert_pair (r ∷ s) p q =
    ground (arith, compare_pair-eq p r, contains_pair-insert_pair s p q)
