-- ===== src/Release/Selection/Selected.antt =====
-- Which leaves `select_targets` selects.

use nixdeploy_corbet_ch.Release.Selection.{
  SelectionProblem, nothing_selected, absent_hosts, absent_planes, passes, select_planes,
  select_hosts, select_targets,
}
use nixdeploy_corbet_ch.Base.{
  if◌then◌else◌, is_empty, any, push_if, ok, err, ◌≡◌, ap, ◌∙◌, Bool, true, false, ◌&&◌, ◌||◌, List,
  [], ◌∷◌, ◌++◌, arith,
}
use nixdeploy_corbet_ch.Text.{Text, ◌==◌}
use nixdeploy_corbet_ch.Text.Laws.{eq_sound}
use nixdeploy_corbet_ch.Map.{
  BTreeMap, contains_key, Leaf, same_pair, PairSet, insert_pair, contains_pair, HostOf,
}
use nixdeploy_corbet_ch.Map.Laws.{contains_pair-insert_pair}

abbrev pub has_leaf {ℓ} : {V : Type ℓ} → BTreeMap (HostOf V) → Leaf → Bool
has_leaf candidates (host, plane) =
    any (λ e. e.0 == host && contains_key e.1.planes plane) candidates

abbrev pub is_selected : List Text → List Text → Leaf → Bool
is_selected hosts planes (host, plane) = passes hosts host && passes planes plane

passes_eq : (names : List Text) (a b : Text) → a == b ≡ true → passes names a ≡ passes names b
passes_eq names a b e = ap (passes names) (eq_sound a b e)

contains-if :
    (b : Bool) (s : PairSet) (p q : Leaf)
    → contains_pair (if b then insert_pair s p else s) q
      ≡ (contains_pair s q || (b && same_pair p q))
contains-if true s p q = ground (arith, contains_pair-insert_pair s p q)
contains-if false s p q = ground arith

select_planes-contains {ℓ} :
    {V : Type ℓ} (host : Text) (planes : List Text) (entries : BTreeMap V) (s : PairSet)
    (h p : Text)
    → contains_pair (select_planes host planes entries s) (h, p)
      ≡ (contains_pair s (h, p) || (host == h && (passes planes p && contains_key entries p)))
unfolding select_planes contains_key
select_planes-contains host planes [] s h p = ground arith
select_planes-contains host planes ((plane, entry) ∷ rest) s h p =
    select_planes-contains host planes rest
      (if passes planes plane then insert_pair s (host, plane) else s) h p
    ∙ (rw (contains-if (passes planes plane) s (host, plane) (h, p)) (
        regroup (contains_pair s (h, p)) (passes planes plane) (passes planes p) (host == h)
          (plane == p) (contains_key rest p) (passes_eq planes plane p)))
  where
    regroup :
        (s a a' h p r : Bool)
        → (p ≡ true → a ≡ a')
        → ((s || (a && (h && p))) || (h && (a' && r))) ≡ (s || (h && (a' && (p || r))))
    regroup s a a' h p r f = ground (arith, f)

select_hosts-contains {ℓ} :
    {V : Type ℓ} (hosts planes : List Text) (candidates : BTreeMap (HostOf V)) (s : PairSet)
    (h p : Text)
    → contains_pair (select_hosts hosts planes candidates s) (h, p)
      ≡ (contains_pair s (h, p) || (is_selected hosts planes (h, p) && has_leaf candidates (h, p)))
unfolding select_hosts
select_hosts-contains hosts planes [] s h p = ground arith
select_hosts-contains hosts planes ((host, entry) ∷ rest) s h p =
    select_hosts-contains hosts planes rest
      (if passes hosts host then select_planes host planes entry.planes s else s) h p
    ∙ (rw (contains_if (passes hosts host)) (
        regroup (contains_pair s (h, p)) (passes hosts host) (passes hosts h) (host == h)
          (passes planes p) (contains_key entry.planes p) (has_leaf rest (h, p))
          (passes_eq hosts host h)))
  where
    contains_if :
        (b : Bool)
        → contains_pair (if b then select_planes host planes entry.planes s else s) (h, p) ≡ (
            contains_pair s (h, p)
            || (b && (host == h && (passes planes p && contains_key entry.planes p))))
    contains_if true = select_planes-contains host planes entry.planes s h p
    contains_if false = ground arith

    regroup :
        (s a a' h p k r : Bool)
        → (h ≡ true → a ≡ a')
        → ((s || (a && (h && (p && k)))) || ((a' && p) && r))
          ≡ (s || ((a' && p) && ((h && k) || r)))
    regroup s a a' h p k r f = ground (arith, f)

-- A successful selection holds exactly the candidates' leaves that both selectors let pass.
pub select_targets-contains {ℓ} :
    {V : Type ℓ} (candidates : BTreeMap (HostOf V)) (hosts planes : List Text) (selected : PairSet)
    (q : Leaf)
    → select_targets candidates hosts planes ≡ ok selected
    → contains_pair selected q ≡ (is_selected hosts planes q && has_leaf candidates q)
unfolding select_targets
select_targets-contains candidates hosts planes selected (h, p) e =
    rw (← picked e) (unfold contains_pair in select_hosts-contains hosts planes candidates [] h p)
  where
    problems : List SelectionProblem
    problems =
        absent_hosts candidates hosts
        ++ (absent_planes candidates planes
            ++ push_if (is_empty (select_hosts hosts planes candidates [])) nothing_selected)

    pick :
        (ps : List SelectionProblem) (s : PairSet)
        → elim ps [ [] ↦ ok s | p ∷ ps ↦ err (p ∷ ps) ] ≡ ok selected
        → s ≡ selected
    pick [] s e = cc
    pick (x ∷ ps) s e = cc

    picked :
        select_targets candidates hosts planes ≡ ok selected
        → select_hosts hosts planes candidates [] ≡ selected
    picked e = pick problems (select_hosts hosts planes candidates []) e
