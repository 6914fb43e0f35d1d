-- ===== src/Delta/Fuel.antt =====
-- The walk over a closure ends: fuel for each path that references can reach is enough.
use nixdeploy_corbet_ch.Delta.{
  Narinfo, Delta, DeltaError, DeltaSources, saturating_add, Walk, enqueue, enqueue_all, visit, walk,
  compute,
}
use nixdeploy_corbet_ch.Base.{
  if◌then◌else◌, Bool-cases, length, all, length-append, Result, ok, err, ℕ, zero, suc, ◌+◌, ◌≤◌,
  ◌≡◌, refl, subst, ◌⊎◌, inl, inr, true, false, some, List, [], ◌∷◌, ◌++◌, arith,
}
use nixdeploy_corbet_ch.Text.{Text, ◌==◌}
use nixdeploy_corbet_ch.Text.Laws.{eq_sound, eq_refl}
use nixdeploy_corbet_ch.Map.{contains}

-- How many entries of the universe have not been seen.
abbrev pub unseen : List Text → List Text → ℕ
unseen [] seen = 0
unseen (u ∷ us) seen = let rest = unseen us seen in if contains seen u then rest else suc rest

unseen_nil : (us : List Text) → unseen us [] ≡ length us
unseen_nil [] = refl
unseen_nil (u ∷ us) = omega (arith, unseen_nil us)

unseen_mono : (us seen : List Text) (r : Text) → unseen us (r ∷ seen) ≤ unseen us seen
unseen_mono [] seen r = omega arith
unseen_mono (u ∷ us) seen r = ground (arith, unseen_mono us seen r)

unseen_less :
    (us seen : List Text) (r : Text)
    → contains us r ≡ true
    → contains seen r ≡ false
    → suc (unseen us (r ∷ seen)) ≤ unseen us seen
unseen_less [] seen r m h = cc
unseen_less (u ∷ us) seen r m h = elim (Bool-cases (u == r)) [
  | inl e ↦
      let same : u ≡ r = eq_sound u r e in
      let now : r == u ≡ true = rw same (eq_refl r) in
      let before : contains seen u ≡ false = rw same h in
      rw (now, before) (ground (arith, unseen_mono us seen r))
  | inr e ↦ ground (arith, unseen_less us seen r (ground arith) h)
]

enqueue-room :
    (us : List Text) (w : Walk) (r : Text)
    → contains us r ≡ true
    → unseen us (enqueue w r).seen + length (enqueue w r).queue ≤ unseen us w.seen + length w.queue
unfolding enqueue
enqueue-room us w r m = elim (Bool-cases (contains w.seen r)) [
  | inl e ↦ rw e (omega arith)
  | inr e ↦ rw e (omega (arith, unseen_less us w.seen r m e, length-append w.queue (r ∷ [])))
]

enqueue_all-room :
    (us : List Text) (w : Walk) (rs : List Text)
    → all (contains us) rs ≡ true
    → unseen us (enqueue_all w rs).seen + length (enqueue_all w rs).queue
      ≤ unseen us w.seen + length w.queue
unfolding enqueue_all
enqueue_all-room us w [] h = omega arith
enqueue_all-room us w (r ∷ rs) h =
    let first = enqueue-room us w r (ground arith) in
    let rest = enqueue_all-room us (enqueue w r) rs (ground arith) in omega (arith, first, rest)

pub ok-injective : {A E : Type 0} {a b : A} → ◌≡◌ {A = Result A E} (ok a) (ok b) → a ≡ b
ok-injective h = cc

pub result_cases :
    {A E : Type 0} (r : Result A E) → ((a : A) × (r ≡ ok a)) ⊎ ((e : E) × (r ≡ err e))
result_cases (ok a) = inl (a, refl)
result_cases (err e) = inr (e, refl)

-- The walk after an absent path, with what its narinfo says.
abbrev pub after : Walk → Text → Narinfo → Walk
after w path info =
    enqueue_all
      (record w { total = saturating_add w.total info.nar_size; missing = w.missing ++ path ∷ [] })
      info.references

-- A round that goes on found its path present, or absent with a narinfo.
pub visit-eq_ok :
    (sources : DeltaSources) (w w' : Walk) (path : Text)
    → visit sources w path ≡ ok w'
    → ((sources.is_present path ≡ ok true) × (w ≡ w'))
      ⊎ ((sources.is_present path ≡ ok false)
          × (info : Narinfo) × (sources.fetch path ≡ ok info)
          × (after w path info ≡ w'))
unfolding visit
visit-eq_ok sources w w' path h = elim (result_cases (sources.is_present path)) [
  | inr (e, p) ↦ cc (rw (p, visit) at h)
  | inl (true, p) ↦ inl (p, ok-injective (rw (p, visit) at h))
  | inl (false, p) ↦ elim (result_cases (sources.fetch path)) [
    | inr (e, f) ↦ cc (rw (p, f, visit) at h)
    | inl (info, f) ↦ inr (p, info, f, ok-injective (rw (p, f, visit) at h))
  ]
]

module _ (sources : DeltaSources) (us : List Text)
    (named : (path : Text) (info : Narinfo)
      → sources.fetch path ≡ ok info
      → all (contains us) info.references ≡ true) where
  visit-room :
      (w w' : Walk) (path : Text)
      → visit sources w path ≡ ok w'
      → unseen us w'.seen + length w'.queue ≤ unseen us w.seen + length w.queue
  visit-room w w' path h = elim (visit-eq_ok sources w w' path h) [
    | inl (p, e) ↦ rw e (omega arith)
    | inr (p, info, f, e) ↦
        subst (λ (x : Walk). unseen us x.seen + length x.queue ≤ unseen us w.seen + length w.queue)
          e (enqueue_all-room us _ info.references (named path info f))
  ]

  walk-ends :
      (fuel : ℕ) (w : Walk) (queue : List Text)
      → unseen us w.seen + length queue ≤ fuel
      → (r : Result Delta DeltaError) × (walk sources fuel w queue ≡ some r)
  unfolding walk
  walk-ends fuel w [] h = (_, refl)
  walk-ends zero w (path ∷ queue) h = absurd (omega arith)
  walk-ends (suc fuel) w (path ∷ queue) h =
      elim (result_cases (visit sources (record w { queue = queue }) path)) [
        | inr (e, v) ↦ (err e, rw (v, walk) refl)
        | inl (w', v) ↦
            let room = visit-room (record w { queue = queue }) w' path v in
            let (r, q) = walk-ends fuel w' w'.queue (omega (arith, room)) in (r, rw (v, walk) q)
      ]

  -- If every reference that a narinfo names, and the target, is among the paths of a list, then fuel
  -- for its length is enough: the walk ends with a size or with the error of a source.
  pub compute-ends :
      (fuel : ℕ) (target : Text)
      → contains us target ≡ true
      → length us ≤ fuel
      → (r : Result Delta DeltaError) × (compute sources fuel target ≡ some r)
  unfolding compute
  compute-ends fuel target m h =
      walk-ends fuel _ (target ∷ []) (omega (arith, unseen_less us [] target m refl, unseen_nil us))
