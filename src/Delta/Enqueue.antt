-- ===== src/Delta/Enqueue.antt =====
-- What the references of one path do to the walk.
use mathlib.Core.List.{append_assoc}
use nixdeploy_corbet_ch.Delta.{Walk, enqueue, enqueue_all}
use nixdeploy_corbet_ch.Base.{
  Bool-cases, ◌≡◌, refl, sym, subst, ◌∙◌, inl, inr, Bool, true, false, not, ◌&&◌, ◌||◌, List, [],
  ◌∷◌, ◌++◌, arith,
}
use nixdeploy_corbet_ch.Text.{Text, ◌==◌}
use nixdeploy_corbet_ch.Text.Laws.{eq_sound, eq_refl}
use nixdeploy_corbet_ch.Map.{contains}

abbrev pub distinct : List Text → Bool
distinct [] = true
distinct (x ∷ xs) = not (contains xs x) && distinct xs

pub contains-append :
    (xs ys : List Text) (p : Text) → contains (xs ++ ys) p ≡ (contains xs p || contains ys p)
contains-append [] ys p = refl
contains-append (x ∷ xs) ys p = ground (arith, contains-append xs ys p)

distinct-append :
    (xs : List Text) (r : Text)
    → contains xs r ≡ false
    → distinct xs ≡ true
    → distinct (xs ++ r ∷ []) ≡ true
distinct-append [] r h d = refl
distinct-append (x ∷ xs) r h d = ground (
  arith,
  distinct-append xs r (ground arith) (ground arith),
  contains-append xs (r ∷ []) x,
  eq_swap r x,
)
  where
    eq_swap : (a b : Text) → a == b ≡ true → b == a ≡ true
    eq_swap a b e = let same : a ≡ b = eq_sound a b e in rw same (eq_refl b)

pub distinct_drop :
    (xs ys : List Text) (p : Text) → distinct (xs ++ p ∷ ys) ≡ true → distinct (xs ++ ys) ≡ true
distinct_drop [] ys p h = ground arith
distinct_drop (x ∷ xs) ys p h = ground (
  arith,
  distinct_drop xs ys p (ground arith),
  contains-append xs ys x,
  contains-append xs (p ∷ ys) x,
)

enqueue-seen :
    (w : Walk) (r p : Text)
    → contains (enqueue w r).seen p ≡ (contains w.seen p || contains (r ∷ []) p)
unfolding enqueue
enqueue-seen w r p = elim (Bool-cases (contains w.seen r)) [
  | inl e ↦ rw e (elim (Bool-cases (r == p)) [
    | inl s ↦ let same : r ≡ p = eq_sound r p s in rw (s, ← same, e) refl
    | inr s ↦ rw s (ground arith)
  ])
  | inr e ↦ rw e (ground arith)
]

pub enqueue_all-seen :
    (w : Walk) (rs : List Text) (p : Text)
    → contains (enqueue_all w rs).seen p ≡ (contains w.seen p || contains rs p)
unfolding enqueue_all
enqueue_all-seen w [] p = ground arith
enqueue_all-seen w (r ∷ rs) p =
    enqueue_all-seen (enqueue w r) rs p ∙ rw (enqueue-seen w r p) (ground arith)

pub enqueue_all-missing :
    (w : Walk) (rs : List Text)
    → ((enqueue_all w rs).missing ≡ w.missing) × ((enqueue_all w rs).total ≡ w.total)
unfolding enqueue_all enqueue
enqueue_all-missing w [] = (refl, refl)
enqueue_all-missing w (r ∷ rs) =
    let (m, t) = enqueue_all-missing (enqueue w r) rs in
    let (m', t') = enqueue-missing w r in (m ∙ m', t ∙ t')
  where
    enqueue-missing :
        (w : Walk) (r : Text)
        → ((enqueue w r).missing ≡ w.missing) × ((enqueue w r).total ≡ w.total)
    enqueue-missing w r = elim (Bool-cases (contains w.seen r)) [
      | inl e ↦ rw e (refl, refl)
      | inr e ↦ rw e (refl, refl)
    ]

-- The queue has what was queued or is new, and nothing twice.
pub record IsQueued (w : Walk) : Type 0 where
  pub listed : (p : Text) → contains (w.missing ++ w.queue) p ≡ true → contains w.seen p ≡ true
  pub once : distinct (w.missing ++ w.queue) ≡ true

enqueue-IsQueued : (w : Walk) (r : Text) → IsQueued w → IsQueued (enqueue w r)
unfolding enqueue
enqueue-IsQueued w r h = elim (Bool-cases (contains w.seen r)) [
  | inl e ↦ rw e h
  | inr e ↦ rw e (record {
    listed = λ p q. ground (
      arith,
      h.listed p,
      contains-append (w.missing ++ w.queue) (r ∷ []) p,
      subst (λ l. contains l p ≡ true) (sym (append_assoc w.missing w.queue (r ∷ []))) q,
    );
    once =
        subst (λ l. distinct l ≡ true) (append_assoc w.missing w.queue (r ∷ []))
          (distinct-append (w.missing ++ w.queue) r (ground (arith, h.listed r, e)) h.once);
  })
]

pub enqueue_all-IsQueued : (w : Walk) (rs : List Text) → IsQueued w → IsQueued (enqueue_all w rs)
unfolding enqueue_all
enqueue_all-IsQueued w [] h = h
enqueue_all-IsQueued w (r ∷ rs) h = enqueue_all-IsQueued (enqueue w r) rs (enqueue-IsQueued w r h)

enqueue-queue :
    (w : Walk) (r p : Text)
    → contains (enqueue w r).seen p ≡ true
    → (contains w.seen p || contains (enqueue w r).queue p) ≡ true
unfolding enqueue
enqueue-queue w r p h = elim (Bool-cases (contains w.seen r)) [
  | inl e ↦ ground (arith, rw e at h)
  | inr e ↦ rw e (ground (arith, contains-append w.queue (r ∷ []) p, rw e at h))
]

enqueue-keeps :
    (w : Walk) (r p : Text) → contains w.queue p ≡ true → contains (enqueue w r).queue p ≡ true
unfolding enqueue
enqueue-keeps w r p h = elim (Bool-cases (contains w.seen r)) [
  | inl e ↦ rw e h
  | inr e ↦ rw e (ground (arith, contains-append w.queue (r ∷ []) p, h))
]

pub enqueue_all-keeps :
    (w : Walk) (rs : List Text) (p : Text)
    → contains w.queue p ≡ true
    → contains (enqueue_all w rs).queue p ≡ true
unfolding enqueue_all
enqueue_all-keeps w [] p h = h
enqueue_all-keeps w (r ∷ rs) p h = enqueue_all-keeps (enqueue w r) rs p (enqueue-keeps w r p h)

-- What was seen after the references are queued was seen before, or is queued.
pub enqueue_all-queue :
    (w : Walk) (rs : List Text) (p : Text)
    → contains (enqueue_all w rs).seen p ≡ true
    → (contains w.seen p || contains (enqueue_all w rs).queue p) ≡ true
unfolding enqueue_all
enqueue_all-queue w [] p h = ground (arith, h)
enqueue_all-queue w (r ∷ rs) p h = ground (
  arith,
  enqueue_all-queue (enqueue w r) rs p h,
  enqueue-queue w r p,
  enqueue_all-keeps (enqueue w r) rs p,
)
