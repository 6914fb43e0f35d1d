-- ===== src/Delta/Absent.antt =====
-- A round on an absent path keeps the invariant of the walk.
use mathlib.Core.List.{append_assoc}
use Prim.Native.Nat.{min}
use nixdeploy_corbet_ch.Delta.{u64_max, Narinfo, DeltaSources, saturating_add, Walk, enqueue_all}
use nixdeploy_corbet_ch.Delta.Fuel.{ok-injective, after}
use nixdeploy_corbet_ch.Delta.Enqueue.{
  distinct, contains-append, enqueue_all-seen, enqueue_all-missing, enqueue_all-IsQueued,
  enqueue_all-keeps, enqueue_all-queue,
}
use nixdeploy_corbet_ch.Base.{
  Bool-cases, ok, ◌≡◌, sym, ap, subst, ◌∙◌, ◌⊎◌, inl, inr, true, false, ◌||◌, List, [], ◌∷◌, ◌++◌,
  arith,
}
use nixdeploy_corbet_ch.Text.{Text, ◌==◌}
use nixdeploy_corbet_ch.Map.{contains}
use nixdeploy_corbet_ch.Text.Laws.{eq_sound, eq_refl}
use nixdeploy_corbet_ch.Delta.Closure.{weigh, step, Settled, weigh-append}
use nixdeploy_corbet_ch.Delta.Invariant.{IsWalk}

module _ (sources : DeltaSources) (target : Text) where
  pub absent_step :
      (w : Walk) (path : Text) (queue : List Text) (info : Narinfo)
      → IsWalk sources target (record w { queue = path ∷ queue })
      → sources.is_present path ≡ ok false
      → sources.fetch path ≡ ok info
      → IsWalk sources target (after (record w { queue = queue }) path info)
  absent_step w path queue info h e f = record {
    begun = rw (enqueue_all-seen mid info.references target) (ground (arith, h.begun));
    settled = λ p m. elim (Bool-cases (contains u.queue p)) [
      | inl q ↦ inr q
      | inr q ↦ before p (ground (arith, enqueue_all-queue mid info.references p m, q))
    ];
    absent = λ p m. elim (grown p m) [
      | inl x ↦ h.absent p x
      | inr x ↦ subst (λ q. sources.is_present q ≡ ok false) x e
    ];
    followed = λ p r i m g q. elim (grown p m) [
      | inl x ↦ rw (enqueue_all-seen mid info.references r) (ground (arith, h.followed p r i x g q))
      | inr x ↦
          let named : contains info.references r ≡ true =
            subst (λ (j : Narinfo). contains j.references r ≡ true)
              (ok-injective (sym (subst (λ z. sources.fetch z ≡ ok i) (sym x) g) ∙ f)) q in
          rw (enqueue_all-seen mid info.references r) (ground (arith, named))
    ];
    reached = λ p m. elim (Bool-cases (contains w.seen p)) [
      | inl s ↦ h.reached p s
      | inr s ↦
          step path p info (h.reached path path_seen) e f
            (ground (arith, enqueue_all-seen mid info.references p, m, s))
    ];
    queued = enqueue_all-IsQueued mid info.references (record {
      listed = λ p m.
          h.queued.listed p
            (subst (λ l. contains l p ≡ true) (append_assoc w.missing (path ∷ []) queue) m);
      once =
          subst (λ l. distinct l ≡ true) (sym (append_assoc w.missing (path ∷ []) queue))
            h.queued.once;
    });
    size =
        (enqueue_all-missing mid info.references).1
        ∙ weighed
        ∙ ap (λ l. min (weigh sources l) u64_max) (sym (enqueue_all-missing mid info.references).0);
  }
    where
      mid : Walk
      mid = record w {
        queue = queue;
        total = saturating_add w.total info.nar_size;
        missing = w.missing ++ path ∷ [];
      }

      u : Walk
      u = enqueue_all mid info.references

      path_seen : contains w.seen path ≡ true
      path_seen =
          h.queued.listed path
            (contains-append w.missing (path ∷ queue) path ∙ ground (arith, eq_refl path))

      grown :
          (p : Text)
          → contains (enqueue_all mid info.references).missing p ≡ true
          → (contains w.missing p ≡ true) ⊎ (path ≡ p)
      grown p m =
          let m' : contains (w.missing ++ path ∷ []) p ≡ true =
            subst (λ l. contains l p ≡ true) (enqueue_all-missing mid info.references).0 m in
          elim (Bool-cases (path == p)) [
            | inl s ↦ inr (eq_sound path p s)
            | inr s ↦ inl (ground (arith, contains-append w.missing (path ∷ []) p, m', s))
          ]

      grows :
          (p : Text)
          → (contains w.missing p || path == p) ≡ true
          → contains (enqueue_all mid info.references).missing p ≡ true
      grows p m =
          subst (λ l. contains l p ≡ true) (sym (enqueue_all-missing mid info.references).0)
            (contains-append w.missing (path ∷ []) p ∙ ground (arith, m))

      before :
          (p : Text)
          → contains w.seen p ≡ true
          → Settled sources (enqueue_all mid info.references).missing p
            ⊎ (contains (enqueue_all mid info.references).queue p ≡ true)
      before p m = elim (h.settled p m) [
        | inl x ↦ elim x [ inl y ↦ inl (inl y) | inr y ↦ inl (inr (grows p (ground (arith, y)))) ]
        | inr x ↦ elim (Bool-cases (path == p)) [
          | inl s ↦ inl (inr (grows p (ground (arith, s))))
          | inr s ↦ inr (enqueue_all-keeps mid info.references p (rw s at x))
        ]
      ]

      weighed :
          saturating_add w.total info.nar_size
          ≡ min (weigh sources (w.missing ++ path ∷ [])) u64_max
      weighed = rw (weigh-append sources w.missing path, f, h.size) (ground arith)
