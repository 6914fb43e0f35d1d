-- ===== src/Delta/Invariant.antt =====
-- The invariant of the walk, kept by a round on a present path.
use mathlib.Core.List.{append-nil}
use Prim.Native.Nat.{min}
use nixdeploy_corbet_ch.Delta.{u64_max, Narinfo, DeltaSources, Walk}
use nixdeploy_corbet_ch.Delta.Enqueue.{distinct, contains-append, distinct_drop, IsQueued}
use nixdeploy_corbet_ch.Base.{
  Bool-cases, ok, ◌≡◌, ap, subst, ◌∙◌, ◌⊎◌, inl, inr, true, false, List, [], ◌∷◌, ◌++◌, arith,
}
use nixdeploy_corbet_ch.Text.{Text, ◌==◌}
use nixdeploy_corbet_ch.Map.{contains}
use nixdeploy_corbet_ch.Text.Laws.{eq_sound}
use nixdeploy_corbet_ch.Delta.Closure.{weigh, Reaches, Settled, IsClosure}

module _ (sources : DeltaSources) (target : Text) where
  -- The invariant of the walk, whose queue is `w.queue`.
  pub record IsWalk (w : Walk) : Type 0 where
    pub begun : contains w.seen target ≡ true
    pub settled :
        (p : Text)
        → contains w.seen p ≡ true
        → Settled sources w.missing p ⊎ (contains w.queue p ≡ true)
    pub absent : (p : Text) → contains w.missing p ≡ true → sources.is_present p ≡ ok false
    pub followed :
        (p r : Text) (info : Narinfo)
        → contains w.missing p ≡ true
        → sources.fetch p ≡ ok info
        → contains info.references r ≡ true
        → contains w.seen r ≡ true
    pub reached : (p : Text) → contains w.seen p ≡ true → Reaches sources target p
    pub queued : IsQueued w
    pub size : w.total ≡ min (weigh sources w.missing) u64_max

  pub IsWalk-IsClosure :
      (w : Walk)
      → IsWalk w
      → w.queue ≡ []
      → IsClosure sources target (record { bytes = w.total; missing = w.missing })
  IsWalk-IsClosure w h e = record {
    absent = h.absent;
    needed = λ p m.
        h.reached p (h.queued.listed p (ground (arith, contains-append w.missing w.queue p, m)));
    once =
        subst (λ l. distinct l ≡ true) (ap (λ q. w.missing ++ q) e ∙ append-nil w.missing)
          h.queued.once;
    target_settled = done target (h.settled target h.begun);
    closed = λ p r info m f q. done r (h.settled r (h.followed p r info m f q));
    size = h.size;
  }
    where
      done :
          (p : Text)
          → Settled sources w.missing p ⊎ (contains w.queue p ≡ true)
          → Settled sources w.missing p
      done p (inl x) = x
      done p (inr x) = cc (rw e at x)

  pub present_step :
      (w : Walk) (path : Text) (queue : List Text)
      → IsWalk (record w { queue = path ∷ queue })
      → sources.is_present path ≡ ok true
      → IsWalk (record w { queue = queue })
  present_step w path queue h e = record {
    begun = h.begun;
    settled = λ p m. elim (h.settled p m) [
      | inl x ↦ inl x
      | inr x ↦ elim (Bool-cases (path == p)) [
        | inl s ↦ inl (inl (subst (λ q. sources.is_present q ≡ ok true) (eq_sound path p s) e))
        | inr s ↦ inr (rw s at x)
      ]
    ];
    absent = h.absent;
    followed = h.followed;
    reached = h.reached;
    queued = record {
      listed = λ p m. h.queued.listed p (
          ground (
            arith,
            m,
            contains-append w.missing queue p,
            contains-append w.missing (path ∷ queue) p,
          ));
      once = distinct_drop w.missing queue path h.queued.once;
    };
    size = h.size;
  }
