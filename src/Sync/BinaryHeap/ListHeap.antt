-- ===== src/Sync/BinaryHeap/ListHeap.antt =====
-- The laws of the heap can be met: a list, from which `pop` takes the first greatest element.
use mathlib.Core.List.Perm
use mathlib.Core.List.{mem-cons, mem-cons_self, not-mem-nil}
use mathlib.Core.HLevel.{¬_prop}
use mathlib.Core.Logic.Or
use mathlib.Core.Option
use uni_cloud_file_sync_thin.Prelude.{
  Option, none, some, List, [], ◌∷◌, Mem, Perm, length, ◌≡◌, ◌≢◌, ◌⊎◌, inl, inr, refl, Ordering, lt,
  eq, gt, arith, subst, Option-cases,
}
use uni_cloud_file_sync_thin.Sync.BinaryHeap.Defs.{BinaryHeap}

-- What the laws need of the order: it is reflexive, and "not less than" is transitive and total.
pub record IsOrder {A : Type 0} (cmp : A → A → Ordering) : Type 0 where
  pub cmp_refl : (a : A) → cmp a a ≢ lt
  pub cmp_trans : (a b c : A) → cmp a b ≢ lt → cmp b c ≢ lt → cmp a c ≢ lt
  pub cmp_total : (a b : A) → cmp a b ≡ lt → cmp b a ≢ lt

module _ {A : Type 0} (cmp : A → A → Ordering) where
  pick : Ordering → A → List A → A → List A → A × List A
  pick lt x xs m rest = (m, x ∷ rest)
  pick _ x xs m rest = (x, xs)

  unfoldable pub take_greatest : List A → Option (A × List A)
  unfolding pick
  take_greatest [] = none
  take_greatest (x ∷ xs) = elim (take_greatest xs) [
    | none ↦ some (x, xs)
    | some (m, rest) ↦ some (pick (cmp x m) x xs m rest)
  ]

  ne_lt-prop : (a b : A) → IsProp (cmp a b ≢ lt)
  ne_lt-prop a b = ¬_prop

  Takes : List A → Type 0
  Takes l =
      ((l ≡ []) × (take_greatest l ≡ none))
      ⊎ ((m : A) × (rest : List A) × (take_greatest l ≡ some (m, rest))
          × Perm l (m ∷ rest)
          × ((b : A) → Mem b l → cmp m b ≢ lt))

  module _ (o : IsOrder cmp) where
    Takes-keep :
        (x m : A) (xs rest : List A)
        → cmp x m ≢ lt
        → take_greatest (x ∷ xs) ≡ some (x, xs)
        → ((b : A) → Mem b xs → cmp m b ≢ lt)
        → Takes (x ∷ xs)
    unfolding Takes
    Takes-keep x m xs rest ne t g = inr (
      x,
      xs,
      t,
      Perm.rfl,
      λ b mem.
          Or.elim (ne_lt-prop x b) (mem-cons.0 mem) (λ h. rw h (o.cmp_refl x))
            (λ h. o.cmp_trans x m b ne (g b h)),
    )

    Takes-pick :
        (x m : A) (xs rest : List A) (c : Ordering)
        → cmp x m ≡ c
        → take_greatest xs ≡ some (m, rest)
        → Perm xs (m ∷ rest)
        → ((b : A) → Mem b xs → cmp m b ≢ lt)
        → Takes (x ∷ xs)
    unfolding take_greatest Takes
    Takes-pick x m xs rest lt e t p g = inr (
      m,
      x ∷ rest,
      rw (t, take_greatest, e) refl,
      Perm.trans (Perm.cons x p) (Perm.swap m x rest),
      λ b mem. Or.elim (ne_lt-prop m b) (mem-cons.0 mem) (λ h. rw h (o.cmp_total x m e)) (g b),
    )
    Takes-pick x m xs rest eq e t p g =
        Takes-keep x m xs rest (ground arith) (rw (t, take_greatest, e) refl) g
    Takes-pick x m xs rest gt e t p g =
        Takes-keep x m xs rest (ground arith) (rw (t, take_greatest, e) refl) g

    take_greatest-Takes : (l : List A) → Takes l
    unfolding Takes take_greatest
    take_greatest-Takes [] = inl (refl, refl)
    take_greatest-Takes (x ∷ xs) = elim (take_greatest-Takes xs) [
      | inl (e, t) ↦ inr (
        x,
        xs,
        rw (t, take_greatest) refl,
        Perm.rfl,
        λ b mem.
            Or.elim (ne_lt-prop x b) (mem-cons.0 mem) (λ h. rw h (o.cmp_refl x))
              (λ h. absurd (not-mem-nil (subst (Mem b) e h))),
      )
      | inr (m, rest, t, p, g) ↦ Takes-pick x m xs rest (cmp x m) refl t p g
    ]

    pub take_greatest-none : (l : List A) → take_greatest l ≡ none → l ≡ []
    unfolding Takes
    take_greatest-none l h = elim (take_greatest-Takes l) [
      | inl (e, t) ↦ e
      | inr (m, rest, t, p, g) ↦ cc
    ]

    pub take_greatest-some :
        (l : List A) (m : A) (rest : List A)
        → take_greatest l ≡ some (m, rest)
        → Perm l (m ∷ rest) × ((b : A) → Mem b l → cmp m b ≢ lt)
    unfolding Takes
    take_greatest-some l m rest h = elim (take_greatest-Takes l) [
      | inl (e, t) ↦ cc
      | inr (n, kept, t, p, g) ↦
          let e : n ≡ m = ground arith in
          let f : kept ≡ rest = ground arith in (rw (← e, ← f) p, λ b mem. rw (← e) (g b mem))
    ]

    pub peek_greatest_some :
        (l : List A) (m : A)
        → Option.map (λ p. p.0) (take_greatest l) ≡ some m
        → Mem m l × ((b : A) → Mem b l → cmp m b ≢ lt)
    peek_greatest_some l m h = elim (Option-cases (take_greatest l)) [
      | inl e ↦ absurd (ground arith)
      | inr (p, e) ↦
          let f : p.0 ≡ m = ground arith in
          let (perm, g) = take_greatest-some l p.0 p.1 e in
          (rw (← f) ((Perm.mem_iff perm).1 mem-cons_self), λ b mem. rw (← f) (g b mem))
    ]

    pub peek_greatest_none : (l : List A) → Option.map (λ p. p.0) (take_greatest l) ≡ none → l ≡ []
    peek_greatest_none l h = elim (Option-cases (take_greatest l)) [
      | inl e ↦ take_greatest-none l e
      | inr (p, e) ↦ absurd (ground arith)
    ]

    abbrev pub list_heap : BinaryHeap cmp (List A)
    list_heap = record {
      empty = [];
      push = λ h a. a ∷ h;
      pop = take_greatest;
      peek = λ h. Option.map (λ p. p.0) (take_greatest h);
      drain = λ h. (h, []);
      clear = λ h. [];
      collect = λ l. l;
      iter = λ h. h;
      len = length;
      iter-empty = refl;
      iter-push = λ h a. Perm.rfl;
      pop_none = take_greatest-none;
      pop_some = λ h h' a e. (take_greatest-some h a h' e).0;
      pop_greatest = λ h h' a b e m. (take_greatest-some h a h' e).1 b m;
      peek_none = peek_greatest_none;
      peek_some = λ h a e. (peek_greatest_some h a e).0;
      peek_greatest = λ h a b e m. (peek_greatest_some h a e).1 b m;
      drain_perm = λ h. Perm.rfl;
      drain_clears = λ h. refl;
      iter-clear = λ h. refl;
      iter-collect = λ l. Perm.rfl;
      len-length = λ h. refl;
    }
