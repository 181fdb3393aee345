-- ===== src/Prelude/Gather.antt =====
-- A loop that collects lists and stops at the first error, and the order of its rounds. Whatever the
-- order, it either fails, or collects the same items as often.
use mathlib.Core.Logic.{∥∥₁_elim}
use mathlib.Core.Path.{sym, subst}
use mathlib.Core.List.{List, [], ◌∷◌, ◌++◌, Perm, Permᴰ, Perm-prop, perm_append_comm, append_assoc}
use mathlib.Core.List.Perm
use ultipa_go_driver.Prelude.Results.{Result, ok, err, ◌>>=◌}

module _ {E A B : Type 0} (f : A → Result E (List B)) where
  unfoldable pub gather : List A → Result E (List B)
  gather [] = ok []
  gather (x ∷ xs) = do found ← f x; rest ← gather xs; ok (found ++ rest)

abbrev pub SameOutcome : {E B : Type 0} → Result E (List B) → Result E (List B) → Type 0
SameOutcome (ok xs) (ok ys) = Perm xs ys
SameOutcome (err d) (err e) = Unit {0}
SameOutcome _ _ = ⊥

module _ {E B : Type 0} where
  SameOutcome-prop : (r s : Result E (List B)) → IsProp (SameOutcome r s)
  SameOutcome-prop (ok xs) (ok ys) = Perm-prop
  SameOutcome-prop (ok xs) (err e) = hlevel
  SameOutcome-prop (err d) (ok ys) = hlevel
  SameOutcome-prop (err d) (err e) = hlevel

  SameOutcome-refl : (r : Result E (List B)) → SameOutcome r r
  SameOutcome-refl (ok xs) = Perm.refl xs
  SameOutcome-refl (err e) = tt

  SameOutcome-trans :
      (r s t : Result E (List B)) → SameOutcome r s → SameOutcome s t → SameOutcome r t
  SameOutcome-trans (ok xs) (ok ys) (ok zs) p q = Perm.trans p q
  SameOutcome-trans (ok xs) (ok ys) (err e) p q = q
  SameOutcome-trans (ok xs) (err d) t p q = absurd p
  SameOutcome-trans (err c) (ok ys) t p q = absurd p
  SameOutcome-trans (err c) (err d) (ok zs) p q = q
  SameOutcome-trans (err c) (err d) (err e) p q = tt

  -- Two rounds, one after the other.
  abbrev both : Result E (List B) → Result E (List B) → Result E (List B)
  both r s = do xs ← r; ys ← s; ok (xs ++ ys)

  both-rest : (r s t : Result E (List B)) → SameOutcome s t → SameOutcome (both r s) (both r t)
  both-rest (err e) s t h = tt
  both-rest (ok xs) (ok ys) (ok zs) h = Perm.append_left xs h
  both-rest (ok xs) (ok ys) (err e) h = h
  both-rest (ok xs) (err d) (ok zs) h = h
  both-rest (ok xs) (err d) (err e) h = tt

  both-swap : (r s t : Result E (List B)) → SameOutcome (both r (both s t)) (both s (both r t))
  both-swap (ok xs) (ok ys) (ok zs) =
      rw (sym (append_assoc xs ys zs), sym (append_assoc ys xs zs))
        (Perm.append_right zs (perm_append_comm xs ys))
  both-swap (ok xs) (ok ys) (err e) = tt
  both-swap (ok xs) (err e) t = tt
  both-swap (err d) (ok ys) t = tt
  both-swap (err d) (err e) t = tt

module _ {E A B : Type 0} (f : A → Result E (List B)) where
  gather-steps : {xs ys : List A} → Permᴰ xs ys → SameOutcome (gather f xs) (gather f ys)
  unfolding gather
  gather-steps Permᴰ.nil = Perm.refl []
  gather-steps (Permᴰ.cons {a = a} {b = b} {l₁ = xs} {l₂ = ys} e d) =
      subst (λ y. SameOutcome (both (f a) (gather f xs)) (both (f y) (gather f ys))) e
        (both-rest (f a) (gather f xs) (gather f ys) (gather-steps d))
  gather-steps (Permᴰ.swap {a = a} {b = b} {a' = c} {b' = d} {l = xs} e1 e2) =
      subst
        (λ y.
          SameOutcome (both (f a) (both (f b) (gather f xs)))
            (both (f c) (both (f y) (gather f xs))))
        e1
        (subst
          (λ y.
            SameOutcome (both (f a) (both (f b) (gather f xs)))
              (both (f y) (both (f a) (gather f xs))))
          e2 (both-swap (f a) (f b) (gather f xs)))
  gather-steps (Permᴰ.trans {l₁ = xs} {l₂ = ys} {l₃ = zs} p q) =
      SameOutcome-trans (gather f xs) (gather f ys) (gather f zs) (gather-steps p) (gather-steps q)

  -- The order of the rounds does not matter.
  pub gather-SameOutcome : {xs ys : List A} → Perm xs ys → SameOutcome (gather f xs) (gather f ys)
  gather-SameOutcome {xs} {ys} p =
      ∥∥₁_elim p (SameOutcome-prop (gather f xs) (gather f ys)) gather-steps
