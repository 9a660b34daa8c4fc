-- ===== src/Base/Perms.antt =====
-- Predicates on the elements of a list, and on its pairs, do not see the order.
use mathlib.Core.List.{List, Permᴰ}
use mathlib.Core.Path.{subst}
use gouter.Base.Lists.{All, AllPairs}

module _ {ℓ κ} {A : Type ℓ} where
  pub All-perm : (P : A → Type κ) {xs ys : List A} → Permᴰ xs ys → All P xs → All P ys
  All-perm P Permᴰ.nil h = tt
  All-perm P (Permᴰ.cons e p) (h, hs) = (subst P e h, All-perm P p hs)
  All-perm P (Permᴰ.swap e f) (h, (k, hs)) = (subst P f k, (subst P e h, hs))
  All-perm P (Permᴰ.trans p q) h = All-perm P q (All-perm P p h)

module _ {ℓ κ} {A : Type ℓ} (R : A → A → Type κ) (turn : (a b : A) → R a b → R b a) where
  pub AllPairs-perm : {xs ys : List A} → Permᴰ xs ys → AllPairs R xs → AllPairs R ys
  AllPairs-perm Permᴰ.nil u = tt
  AllPairs-perm (Permᴰ.cons {a} {l₂ = ys} e p) (h, u) =
      (subst (λ c. All (R c) ys) e (All-perm (R a) p h), AllPairs-perm p u)
  AllPairs-perm (Permᴰ.swap {a} {b} {a'} {l} e f) ((h, hs), (ks, u)) = (
    (subst (R a') e (subst (λ c. R c a) f (turn a b h)), subst (λ c. All (R c) l) f ks),
    (subst (λ c. All (R c) l) e hs, u),
  )
  AllPairs-perm (Permᴰ.trans p q) u = AllPairs-perm q (AllPairs-perm p u)
