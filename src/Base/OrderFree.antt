-- ===== src/Base/OrderFree.antt =====
-- Functions of lists that do not depend on the order of the elements.
use mathlib.Core.List.{Perm, Permᴰ}
use mathlib.Core.Logic.{∥∥₁_elim}
use native.Mathlib.Nat.{ℕ_set}
use mathlib.Core.List.{List, ◌∷◌}
use mathlib.Core.Path.{◌≡◌, refl, sym, ap, ap₂, ◌∙◌}
use Prim.Native.Nat.{ℕ}

-- A function that takes the elements of a list in one by one, two neighbours in either order.
pub record IsOrderFree {A B : Type 0} (f : List A → B) : Type 0 where
  pub take : A → B → B
  pub takes : (x : A) (xs : List A) → f (x ∷ xs) ≡ take x (f xs)
  pub commutes : (x y : A) (b : B) → take x (take y b) ≡ take y (take x b)

same_on_Permᴰ :
    {A B : Type 0} {f : List A → B} (k : IsOrderFree f) {xs ys : List A} → Permᴰ xs ys → f xs ≡ f ys
same_on_Permᴰ k Permᴰ.nil = refl
same_on_Permᴰ k (Permᴰ.cons {a = a} {b = b} {l₁ = xs} {l₂ = ys} e p) =
    k.takes a xs ∙ ap₂ k.take e (same_on_Permᴰ k p) ∙ sym (k.takes b ys)
same_on_Permᴰ {f = f} k (Permᴰ.swap {a = a} {b = b} {a' = a'} {b' = b'} {l = l} e e') =
    k.takes a (b ∷ l)
    ∙ ap (k.take a) (k.takes b l)
    ∙ k.commutes a b (f l)
    ∙ ap₂ (λ x y. k.take x (k.take y (f l))) e' e
    ∙ sym (k.takes a' (b' ∷ l) ∙ ap (k.take a') (k.takes b' l))
same_on_Permᴰ k (Permᴰ.trans p q) = same_on_Permᴰ k p ∙ same_on_Permᴰ k q

-- A number that is read off such a function is the same for all orders.
pub same_on_Perm :
    {A B : Type 0} {f : List A → B} (k : IsOrderFree f) (g : B → ℕ) {xs ys : List A}
    → Perm xs ys
    → g (f xs) ≡ g (f ys)
same_on_Perm {f = f} k g {xs} {ys} p =
    ∥∥₁_elim p (ℕ_set (g (f xs)) (g (f ys))) (λ d. ap g (same_on_Permᴰ k d))
