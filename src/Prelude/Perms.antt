-- ===== src/Prelude/Perms.antt =====
-- Permutations have one length, over the native numbers, and are kept by `map`.
use mathlib.Core.List.{List, Perm, Permᴰ, map}
use mathlib.Core.Logic.{∥∥₁_elim, ∥∥₁_map}
use mathlib.Core.Path.{◌≡◌, refl, ap, ◌∙◌}
use native.Mathlib.Nat.{ℕ_set}
use Prim.Native.Nat.{suc}
use arcus_c_client.Prelude.Lists.{length}

module _ {ℓ} {A : Type ℓ} where
  length-perm_data : {xs ys : List A} → Permᴰ xs ys → length xs ≡ length ys
  length-perm_data Permᴰ.nil = refl
  length-perm_data (Permᴰ.cons e p) = ap suc (length-perm_data p)
  length-perm_data (Permᴰ.swap e f) = refl
  length-perm_data (Permᴰ.trans p q) = length-perm_data p ∙ length-perm_data q

  pub length-perm : {xs ys : List A} → Perm xs ys → length xs ≡ length ys
  length-perm p = ∥∥₁_elim p (ℕ_set _ _) length-perm_data

module _ {ℓ κ} {A : Type ℓ} {B : Type κ} (f : A → B) where
  perm-map_data : {xs ys : List A} → Permᴰ xs ys → Permᴰ (map f xs) (map f ys)
  perm-map_data Permᴰ.nil = Permᴰ.nil
  perm-map_data (Permᴰ.cons e p) = Permᴰ.cons (ap f e) (perm-map_data p)
  perm-map_data (Permᴰ.swap e g) = Permᴰ.swap (ap f e) (ap f g)
  perm-map_data (Permᴰ.trans p q) = Permᴰ.trans (perm-map_data p) (perm-map_data q)

  pub perm-map : {xs ys : List A} → Perm xs ys → Perm (map f xs) (map f ys)
  perm-map {xs} {ys} p = ∥∥₁_map {B = Permᴰ (map f xs) (map f ys)} p perm-map_data
