-- ===== src/Base/Signs.antt =====
-- Arrays without negative numbers.
use Prim.Native.Nat.{ℕ, zero, suc}
use mathlib.Core.List.{List, [], ◌∷◌, map}
use allocation_key_generatio.Base.Lists.{All, replicate, get_or, set}
use allocation_key_generatio.Base.Num.{
  Num, NumLaws, Nonneg, zip_with, scale, scale_rows, plus_rows, sum_from, sum, zeros,
}

module _ {A : Type 0} where
  pub All-replicate : (P : A → Type 0) (n : ℕ) (a : A) → P a → All P (replicate n a)
  All-replicate P zero a p = tt
  All-replicate P (suc n) a p = (p, All-replicate P n a p)

  pub All-set : (P : A → Type 0) (xs : List A) (i : ℕ) (a : A) → All P xs → P a → All P (set xs i a)
  All-set P [] i a h p = tt
  All-set P (x ∷ xs) zero a h p = (p, h.1)
  All-set P (x ∷ xs) (suc i) a h p = (h.0, All-set P xs i a h.1 p)

  pub All-get_or :
      (P : A → Type 0) (xs : List A) (i : ℕ) (a : A) → All P xs → P a → P (get_or xs i a)
  All-get_or P [] i a h p = p
  All-get_or P (x ∷ xs) zero a h p = h.0
  All-get_or P (x ∷ xs) (suc i) a h p = All-get_or P xs i a h.1 p

module _ {A B : Type 0} where
  pub All-mapped :
      (P : A → Type 0) (Q : B → Type 0) (f : A → B)
      → ((x : A) → P x → Q (f x))
      → (xs : List A) → All P xs
      → All Q (map f xs)
  All-mapped P Q f h [] p = tt
  All-mapped P Q f h (x ∷ xs) p = (h x p.0, All-mapped P Q f h xs p.1)

module _ (F : Num) (laws : NumLaws F) where
  abbrev pub Signed : List F.Real → Type 0
  Signed = All (Nonneg F)

  pub nought-Nonneg : Nonneg F F.nought
  nought-Nonneg = laws.refl_le F.nought

  pub scale-Signed :
      (xs : List F.Real) (k : F.Real) → Signed xs → Nonneg F k → Signed (scale F xs k)
  scale-Signed [] k h p = tt
  scale-Signed (x ∷ xs) k h p = (laws.times_nonneg x k h.0 p, scale-Signed xs k h.1 p)

  pub scale_rows-Signed :
      (rows : List (List F.Real)) (k : F.Real)
      → All Signed rows
      → Nonneg F k
      → All Signed (scale_rows F rows k)
  scale_rows-Signed [] k h p = tt
  scale_rows-Signed (r ∷ rows) k h p = (scale-Signed r k h.0 p, scale_rows-Signed rows k h.1 p)

  pub zip_plus-Signed :
      (xs ys : List F.Real) → Signed xs → Signed ys → Signed (zip_with F F.plus xs ys)
  zip_plus-Signed [] ys h k = tt
  zip_plus-Signed (x ∷ xs) [] h k = tt
  zip_plus-Signed (x ∷ xs) (y ∷ ys) h k =
      (laws.plus_nonneg x y h.0 k.0, zip_plus-Signed xs ys h.1 k.1)

  pub plus_rows-Signed :
      (rows bs : List (List F.Real))
      → All Signed rows
      → All Signed bs
      → All Signed (plus_rows F rows bs)
  plus_rows-Signed [] bs h k = tt
  plus_rows-Signed (r ∷ rows) [] h k = tt
  plus_rows-Signed (r ∷ rows) (b ∷ bs) h k =
      (zip_plus-Signed r b h.0 k.0, plus_rows-Signed rows bs h.1 k.1)

  sum_from-Nonneg :
      (acc : F.Real) (xs : List F.Real) → Nonneg F acc → Signed xs → Nonneg F (sum_from F acc xs)
  sum_from-Nonneg acc [] p h = p
  sum_from-Nonneg acc (x ∷ xs) p h =
      sum_from-Nonneg (F.plus acc x) xs (laws.plus_nonneg acc x p h.0) h.1

  pub sum-Nonneg : (xs : List F.Real) → Signed xs → Nonneg F (sum F xs)
  sum-Nonneg xs h = sum_from-Nonneg F.nought xs nought-Nonneg h

  pub zeros-Signed : (n : ℕ) → Signed (zeros F n)
  zeros-Signed n = All-replicate (Nonneg F) n F.nought nought-Nonneg

  pub maximum-Signed : (xs : List F.Real) → Signed (map (F.maximum F.nought) xs)
  maximum-Signed [] = tt
  maximum-Signed (x ∷ xs) = (laws.maximum_nonneg x, maximum-Signed xs)

  pub surplus-Signed : (xs : List F.Real) → Signed (map (λ d. F.maximum F.nought (F.negate d)) xs)
  surplus-Signed [] = tt
  surplus-Signed (x ∷ xs) = (laws.maximum_nonneg (F.negate x), surplus-Signed xs)
