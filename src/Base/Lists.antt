-- ===== src/Base/Lists.antt =====
-- Lists measured and cut by native numbers, under the library's names: C arrays and buffers.
use Prim.Native.Nat.{ℕ, zero, suc, ◌+◌, ◌-◌, ◌≤◌, ◌<◌, min}
use mathlib.Core.Path.{◌≡◌, refl, ap}
use mathlib.Core.List.{List, [], ◌∷◌, ◌++◌}
use native.Mathlib.Omega.{arith}

module _ {ℓ} {A : Type ℓ} where
  abbrev pub length : List A → ℕ
  length [] = 0
  length (x ∷ xs) = suc (length xs)

  abbrev pub take : ℕ → List A → List A
  take zero xs = []
  take (suc n) [] = []
  take (suc n) (x ∷ xs) = x ∷ take n xs

  abbrev pub drop : ℕ → List A → List A
  drop zero xs = xs
  drop (suc n) [] = []
  drop (suc n) (x ∷ xs) = drop n xs

  abbrev pub replicate : ℕ → A → List A
  replicate zero a = []
  replicate (suc n) a = a ∷ replicate n a

module _ {ℓ} {A : Type ℓ} where
  pub length-append : (xs ys : List A) → length (xs ++ ys) ≡ length xs + length ys
  length-append [] ys = omega arith
  length-append (x ∷ xs) ys = omega (arith, length-append xs ys)

  pub take-append-drop : (n : ℕ) (xs : List A) → take n xs ++ drop n xs ≡ xs
  take-append-drop zero xs = refl
  take-append-drop (suc n) [] = refl
  take-append-drop (suc n) (x ∷ xs) = rw (take-append-drop n xs)

  pub length-take : (n : ℕ) (xs : List A) → length (take n xs) ≡ min n (length xs)
  length-take zero xs = omega arith
  length-take (suc n) [] = omega arith
  length-take (suc n) (x ∷ xs) = omega (arith, length-take n xs)

  pub length-drop : (n : ℕ) (xs : List A) → length (drop n xs) ≡ length xs - n
  length-drop zero xs = omega arith
  length-drop (suc n) [] = omega arith
  length-drop (suc n) (x ∷ xs) = omega (arith, length-drop n xs)

  pub length-replicate : (n : ℕ) (a : A) → length (replicate n a) ≡ n
  length-replicate zero a = refl
  length-replicate (suc n) a = ap suc (length-replicate n a)

  pub take-all : (n : ℕ) (xs : List A) → length xs ≤ n → take n xs ≡ xs
  take-all zero [] h = refl
  take-all zero (x ∷ xs) h = absurd (omega arith)
  take-all (suc n) [] h = refl
  take-all (suc n) (x ∷ xs) h = ap (◌∷◌ x) (take-all n xs (omega arith))

  -- A prefix in two parts.
  pub take-add : (n m : ℕ) (xs : List A) → take (n + m) xs ≡ take n xs ++ take m (drop n xs)
  take-add zero m xs = ap (λ (k : ℕ). take k xs) (omega arith)
  take-add (suc n) zero [] = let e : suc n + 0 ≡ suc n = omega arith in rw e
  take-add (suc n) (suc m) [] = let e : suc n + suc m ≡ suc (n + suc m) = omega arith in rw e
  take-add (suc n) m (x ∷ xs) =
      let e : suc n + m ≡ suc (n + m) = omega arith in rw e (ap (◌∷◌ x) (take-add n m xs))

-- Every number of a list is below a bound.
abbrev pub AllBelow : ℕ → List ℕ → Type 0
AllBelow bound [] = Unit
AllBelow bound (x ∷ xs) = (x < bound) × AllBelow bound xs

pub append-AllBelow :
    (bound : ℕ) (xs ys : List ℕ) → AllBelow bound xs → AllBelow bound ys → AllBelow bound (xs ++ ys)
append-AllBelow bound [] ys h k = k
append-AllBelow bound (x ∷ xs) ys h k = (h.0, append-AllBelow bound xs ys h.1 k)

pub take-AllBelow : (bound n : ℕ) (xs : List ℕ) → AllBelow bound xs → AllBelow bound (take n xs)
take-AllBelow bound zero xs h = tt
take-AllBelow bound (suc n) [] h = tt
take-AllBelow bound (suc n) (x ∷ xs) h = (h.0, take-AllBelow bound n xs h.1)

pub drop-AllBelow : (bound n : ℕ) (xs : List ℕ) → AllBelow bound xs → AllBelow bound (drop n xs)
drop-AllBelow bound zero xs h = h
drop-AllBelow bound (suc n) [] h = tt
drop-AllBelow bound (suc n) (x ∷ xs) h = drop-AllBelow bound n xs h.1

pub replicate-AllBelow : (bound n x : ℕ) → x < bound → AllBelow bound (replicate n x)
replicate-AllBelow bound zero x h = tt
replicate-AllBelow bound (suc n) x h = (h, replicate-AllBelow bound n x h)
