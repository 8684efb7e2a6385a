-- ===== src/Base/Lists.antt =====
-- Lists measured and cut by native numbers, and the vector operations of the standard library that
-- the code uses: `resize`, and `memcpy` into a vector.
use Prim.Native.Nat.{ℕ, zero, suc, ◌+◌, ◌-◌, ◌≤◌, min}
use mathlib.Core.Path.{◌≡◌, refl, sym, ap, ap₂, ◌∙◌}
use mathlib.Core.List.{List, [], ◌∷◌, ◌++◌}
use native.Mathlib.Omega.{arith}

module _ {ℓ} {A : Type ℓ} where
  abbrev pub length : List A → ℕ
  length [] = 0
  length (x ∷ xs) = suc (length xs)

  abbrev pub take : ℕ → List A → List A
  take zero xs = []
  take (suc n) [] = []
  take (suc n) (x ∷ xs) = x ∷ take n xs

  abbrev pub drop : ℕ → List A → List A
  drop zero xs = xs
  drop (suc n) [] = []
  drop (suc n) (x ∷ xs) = drop n xs

  abbrev pub replicate : ℕ → A → List A
  replicate zero a = []
  replicate (suc n) a = a ∷ replicate n a

  abbrev pub All {κ} : (A → Type κ) → List A → Type κ
  All P [] = Unit
  All P (x ∷ xs) = P x × All P xs

  -- `vector::resize`: cut, or filled up with the value-initialised element.
  unfoldable pub resize : ℕ → A → List A → List A
  resize zero a xs = []
  resize (suc n) a [] = a ∷ resize n a []
  resize (suc n) a (x ∷ xs) = x ∷ resize n a xs

  -- `memcpy` of `src` into the vector at an offset. What would fall past the end is not stored.
  unfoldable pub overwrite : ℕ → List A → List A → List A
  overwrite pos src [] = []
  overwrite zero [] (x ∷ xs) = x ∷ xs
  overwrite zero (s ∷ src) (x ∷ xs) = s ∷ overwrite zero src xs
  overwrite (suc pos) src (x ∷ xs) = x ∷ overwrite pos src xs

module _ {ℓ} {A : Type ℓ} where
  pub length-append : (xs ys : List A) → length (xs ++ ys) ≡ length xs + length ys
  length-append [] ys = omega arith
  length-append (x ∷ xs) ys = omega (arith, length-append xs ys)

  pub length-take : (n : ℕ) (xs : List A) → length (take n xs) ≡ min n (length xs)
  length-take zero xs = omega arith
  length-take (suc n) [] = omega arith
  length-take (suc n) (x ∷ xs) = omega (arith, length-take n xs)

  pub length-drop : (n : ℕ) (xs : List A) → length (drop n xs) ≡ length xs - n
  length-drop zero xs = omega arith
  length-drop (suc n) [] = omega arith
  length-drop (suc n) (x ∷ xs) = omega (arith, length-drop n xs)

  pub length-replicate : (n : ℕ) (a : A) → length (replicate n a) ≡ n
  length-replicate zero a = refl
  length-replicate (suc n) a = ap suc (length-replicate n a)

  pub take-append : (xs ys : List A) → take (length xs) (xs ++ ys) ≡ xs
  take-append [] ys = refl
  take-append (x ∷ xs) ys = ap (◌∷◌ x) (take-append xs ys)

  pub drop-append : (xs ys : List A) → drop (length xs) (xs ++ ys) ≡ ys
  drop-append [] ys = refl
  drop-append (x ∷ xs) ys = drop-append xs ys

  pub take-append-drop : (n : ℕ) (xs : List A) → take n xs ++ drop n xs ≡ xs
  take-append-drop zero xs = refl
  take-append-drop (suc n) [] = refl
  take-append-drop (suc n) (x ∷ xs) = ap (◌∷◌ x) (take-append-drop n xs)

  -- A list that begins with `xs`, cut at the length of `xs`, also where it is itself only the
  -- beginning of something longer.
  pub take-split :
      (xs zs b ys : List A)
      → length xs ≤ length b
      → b ++ ys ≡ xs ++ zs
      → (take (length xs) b ≡ xs) × (drop (length xs) b ++ ys ≡ zs)
  take-split [] zs b ys h e = (refl, e)
  take-split (x ∷ xs) zs [] ys h e = absurd (omega arith)
  take-split (x ∷ xs) zs (y ∷ b) ys h e =
      let rest = take-split xs zs b ys (omega arith) (cc) in (ap₂ ◌∷◌ (cc) rest.0, rest.1)

  pub append-eq-nil : (xs ys : List A) → xs ++ ys ≡ [] → xs ≡ []
  append-eq-nil [] ys e = refl
  append-eq-nil (x ∷ xs) ys e = cc

module _ {ℓ} {A : Type ℓ} where
  resize-nil : (n : ℕ) (a : A) → resize n a [] ≡ replicate n a
  unfolding resize
  resize-nil zero a = refl
  resize-nil (suc n) a = ap (◌∷◌ a) (resize-nil n a)

  pub length-resize : (n : ℕ) (a : A) (xs : List A) → length (resize n a xs) ≡ n
  unfolding resize
  length-resize zero a xs = refl
  length-resize (suc n) a [] = ap suc (length-resize n a [])
  length-resize (suc n) a (x ∷ xs) = ap suc (length-resize n a xs)

  -- A vector that grows keeps its elements.
  pub resize_grow :
      (xs : List A) (k n : ℕ) (a : A) → k ≡ length xs + n → resize k a xs ≡ xs ++ replicate n a
  unfolding resize
  resize_grow [] k n a e = rw (let e' : k ≡ n = omega arith in e') (resize-nil n a)
  resize_grow (x ∷ xs) zero n a e = absurd (omega arith)
  resize_grow (x ∷ xs) (suc k) n a e = ap (◌∷◌ x) (resize_grow xs k n a (omega arith))

  pub overwrite-nil : (ys : List A) → overwrite 0 [] ys ≡ ys
  unfolding overwrite
  overwrite-nil [] = refl
  overwrite-nil (y ∷ ys) = refl

  pub overwrite-zero :
      (src ys : List A) → length src ≤ length ys → overwrite 0 src ys ≡ src ++ drop (length src) ys
  unfolding overwrite
  overwrite-zero [] ys h = overwrite-nil ys
  overwrite-zero (s ∷ src) [] h = absurd (omega arith)
  overwrite-zero (s ∷ src) (y ∷ ys) h = ap (◌∷◌ s) (overwrite-zero src ys (omega arith))

  pub overwrite-append :
      (xs src ys : List A)
      → length src ≤ length ys
      → overwrite (length xs) src (xs ++ ys) ≡ xs ++ (src ++ drop (length src) ys)
  unfolding overwrite
  overwrite-append [] src ys h = overwrite-zero src ys h
  overwrite-append (x ∷ xs) src ys h = ap (◌∷◌ x) (overwrite-append xs src ys h)

  drop-nil : (n : ℕ) → drop {A = A} n [] ≡ []
  drop-nil zero = refl
  drop-nil (suc n) = refl

  pub drop_all : (n : ℕ) (xs : List A) → length xs ≤ n → drop n xs ≡ []
  drop_all zero [] h = refl
  drop_all zero (x ∷ xs) h = absurd (omega arith)
  drop_all (suc n) [] h = refl
  drop_all (suc n) (x ∷ xs) h = drop_all n xs (omega arith)

  pub All-take {κ} : (P : A → Type κ) (n : ℕ) (xs : List A) → All P xs → All P (take n xs)
  All-take P zero xs h = tt
  All-take P (suc n) [] h = tt
  All-take P (suc n) (x ∷ xs) h = (h.0, All-take P n xs h.1)

  pub All-drop {κ} : (P : A → Type κ) (n : ℕ) (xs : List A) → All P xs → All P (drop n xs)
  All-drop P zero xs h = h
  All-drop P (suc n) [] h = tt
  All-drop P (suc n) (x ∷ xs) h = All-drop P n xs h.1

  pub All-append {κ} : (P : A → Type κ) (xs ys : List A) → All P xs → All P ys → All P (xs ++ ys)
  All-append P [] ys hx hy = hy
  All-append P (x ∷ xs) ys hx hy = (hx.0, All-append P xs ys hx.1 hy)

  pub drop-add : (a b : ℕ) (xs : List A) → drop (a + b) xs ≡ drop a (drop b xs)
  drop-add a zero xs = ap (λ k. drop k xs) (omega arith)
  drop-add a (suc b) [] = drop-nil (a + suc b) ∙ sym (drop-nil a)
  drop-add a (suc b) (x ∷ xs) =
      ap (λ k. drop k (x ∷ xs)) (let e : a + suc b ≡ suc (a + b) = omega arith in e)
      ∙ drop-add a b xs

  -- A part of a list stays the same when something is put behind the list.
  pub take-drop-append :
      (a k : ℕ) (xs ys : List A)
      → a + k ≤ length xs
      → take k (drop a (xs ++ ys)) ≡ take k (drop a xs)
  take-drop-append zero zero xs ys h = refl
  take-drop-append zero (suc k) [] ys h = absurd (omega arith)
  take-drop-append zero (suc k) (x ∷ xs) ys h =
      ap (◌∷◌ x) (take-drop-append zero k xs ys (omega arith))
  take-drop-append (suc a) k [] ys h = absurd (omega arith)
  take-drop-append (suc a) k (x ∷ xs) ys h = take-drop-append a k xs ys (omega arith)

module _ {ℓ} {A : Type ℓ} where
  abbrev pub flatten : List (List A) → List A
  flatten [] = []
  flatten (xs ∷ xss) = xs ++ flatten xss

  pub All-right {κ} : (P : A → Type κ) (xs ys : List A) → All P (xs ++ ys) → All P ys
  All-right P [] ys h = h
  All-right P (x ∷ xs) ys h = All-right P xs ys h.1

  pub take_all : (n : ℕ) (xs : List A) → length xs ≤ n → take n xs ≡ xs
  take_all zero [] h = refl
  take_all zero (x ∷ xs) h = absurd (omega arith)
  take_all (suc n) [] h = refl
  take_all (suc n) (x ∷ xs) h = ap (◌∷◌ x) (take_all n xs (omega arith))
