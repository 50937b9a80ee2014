-- ===== src/Common/Monad.antt =====
-- What a Rust call can do: return, return an error, or panic. `stuck` is a loop that did not end
-- within the fuel of its model.
use mathlib.Core.Path.{◌≡◌, refl}
use mathlib.Core.Bool.{Bool, true, false}
use mathlib.Core.Logic.{◌⊎◌, inl, inr}
use mathlib.Core.List.{Memᴰ}
use mathlib.Core.List.Memᴰ
use mathlib.Core.List.{List, [], ◌∷◌}
use mathlib.Core.Option.{Option, none, some}

pub data Outcome {ℓ} (E A : Type ℓ) : Type ℓ where
  ok : A → Outcome E A
  err : E → Outcome E A
  panic stuck : Outcome E A

-- The operator `?`: what is not a value ends the block.
infixl 5 ◌>>=◌ ◌>>◌
abbrev pub ◌>>=◌ {ℓ} : {E A B : Type ℓ} → Outcome E A → (A → Outcome E B) → Outcome E B
panic >>= next = panic
stuck >>= next = stuck
err reason >>= next = err reason
ok value >>= next = next value

abbrev pub ◌>>◌ {ℓ} : {E B : Type ℓ} → Outcome E (Unit {ℓ}) → Outcome E B → Outcome E B
first >> after = first >>= λ done. after

-- `Option::ok_or`, `Result::map_err`, and `assert!`.
abbrev pub ok_or {ℓ} : {E A : Type ℓ} → Option A → E → Outcome E A
ok_or none e = err e
ok_or (some a) e = ok a

abbrev pub map_err {ℓ} : {E F A : Type ℓ} → (E → F) → Outcome E A → Outcome F A
map_err f (ok a) = ok a
map_err f (err e) = err (f e)
map_err f panic = panic
map_err f stuck = stuck

abbrev pub unwrap {ℓ} : {E A : Type ℓ} → Option A → Outcome E A
unwrap none = panic
unwrap (some a) = ok a

abbrev pub guard {ℓ} : {E : Type ℓ} → Bool → E → Outcome E (Unit {ℓ})
guard true e = ok tt
guard false e = err e

abbrev pub assert {ℓ} : {E : Type ℓ} → Bool → Outcome E (Unit {ℓ})
assert true = ok tt
assert false = panic

-- `iter().map(f).collect::<Result<Vec<_>, _>>()`: the first error ends the walk.
unfoldable pub map_ok {ℓ} : {E A B : Type ℓ} → (A → Outcome E B) → List A → Outcome E (List B)
map_ok f [] = ok []
map_ok f (x ∷ xs) = do y ← f x; ys ← map_ok f xs; ok (y ∷ ys)

-- The parts of a block that returns a value.
pub >>=-eq-ok {ℓ} :
    {E A B : Type ℓ} (call : Outcome E A) (next : A → Outcome E B) {result : B}
    → (call >>= next) ≡ ok result
    → (value : A) × (call ≡ ok value) × (next value ≡ ok result)
>>=-eq-ok panic next h = cc
>>=-eq-ok stuck next h = cc
>>=-eq-ok (err reason) next h = cc
>>=-eq-ok (ok value) next h = (value, refl, h)

-- A mapped call that always succeeds.
pub map_ok-ok {ℓ} :
    {E A B : Type ℓ} (f : A → Outcome E B) (g : A → B)
    → ((a : A) → f a ≡ ok (g a))
    → (xs : List A) → map_ok f xs ≡ ok (mathlib.Core.List.map g xs)
unfolding map_ok
map_ok-ok f g h [] = refl
map_ok-ok f g h (x ∷ xs) = cc (h x, map_ok-ok f g h xs)

pub guard->>=-eq-ok {ℓ} :
    {E A : Type ℓ} (b : Bool) (e : E) (f : Unit {ℓ} → Outcome E A) {a : A}
    → (guard b e >>= f) ≡ ok a
    → (b ≡ true) × (f tt ≡ ok a)
guard->>=-eq-ok true e f h = (refl, h)
guard->>=-eq-ok false e f h = cc

pub assert->>=-eq-ok {ℓ} :
    {E A : Type ℓ} (b : Bool) (f : Unit {ℓ} → Outcome E A) {a : A}
    → (assert b >>= f) ≡ ok a
    → (b ≡ true) × (f tt ≡ ok a)
assert->>=-eq-ok true f h = (refl, h)
assert->>=-eq-ok false f h = cc

pub map_err-eq-ok {ℓ} :
    {E G A : Type ℓ} (f : E → G) (m : Outcome E A) {a : A} → map_err f m ≡ ok a → m ≡ ok a
map_err-eq-ok f (ok a) h = cc
map_err-eq-ok f (err e) h = cc
map_err-eq-ok f panic h = cc
map_err-eq-ok f stuck h = cc

pub eq-ok_unique {ℓ} : {E A : Type ℓ} (m : Outcome E A) {a b : A} → m ≡ ok a → m ≡ ok b → a ≡ b
eq-ok_unique (ok x) h k = cc
eq-ok_unique (err e) h k = cc
eq-ok_unique panic h k = cc
eq-ok_unique stuck h k = cc

-- Two lists of one length, related place by place.
pub data Each {ℓ} {A B : Type ℓ} (R : A → B → Type ℓ) : List A → List B → Type ℓ where
  none_left : Each R [] []
  and_each :
      {x : A} {y : B} {xs : List A} {ys : List B} → R x y → Each R xs ys → Each R (x ∷ xs) (y ∷ ys)

pub map_ok-Each {ℓ} :
    {E A B : Type ℓ} (f : A → Outcome E B) (xs : List A) {ys : List B}
    → map_ok f xs ≡ ok ys
    → Each (λ x y. f x ≡ ok y) xs ys
unfolding map_ok
map_ok-Each f [] {ys} h =
    let same : [] ≡ ys = cc h in
    mathlib.Core.Path.subst (λ l. Each (λ x y. f x ≡ ok y) [] l) same none_left
map_ok-Each f (x ∷ xs) {ys} h =
    let (y, first, h1) = >>=-eq-ok (f x) (λ y. map_ok f xs >>= λ l. ok (y ∷ l)) h in
    let (l, rest, h2) = >>=-eq-ok (map_ok f xs) (λ l. ok (y ∷ l)) h1 in
    let same : y ∷ l ≡ ys = cc h2 in
    mathlib.Core.Path.subst (λ l. Each (λ x y. f x ≡ ok y) (x ∷ xs) l) same
      (and_each first (map_ok-Each f xs rest))

pub Each-map {ℓ} :
    {A B : Type ℓ} {R S : A → B → Type ℓ} {xs : List A} {ys : List B}
    → ((x : A) (y : B) → R x y → S x y)
    → Each R xs ys
    → Each S xs ys
Each-map f none_left = none_left
Each-map f (and_each {x} {y} r rest) = and_each (f x y r) (Each-map f rest)

-- A function of the two that agrees place by place agrees on the lists.
pub Each-eq {ℓ} :
    {A B C : Type ℓ} (f : A → C) (g : B → C) {R : A → B → Type ℓ} {xs : List A} {ys : List B}
    → ((x : A) (y : B) → R x y → g y ≡ f x)
    → Each R xs ys
    → mathlib.Core.List.map g ys ≡ mathlib.Core.List.map f xs
Each-eq f g same none_left = refl
Each-eq f g same (and_each {x} {y} r rest) = cc (same x y r, Each-eq f g same rest)

-- A walk over calls that return or fail: all return, or the first error is that of one of them.
pub map_ok-cases {ℓ} :
    {E A B : Type ℓ} (f : A → Outcome E B)
    → ((a : A) → ((b : B) × (f a ≡ ok b)) ⊎ ((e : E) × (f a ≡ err e)))
    → (xs : List A)
    → ((ys : List B) × (map_ok f xs ≡ ok ys))
      ⊎ ((e : E) × (x : A) × Memᴰ x xs × (f x ≡ err e) × (map_ok f xs ≡ err e))
unfolding map_ok
map_ok-cases f answers [] = inl ([], refl)
map_ok-cases f answers (x ∷ xs) = elim (answers x) [
  | inl (y, at) ↦ elim (map_ok-cases f answers xs) [
    | inl (ys, rest) ↦ inl ((y ∷ ys), rw (at, rest) refl)
    | inr (e, z, m, failed, rest) ↦ inr (e, z, Memᴰ.tail m, failed, rw (at, rest) refl)
  ]
  | inr (e, failed) ↦ inr (e, x, Memᴰ.head refl, failed, rw (failed) refl)
]
