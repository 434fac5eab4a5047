-- ===== src/Prelude/Every.antt =====
-- A predicate on every member of a list.
use mathlib.Core.List.{List, [], ◌∷◌, ◌++◌}

abbrev pub All : {A : Type 0} → (A → Type 0) → List A → Type 0
All P [] = Unit
All P (x ∷ xs) = P x × All P xs

pub All-append_left : {A : Type 0} (P : A → Type 0) (xs ys : List A) → All P (xs ++ ys) → All P xs
All-append_left P [] ys h = tt
All-append_left P (x ∷ xs) ys h = (h.0, All-append_left P xs ys h.1)

pub All-append_last :
    {A : Type 0} (P : A → Type 0) (xs : List A) (y : A) → All P (xs ++ y ∷ []) → P y
All-append_last P [] y h = h.0
All-append_last P (x ∷ xs) y h = All-append_last P xs y h.1

pub All-both :
    {A : Type 0} (P Q R : A → Type 0) (xs : List A)
    → ((a : A) → P a → Q a → R a)
    → All P xs
    → All Q xs
    → All R xs
All-both P Q R [] f p q = tt
All-both P Q R (x ∷ xs) f p q = (f x p.0 q.0, All-both P Q R xs f p.1 q.1)

pub All-always : {A : Type 0} (P : A → Type 0) → ((a : A) → P a) → (xs : List A) → All P xs
All-always P p [] = tt
All-always P p (x ∷ xs) = (p x, All-always P p xs)
