-- ===== src/Bench/Stats/Order.antt =====
-- Sorting samples, and what the order gives the summary.
use mathlib.Core.List.{append-nil}
use pulsemq_cli.Base.{
  ℕ, zero, suc, ◌*◌, ◌≤◌, ◌<◌, List, [], ◌∷◌, ◌++◌, All, length, get_or, leb, ◌≡◌, refl, sym, ap,
  ◌∙◌, arith, inl, inr, Bool-cases,
}
use pulsemq_cli.Bench.Stats.{insert, sort_unstable, sum}

abbrev pub Sorted : List ℕ → Type 0
Sorted [] = Unit {0}
Sorted (x ∷ xs) = All (λ y. x ≤ y) xs × Sorted xs

insert-All : (P : ℕ → Type 0) (x : ℕ) (ys : List ℕ) → P x → All P ys → All P (insert x ys)
unfolding insert
insert-All P x [] h k = (h, tt)
insert-All P x (y ∷ ys) h k = elim (Bool-cases (leb x y)) [
  | inl e ↦ rw e (h, k)
  | inr e ↦ rw e (k.0, insert-All P x ys h k.1)
]

pub All-weaken : (P Q : ℕ → Type 0) (xs : List ℕ) → ((x : ℕ) → P x → Q x) → All P xs → All Q xs
All-weaken P Q [] f h = tt
All-weaken P Q (x ∷ xs) f h = (f x h.0, All-weaken P Q xs f h.1)

insert-Sorted : (x : ℕ) (ys : List ℕ) → Sorted ys → Sorted (insert x ys)
unfolding insert
insert-Sorted x [] h = (tt, tt)
insert-Sorted x (y ∷ ys) h = elim (Bool-cases (leb x y)) [
  | inl e ↦
      let l : x ≤ y = ground arith in
      rw e ((l, All-weaken (λ z. y ≤ z) (λ z. x ≤ z) ys (λ z k. omega arith) h.0), h)
  | inr e ↦
      let l : y ≤ x = ground arith in
      rw e (insert-All (λ z. y ≤ z) x ys l h.0, insert-Sorted x ys h.1)
]

pub sort_unstable-Sorted : (xs : List ℕ) → Sorted (sort_unstable xs)
unfolding sort_unstable
sort_unstable-Sorted [] = tt
sort_unstable-Sorted (x ∷ xs) = insert-Sorted x (sort_unstable xs) (sort_unstable-Sorted xs)

insert-insert : (x y : ℕ) (zs : List ℕ) → insert x (insert y zs) ≡ insert y (insert x zs)
unfolding insert
insert-insert x y [] = ground arith
insert-insert x y (z ∷ zs) = ground (arith, insert-insert x y zs)

sort-append-cons :
    (xs : List ℕ) (y : ℕ) (ys : List ℕ)
    → sort_unstable (xs ++ (y ∷ ys)) ≡ insert y (sort_unstable (xs ++ ys))
unfolding sort_unstable
sort-append-cons [] y ys = refl
sort-append-cons (x ∷ xs) y ys =
    ap (insert x) (sort-append-cons xs y ys) ∙ insert-insert x y (sort_unstable (xs ++ ys))

pub sort_append_comm : (xs ys : List ℕ) → sort_unstable (xs ++ ys) ≡ sort_unstable (ys ++ xs)
unfolding sort_unstable
sort_append_comm [] ys = ap sort_unstable (sym (append-nil ys))
sort_append_comm (x ∷ xs) ys =
    ap (insert x) (sort_append_comm xs ys) ∙ sym (sort-append-cons ys x xs)

length-insert : (x : ℕ) (ys : List ℕ) → length (insert x ys) ≡ suc (length ys)
unfolding insert
length-insert x [] = refl
length-insert x (y ∷ ys) = ground (arith, length-insert x ys)

pub length-sort_unstable : (xs : List ℕ) → length (sort_unstable xs) ≡ length xs
unfolding sort_unstable
length-sort_unstable [] = refl
length-sort_unstable (x ∷ xs) =
    length-insert x (sort_unstable xs) ∙ ap suc (length-sort_unstable xs)

pub get_or-All :
    (P : ℕ → Type 0) (xs : List ℕ) (i : ℕ) → i < length xs → All P xs → P (get_or xs i 0)
get_or-All P [] i l h = absurd (omega arith)
get_or-All P (x ∷ xs) zero l h = h.0
get_or-All P (x ∷ xs) (suc i) l h = get_or-All P xs i (omega arith) h.1

pub get_or_mono :
    (xs : List ℕ) (i j : ℕ) → Sorted xs → i ≤ j → j < length xs → get_or xs i 0 ≤ get_or xs j 0
get_or_mono [] i j s l b = absurd (omega arith)
get_or_mono (x ∷ xs) zero zero s l b = omega arith
get_or_mono (x ∷ xs) zero (suc j) s l b = get_or-All (λ y. x ≤ y) xs j (omega arith) s.0
get_or_mono (x ∷ xs) (suc i) zero s l b = absurd (omega arith)
get_or_mono (x ∷ xs) (suc i) (suc j) s l b = get_or_mono xs i j s.1 (omega arith) (omega arith)

pub All-at :
    (P : ℕ → Type 0) (xs : List ℕ) → ((i : ℕ) → i < length xs → P (get_or xs i 0)) → All P xs
All-at P [] h = tt
All-at P (x ∷ xs) h = (h 0 (omega arith), All-at P xs (λ i l. h (suc i) (omega arith)))

pub sum_le : (m : ℕ) (xs : List ℕ) → All (λ x. x ≤ m) xs → sum xs ≤ m * length xs
unfolding sum
sum_le m [] h = omega arith
sum_le m (x ∷ xs) h = grind (arith, sum_le m xs h.1)

pub le_sum : (m : ℕ) (xs : List ℕ) → All (λ x. m ≤ x) xs → m * length xs ≤ sum xs
unfolding sum
le_sum m [] h = omega arith
le_sum m (x ∷ xs) h = grind (arith, le_sum m xs h.1)

of_insert : (P : ℕ → Type 0) (x : ℕ) (ys : List ℕ) → All P (insert x ys) → P x × All P ys
unfolding insert
of_insert P x [] h = h
of_insert P x (y ∷ ys) h = elim (Bool-cases (leb x y)) [
  | inl e ↦ rw e at h
  | inr e ↦
      let g : All P (y ∷ insert x ys) = rw e at h in
      let k = of_insert P x ys g.1 in (k.0, (g.0, k.1))
]

pub to_sort : (P : ℕ → Type 0) (xs : List ℕ) → All P xs → All P (sort_unstable xs)
unfolding sort_unstable
to_sort P [] h = tt
to_sort P (x ∷ xs) h = insert-All P x (sort_unstable xs) h.0 (to_sort P xs h.1)

pub of_sort : (P : ℕ → Type 0) (xs : List ℕ) → All P (sort_unstable xs) → All P xs
unfolding sort_unstable
of_sort P [] h = tt
of_sort P (x ∷ xs) h = let k = of_insert P x (sort_unstable xs) h in (k.0, of_sort P xs k.1)
