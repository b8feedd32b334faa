-- ===== src/Planner/Workers.antt =====
-- The array of workers of YAMA/src/funcionesYAMA.c: one worker changed, all changed alike, and how
-- often a block stands in the lists of the workers.
use tp_2017_2c_yatpos.Base.{
  ℕ, zero, suc, ◌+◌, ◌≡◌, ◌∙◌, refl, ap, ap2, sym, subst, length, List, [], ◌∷◌, ◌++◌, some, arith,
  get_elem?, set, map, All, ◌==◌, if◌then◌else◌, some_inj,
}
use tp_2017_2c_yatpos.Planner.{Worker}

pub All-get_elem? {ℓ} :
    {A : Type 0} (P : A → Type ℓ) (xs : List A) (i : ℕ) {x : A}
    → All P xs
    → get_elem? xs i ≡ some x
    → P x
All-get_elem? P [] i h e = ground arith
All-get_elem? P (x ∷ xs) zero (h, hs) e = subst P (some_inj e) h
All-get_elem? P (x ∷ xs) (suc i) (h, hs) e = All-get_elem? P xs i hs e

pub All-map {ℓ κ} :
    {A : Type 0} (P : A → Type ℓ) (Q : A → Type κ) (f : A → A) (xs : List A)
    → ((x : A) → P x → Q (f x))
    → All P xs
    → All Q (map f xs)
All-map P Q f [] g h = tt
All-map P Q f (x ∷ xs) g (h, hs) = (g x h, All-map P Q f xs g hs)

pub map-set :
    {A B : Type 0} (f : A → B) (xs : List A) (i : ℕ) {x : A} (y : A)
    → get_elem? xs i ≡ some x
    → f y ≡ f x
    → map f (set xs i y) ≡ map f xs
map-set f [] i y e h = refl
map-set f (x ∷ xs) zero y e h = ap (λ b. b ∷ map f xs) (h ∙ ap f (sym (some_inj e)))
map-set f (x ∷ xs) (suc i) y e h = ap (◌∷◌ (f x)) (map-set f xs i y e h)

pub map-map_same :
    {A B : Type 0} (f : A → A) (g : A → B) (xs : List A)
    → ((x : A) → g (f x) ≡ g x)
    → map g (map f xs) ≡ map g xs
map-map_same f g [] h = refl
map-map_same {B = B} f g (x ∷ xs) h = ap2 (λ b (bs : List B). b ∷ bs) (h x) (map-map_same f g xs h)

pub get_elem?-map_inv :
    {A B : Type 0} (f : A → B) (xs : List A) (i : ℕ) {y : B}
    → get_elem? (map f xs) i ≡ some y
    → (x : A) × (get_elem? xs i ≡ some x) × (f x ≡ y)
get_elem?-map_inv f [] i e = ground arith
get_elem?-map_inv f (x ∷ xs) zero e = (x, refl, some_inj e)
get_elem?-map_inv f (x ∷ xs) (suc i) e = get_elem?-map_inv f xs i e

pub length-map : {A B : Type 0} (f : A → B) (xs : List A) → length (map f xs) ≡ length xs
length-map f [] = refl
length-map f (x ∷ xs) = ap suc (length-map f xs)

-- How often `n` stands in a list, and in the lists of all workers.
unfoldable pub count : ℕ → List ℕ → ℕ
count n [] = 0
count n (m ∷ ms) = (if n == m then 1 else 0) + count n ms

unfoldable pub times : ℕ → List Worker → ℕ
unfolding count
times n [] = 0
times n (w ∷ ws) = count n w.bloque + times n ws

pub count-snoc :
    (n m : ℕ) (ms : List ℕ) → count n (ms ++ m ∷ []) ≡ count n ms + (if n == m then 1 else 0)
unfolding count
count-snoc n m [] = omega arith
count-snoc n m (k ∷ ms) = omega (arith, count-snoc n m ms)

pub times-set :
    (n : ℕ) (ws : List Worker) (i : ℕ) {w : Worker} (v : Worker)
    → get_elem? ws i ≡ some w
    → times n (set ws i v) + count n w.bloque ≡ times n ws + count n v.bloque
unfolding times
times-set n [] i v e = ground arith
times-set n (u ∷ ws) zero v e =
    let same = ap (λ (x : Worker). count n x.bloque) (some_inj e) in omega (arith, same)
times-set n (u ∷ ws) (suc i) v e = omega (arith, times-set n ws i v e)

pub times-map :
    (n : ℕ) (f : Worker → Worker) (ws : List Worker)
    → ((w : Worker) → (f w).bloque ≡ w.bloque)
    → times n (map f ws) ≡ times n ws
unfolding times
times-map n f [] h = refl
times-map n f (w ∷ ws) h = ap2 ◌+◌ (ap (count n) (h w)) (times-map n f ws h)
