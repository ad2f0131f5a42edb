-- ===== src/Runner/ActiveRun/Workers.antt =====
-- The map of workers under resizing.
use mathlib.Core.List.{reverse, reverse-cons, reverse-reverse, append-nil, append_assoc}
use pg_gobench.Base.{
  ℕ, zero, suc, ◌+◌, ◌-◌, ◌≤◌, ◌<◌, ◌≡◌, refl, sym, ap, subst, ◌∙◌, inl, inr, true, false, List, [],
  ◌∷◌, ◌++◌, ltb, leb, Bool-cases, length, take, drop, length-append, pos, arith,
}
use pg_gobench.Runner.Stats.{set_configured_clients}
use pg_gobench.Runner.ActiveRun.{
  ActiveRun, delete, start_worker, start_loop, stop_loop, resize_workers,
}

-- Ascending numbers, from the first number on and below the last.
abbrev pub IsAscending : ℕ → List ℕ → ℕ → Type 0
IsAscending a [] b = a ≤ b
IsAscending a (x ∷ xs) b = (a ≤ x) × IsAscending (suc x) xs b

abbrev pub count_up : ℕ → ℕ → List ℕ
count_up a zero = []
count_up a (suc n) = a ∷ count_up (suc a) n

IsAscending-le : (a b : ℕ) (xs : List ℕ) → IsAscending a xs b → a ≤ b
IsAscending-le a b [] h = h
IsAscending-le a b (x ∷ xs) (l, h) = let r = IsAscending-le (suc x) b xs h in omega arith

IsAscending-last :
    (a b z : ℕ) (xs : List ℕ) → IsAscending a (xs ++ z ∷ []) b → IsAscending a xs z × (z < b)
IsAscending-last a b z [] (l, h) = (l, h)
IsAscending-last a b z (x ∷ xs) (l, h) =
    let (i, m) = IsAscending-last (suc x) b z xs h in ((l, i), m)

delete-last : (a z : ℕ) (xs : List ℕ) → IsAscending a xs z → delete z (xs ++ z ∷ []) ≡ xs
unfolding delete
delete-last a z [] h = ground arith
delete-last a z (x ∷ xs) (l, h) =
    let rest = delete-last (suc x) z xs h in
    let below = IsAscending-le (suc x) z xs h in ground (arith, rest)

take-append : (n : ℕ) (xs ys : List ℕ) → n ≤ length xs → take n (xs ++ ys) ≡ take n xs
take-append zero xs ys l = refl
take-append (suc n) [] ys l = ground arith
take-append (suc n) (x ∷ xs) ys l = ap (λ t. x ∷ t) (take-append n xs ys (omega arith))

drop-append : (n : ℕ) (xs ys : List ℕ) → n ≤ length xs → drop n (xs ++ ys) ≡ drop n xs ++ ys
drop-append zero xs ys l = refl
drop-append (suc n) [] ys l = ground arith
drop-append (suc n) (x ∷ xs) ys l = drop-append n xs ys (omega arith)

take-all : (n : ℕ) (xs : List ℕ) → length xs ≤ n → (take n xs ≡ xs) × (drop n xs ≡ [])
take-all zero [] l = (refl, refl)
take-all zero (x ∷ xs) l = ground arith
take-all (suc n) [] l = (refl, refl)
take-all (suc n) (x ∷ xs) l = let (t, d) = take-all n xs (omega arith) in (ap (λ t. x ∷ t) t, d)

-- The map after resizing down: the lowest ids stay, and the contexts of the others are cancelled.
abbrev pub shrunk : ℕ → ActiveRun → ActiveRun
shrunk n r = record r { workers = take n r.workers; cancelled = drop n r.workers ++ r.cancelled }

shrunk-all : (n : ℕ) (r : ActiveRun) → length r.workers ≤ n → shrunk n r ≡ r
shrunk-all n r l = let (t, d) = take-all n r.workers l in cc

shrunk-last :
    (n : ℕ) (r : ActiveRun) (xs : List ℕ) (z : ℕ)
    → r.workers ≡ xs ++ z ∷ []
    → n ≤ length xs
    → shrunk n (record r { workers = xs; cancelled = z ∷ r.cancelled }) ≡ shrunk n r
shrunk-last n r xs z e l =
    let t = take-append n xs (z ∷ []) l in
    let d = drop-append n xs (z ∷ []) l in
    let a = append_assoc (drop n xs) (z ∷ []) r.cancelled in cc

stop_loop-shrunk :
    (zs : List ℕ) (n b : ℕ) (r : ActiveRun)
    → r.workers ≡ reverse zs
    → IsAscending 0 r.workers b
    → stop_loop zs (pos n) r ≡ shrunk n r
unfolding stop_loop
stop_loop-shrunk [] n b r e h =
    sym (shrunk-all n r (subst (λ ws. length ws ≤ n) (sym e) (omega arith)))
stop_loop-shrunk (z ∷ zs) n b r e h =
    let w = e ∙ reverse-cons z zs in
    let (asc, _) = IsAscending-last 0 b z (reverse zs) (subst (λ ws. IsAscending 0 ws b) w h) in
    let gone = ap (delete z) w ∙ delete-last 0 z (reverse zs) asc in
    let longer = ap (λ ws. length ws) w ∙ length-append (reverse zs) (z ∷ []) in
    let rest =
      stop_loop-shrunk zs n z
        (record r { workers = delete z r.workers; cancelled = z ∷ r.cancelled }) gone
        (subst (λ ws. IsAscending 0 ws z) (sym gone) asc) in
    elim (Bool-cases (leb (length r.workers + 0) (n + 0))) [
      | inl t ↦ rw t (sym (shrunk-all n r (ground (arith, t))))
      | inr f ↦ rw f (
          rest
          ∙ ap (λ ws. shrunk n (record r { workers = ws; cancelled = z ∷ r.cancelled })) gone
          ∙ shrunk-last n r (reverse zs) z w (ground (arith, f, longer)))
    ]

-- The map after resizing up: the new workers have the ids from the next one on.
abbrev pub HasStarted : ℕ → ActiveRun → ActiveRun → Type 0
HasStarted k r r' =
    (r'.workers ≡ r.workers ++ count_up r.next_id k)
    × (r'.goroutines ≡ r.goroutines ++ count_up r.next_id k)
    × (r'.next_id ≡ r.next_id + k)
    × (r'.cancelled ≡ r.cancelled)
    × (r'.final ≡ r.final)

started-none : (r : ActiveRun) → HasStarted 0 r r
started-none r =
    (sym (append-nil r.workers), sym (append-nil r.goroutines), omega arith, refl, refl)

started-more :
    (k : ℕ) (r r' : ActiveRun) → HasStarted k (start_worker r) r' → HasStarted (suc k) r r'
unfolding start_worker
started-more k r r' (w, g, i, c, f) = (
  w ∙ append_assoc r.workers (r.next_id ∷ []) (count_up (suc r.next_id) k),
  g ∙ append_assoc r.goroutines (r.next_id ∷ []) (count_up (suc r.next_id) k),
  omega (arith, i),
  c,
  f,
)

started-enough :
    (n : ℕ) (r : ActiveRun) → n ≤ length r.workers → HasStarted (n - length r.workers) r r
started-enough n r l =
    let none_missing : n - length r.workers ≡ 0 = omega arith in rw none_missing (started-none r)

start_loop-HasStarted :
    (fuel n : ℕ) (r : ActiveRun)
    → n ≤ length r.workers + fuel
    → HasStarted (n - length r.workers) r (start_loop fuel (pos n) r)
unfolding start_loop start_worker
start_loop-HasStarted zero n r l = started-enough n r (omega arith)
start_loop-HasStarted (suc fuel) n r l =
    let longer = length-append r.workers (r.next_id ∷ []) in
    let rest = start_loop-HasStarted fuel n (start_worker r) (omega (arith, longer)) in
    elim (Bool-cases (ltb (length r.workers + 0) (n + 0))) [
      | inl t ↦
          let more =
            started-more (n - length (start_worker r).workers) r
              (start_loop fuel (pos n) (start_worker r)) rest in
          let one_less : suc (n - length (start_worker r).workers) ≡ n - length r.workers =
            ground (arith, t, longer) in
          rw t
            (subst (λ k. HasStarted k r (start_loop fuel (pos n) (start_worker r))) one_less more)
      | inr f ↦ rw f (started-enough n r (ground (arith, f)))
    ]

start_loop-enough :
    (fuel n : ℕ) (r : ActiveRun) → n ≤ length r.workers → start_loop fuel (pos n) r ≡ r
unfolding start_loop
start_loop-enough zero n r l = refl
start_loop-enough (suc fuel) n r l =
    let off : ltb (length r.workers + 0) (n + 0) ≡ false = ground arith in rw off refl

-- Resizing to no more clients than there are keeps the workers with the lowest ids, as many as
-- asked, cancels the contexts of all the others, and starts nothing.
pub resize_workers-shrunk :
    (n b : ℕ) (r : ActiveRun)
    → IsAscending 0 r.workers b
    → n ≤ length r.workers
    → resize_workers (pos n) r
      ≡ shrunk n (record r { stats = set_configured_clients (pos n) r.stats })
unfolding resize_workers
resize_workers-shrunk n b r h l =
    let set = record r { stats = set_configured_clients (pos n) r.stats } in
    let same = start_loop-enough n n set l in
    let fewer = stop_loop-shrunk (reverse r.workers) n b set (sym (reverse-reverse r.workers)) h in
    rw same (elim (Bool-cases (leb (length r.workers + 0) (n + 0))) [
      | inl t ↦ rw t (sym (shrunk-all n set (ground (arith, t))))
      | inr f ↦ rw f fewer
    ])

count_up-length : (a n : ℕ) → length (count_up a n) ≡ n
count_up-length a zero = refl
count_up-length a (suc n) = omega (arith, count_up-length (suc a) n)

-- Resizing to no fewer clients than there are cancels nothing and starts the missing workers, with
-- the next free ids in order.
pub resize_workers-HasStarted :
    (n : ℕ) (r : ActiveRun)
    → length r.workers ≤ n
    → HasStarted (n - length r.workers) r (resize_workers (pos n) r)
unfolding resize_workers
resize_workers-HasStarted n r l =
    let set = record r { stats = set_configured_clients (pos n) r.stats } in
    let grown = start_loop-HasStarted n n set (omega arith) in
    let count =
      ap (λ ws. length ws) grown.0
      ∙ length-append r.workers (count_up r.next_id (n - length r.workers)) in
    let fits : leb (length (start_loop n (pos n) set).workers + 0) (n + 0) ≡ true =
      ground (arith, count, count_up-length r.next_id (n - length r.workers)) in
    rw fits grown
