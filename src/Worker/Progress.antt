-- ===== src/Worker/Progress.antt =====
-- The goroutines of worker/pool.go cannot get stuck while tasks are left, and cannot go on for ever.
use garlic.Common.{
  ℕ, zero, suc, ◌+◌, ◌*◌, ◌-◌, ◌<◌, ◌≤◌, ◌≡◌, ◌≢◌, refl, sym, subst, ◌⊎◌, inl, inr, some, List, [],
  ◌∷◌, get_elem?, set, length, arith, zero-cases,
}
use garlic.Worker.{
  Task, Worker, receiving, holding, called, Pool, remove, receive, call, finish, Work, receives,
  calls, finishes, Reach,
}
use garlic.Worker.Inversion.{
  total, busy, total-set, length-remove, receive-some, call-some, finish-some,
}
use garlic.Worker.Invariant.{IsSound, Work-IsSound, Reach-IsSound}

-- Steps that a worker still has to take until it receives again.
abbrev left : Worker → ℕ
left receiving = 0
left (holding t) = 2
left (called t) = 1

abbrev measure : Pool → ℕ
measure p = 3 * length p.senders + total left p.workers

Work-measure : (p q : Pool) → Work p q → measure p ≡ measure q + 1
Work-measure p q (receives i j e) =
    let (t, ew, es, eq) = receive-some i j p q e in
    subst (λ z. measure p ≡ measure z + 1) (sym eq)
      (omega (
        arith,
        length-remove p.senders j t es,
        total-set left p.workers i receiving (holding t) ew,
      ))
Work-measure p q (calls i e) =
    let (t, ew, eq) = call-some i p q e in
    subst (λ z. measure p ≡ measure z + 1) (sym eq)
      (omega (arith, total-set left p.workers i (holding t) (called t) ew))
Work-measure p q (finishes i e) =
    let (t, ew, pos, eq) = finish-some i p q e in
    subst (λ z. measure p ≡ measure z + 1) (sym eq)
      (omega (arith, total-set left p.workers i (called t) receiving ew))

left-le-busy : (ws : List Worker) → total left ws ≤ 2 * total busy ws
left-le-busy [] = omega arith
left-le-busy (receiving ∷ ws) = omega (arith, left-le-busy ws)
left-le-busy (holding t ∷ ws) = omega (arith, left-le-busy ws)
left-le-busy (called t ∷ ws) = omega (arith, left-le-busy ws)

-- A worker that holds a task or has called one, unless all of them receive.
data Busiest (ws : List Worker) : Type 0 where
  all_receive : total busy ws ≡ 0 → Busiest ws
  one_holds : (i : ℕ) (t : Task) → get_elem? ws i ≡ some (holding t) → Busiest ws
  one_called : (i : ℕ) (t : Task) → get_elem? ws i ≡ some (called t) → Busiest ws

Busiest-cons : (ws : List Worker) → Busiest ws → Busiest (receiving ∷ ws)
Busiest-cons ws (all_receive e) = all_receive (omega arith)
Busiest-cons ws (one_holds i t e) = one_holds (suc i) t e
Busiest-cons ws (one_called i t e) = one_called (suc i) t e

busiest : (ws : List Worker) → Busiest ws
busiest [] = all_receive refl
busiest (receiving ∷ ws) = Busiest-cons ws (busiest ws)
busiest (holding t ∷ ws) = one_holds 0 t refl
busiest (called t ∷ ws) = one_called 0 t refl

total-pos :
    (ws : List Worker) (i : ℕ) (t : Task) → get_elem? ws i ≡ some (called t) → 0 < total busy ws
total-pos [] i t e = ground arith
total-pos (w ∷ ws) zero t e = ground arith
total-pos (w ∷ ws) (suc i) t e = omega (arith, total-pos ws i t e)

-- `Done` never takes the group below zero.
pub finish-Works :
    (size i : ℕ) (p : Pool) (t : Task)
    → IsSound size p
    → get_elem? p.workers i ≡ some (called t)
    → (q : Pool) × (finish i p ≡ some q)
unfolding finish
finish-Works size i p t s e = (
  record p { workers = set p.workers i receiving; wait_group = p.wait_group - 1 },
  rw e (ground (arith, s.counted, total-pos p.workers i t e)),
)

first_receives :
    (ws : List Worker) → 0 < length ws → total busy ws ≡ 0 → get_elem? ws 0 ≡ some receiving
first_receives [] h e = elim h [ ]
first_receives (receiving ∷ ws) h e = refl
first_receives (holding t ∷ ws) h e = absurd (omega arith)
first_receives (called t ∷ ws) h e = absurd (omega arith)

first_sends : (ts : List Task) → 0 < length ts → (t : Task) × (get_elem? ts 0 ≡ some t)
first_sends [] h = elim h [ ]
first_sends (t ∷ ts) h = (t, refl)

works_on :
    (size : ℕ) (p : Pool)
    → 0 < size
    → IsSound size p
    → p.wait_group ≢ 0
    → Busiest p.workers
    → (q : Pool) × Work p q
unfolding receive call
works_on size p pos s more (one_holds i t e) =
    (record p { workers = set p.workers i (called t); ran = t ∷ p.ran }, calls i (rw e))
works_on size p pos s more (one_called i t e) =
    let (q, f) = finish-Works size i p t s e in (q, finishes i f)
works_on size p pos s more (all_receive quiet) =
    let ew = first_receives p.workers (omega (arith, s.sized)) quiet in
    let (t, es) = first_sends p.senders (omega (arith, s.counted)) in
    (
      record p { workers = set p.workers 0 (holding t); senders = remove 0 p.senders },
      receives 0 0 (rw ew (rw es)),
    )

-- `n` steps of the goroutines, with no call of `Submit` among them.
pub data Runs (p : Pool) : ℕ → Pool → Type 0 where
  none_yet : Runs p 0 p
  one_more : {n : ℕ} {q r : Pool} → Runs p n q → Work q r → Runs p (suc n) r

Runs-measure : {p q : Pool} {n : ℕ} → Runs p n q → measure p ≡ measure q + n
Runs-measure none_yet = omega arith
Runs-measure (one_more {n} {q} {r} rs w) = omega (arith, Runs-measure rs, Work-measure q r w)

Runs-IsSound : {p q : Pool} {n : ℕ} (size : ℕ) → IsSound size p → Runs p n q → IsSound size q
Runs-IsSound size s none_yet = s
Runs-IsSound size s (one_more {n} {q} {r} rs w) = Work-IsSound size q r w (Runs-IsSound size s rs)

-- In a pool with a worker or more, the goroutines take at most three steps for each task that the
-- group counts, in any interleaving, and as long as the group is not at zero one of them can take a
-- step: with no further `Submit`, and tasks that return, `WaitAll` returns.
pub wait_all_returns :
    (size : ℕ) (p : Pool)
    → 0 < size
    → Reach size p
    → (n : ℕ) (q : Pool) → Runs p n q
    → (n ≤ 3 * p.wait_group) × ((q.wait_group ≡ 0) ⊎ ((r : Pool) × Work q r))
wait_all_returns size p pos r n q rs =
    let s = Reach-IsSound r in
    (
      omega (arith, Runs-measure rs, s.counted, left-le-busy p.workers),
      elim (zero-cases q.wait_group) [
        | inl done ↦ inl done
        | inr more ↦ inr (works_on size q pos (Runs-IsSound size s rs) more (busiest q.workers))
      ],
    )

-- A pool of size zero has no worker to receive: no send of `Submit` ever ends.
pub new_pool_zero-stuck : (p q : Pool) → Reach 0 p → Work p q → ⊥
new_pool_zero-stuck p q r w = no_worker p.workers (Reach-IsSound r).sized (acts w)
  where
    no_worker :
        (ws : List Worker)
        → length ws ≡ 0
        → ((i : ℕ) × (x : Worker) × (get_elem? ws i ≡ some x))
        → ⊥
    no_worker [] e (i, x, h) = cc
    no_worker (x ∷ ws) e h = absurd (omega arith)

    acts : Work p q → (i : ℕ) × (x : Worker) × (get_elem? p.workers i ≡ some x)
    acts (receives i j e) = (i, receiving, (receive-some i j p q e).1)
    acts (calls i e) = let (t, ew, eq) = call-some i p q e in (i, holding t, ew)
    acts (finishes i e) = let (t, ew, pos, eq) = finish-some i p q e in (i, called t, ew)
