-- ===== src/Worker/Invariant.antt =====
-- What holds in every reachable state of the pool of worker/pool.go, and what that says of `WaitAll`.
use garlic.Common.{
  ℕ, zero, suc, ◌+◌, ◌-◌, ◌<◌, ◌≤◌, ◌≡◌, refl, sym, ap, subst, some, List, [], ◌∷◌, get_elem?, set,
  length, length-set, arith, ◌∙◌,
}
use garlic.Worker.{
  Task, Worker, receiving, holding, called, Pool, spawn, new_pool, submit, remove, Work, receives,
  calls, finishes, submits, works, Reach, start, later,
}
use garlic.Worker.Inversion.{
  count, total, busy, holds, total-set, length-remove, count-remove, receive-some, call-some,
  finish-some,
}

-- The group counts the sends that wait and the workers that are busy, and each task that was
-- submitted is waiting, held or has run.
pub record IsSound (size : ℕ) (p : Pool) : Type 0 where
  pub sized : length p.workers ≡ size
  pub counted : p.wait_group ≡ length p.senders + total busy p.workers
  pub kept :
      (a : Task)
      → count a p.submitted ≡ count a p.ran + count a p.senders + total (holds a) p.workers

length-spawn : (n : ℕ) → length (spawn n) ≡ n
unfolding spawn
length-spawn zero = refl
length-spawn (suc n) = ap suc (length-spawn n)

total-spawn : (w : Worker → ℕ) (n : ℕ) → w receiving ≡ 0 → total w (spawn n) ≡ 0
unfolding spawn
total-spawn w zero h = refl
total-spawn w (suc n) h = omega (arith, total-spawn w n h)

new_pool-IsSound : (size : ℕ) → IsSound size (new_pool size)
unfolding new_pool
new_pool-IsSound size = record {
  sized = length-spawn size;
  counted = omega (arith, total-spawn busy size refl);
  kept = λ a. omega (arith, total-spawn (holds a) size refl);
}

submit-IsSound : (size : ℕ) (t : Task) (p : Pool) → IsSound size p → IsSound size (submit t p)
unfolding submit
submit-IsSound size t p s = record {
  sized = s.sized;
  counted = omega (arith, s.counted);
  kept = λ a. omega (arith, s.kept a);
}

receive-IsSound :
    (size i j : ℕ) (p : Pool) (t : Task)
    → get_elem? p.workers i ≡ some receiving
    → get_elem? p.senders j ≡ some t
    → IsSound size p
    → IsSound size
        (record p { workers = set p.workers i (holding t); senders = remove j p.senders })
receive-IsSound size i j p t ew es s = record {
  sized = length-set p.workers i (holding t) ∙ s.sized;
  counted = omega (
    arith,
    s.counted,
    length-remove p.senders j t es,
    total-set busy p.workers i receiving (holding t) ew,
  );
  kept = λ a. omega (
    arith,
    s.kept a,
    count-remove a p.senders j t es,
    total-set (holds a) p.workers i receiving (holding t) ew,
  );
}

call-IsSound :
    (size i : ℕ) (p : Pool) (t : Task)
    → get_elem? p.workers i ≡ some (holding t)
    → IsSound size p
    → IsSound size (record p { workers = set p.workers i (called t); ran = t ∷ p.ran })
call-IsSound size i p t ew s = record {
  sized = length-set p.workers i (called t) ∙ s.sized;
  counted = omega (arith, s.counted, total-set busy p.workers i (holding t) (called t) ew);
  kept = λ a. omega (arith, s.kept a, total-set (holds a) p.workers i (holding t) (called t) ew);
}

finish-IsSound :
    (size i : ℕ) (p : Pool) (t : Task)
    → get_elem? p.workers i ≡ some (called t)
    → 0 < p.wait_group
    → IsSound size p
    → IsSound size (record p { workers = set p.workers i receiving; wait_group = p.wait_group - 1 })
finish-IsSound size i p t ew pos s = record {
  sized = length-set p.workers i receiving ∙ s.sized;
  counted = omega (arith, s.counted, total-set busy p.workers i (called t) receiving ew);
  kept = λ a. omega (arith, s.kept a, total-set (holds a) p.workers i (called t) receiving ew);
}

pub Work-IsSound : (size : ℕ) (p q : Pool) → Work p q → IsSound size p → IsSound size q
Work-IsSound size p q (receives i j e) s =
    let (t, ew, es, eq) = receive-some i j p q e in
    subst (IsSound size) (sym eq) (receive-IsSound size i j p t ew es s)
Work-IsSound size p q (calls i e) s =
    let (t, ew, eq) = call-some i p q e in
    subst (IsSound size) (sym eq) (call-IsSound size i p t ew s)
Work-IsSound size p q (finishes i e) s =
    let (t, ew, pos, eq) = finish-some i p q e in
    subst (IsSound size) (sym eq) (finish-IsSound size i p t ew pos s)

pub Reach-IsSound : {size : ℕ} {p : Pool} → Reach size p → IsSound size p
Reach-IsSound {size} start = new_pool-IsSound size
Reach-IsSound {size} (later {p} {q} r (submits t e)) =
    subst (IsSound size) (sym e) (submit-IsSound size t p (Reach-IsSound r))
Reach-IsSound {size} (later {p} {q} r (works w)) = Work-IsSound size p q w (Reach-IsSound r)

holds-le-busy : (a : Task) (ws : List Worker) → total (holds a) ws ≤ total busy ws
holds-le-busy a [] = omega arith
holds-le-busy a (receiving ∷ ws) = omega (arith, holds-le-busy a ws)
holds-le-busy a (holding t ∷ ws) = ground (arith, holds-le-busy a ws)
holds-le-busy a (called t ∷ ws) = omega (arith, holds-le-busy a ws)

count-nil_of_length : (a : Task) (ts : List Task) → length ts ≡ 0 → count a ts ≡ 0
count-nil_of_length a [] e = refl
count-nil_of_length a (t ∷ ts) e = absurd (omega arith)

-- For every size, in every state that calls of `Submit` and the goroutines of the pool can reach in
-- any interleaving, a group at zero, which is when `WaitAll` returns, means that every task has run
-- exactly as often as it was submitted.
pub wait_all-ran :
    (size : ℕ) (p : Pool)
    → Reach size p
    → p.wait_group ≡ 0
    → (a : Task) → count a p.ran ≡ count a p.submitted
wait_all-ran size p r done a =
    let s = Reach-IsSound r in
    omega (
      arith,
      s.counted,
      s.kept a,
      holds-le-busy a p.workers,
      count-nil_of_length a p.senders (omega (arith, s.counted)),
    )
