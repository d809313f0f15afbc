-- ===== src/Worker.antt =====
-- worker/pool.go and worker/task.go: a pool of goroutines that run tasks. A goroutine of `spawn` is a
-- `Worker`; a call of `Submit` between its `Add` and the end of its send is an entry of `senders`. The
-- channel has no buffer, so a send and a receive happen together, in `receive`. `submitted` and `ran`
-- record what the callers handed over and which calls of tasks have returned.
pub mod Inversion
pub mod Invariant
pub mod Progress
pub mod Refines
mod Tests
use garlic.Common.{
  ℕ, zero, suc, ◌+◌, ◌-◌, ◌≡◌, Option, none, some, List, [], ◌∷◌, get_elem?, set, ◌==◌,
  if◌then◌else◌,
}

-- A task is a function of no arguments; it is known here by a number only.
abbrev pub Task : Type 0
Task = ℕ

-- Where a goroutine of `spawn` stands: at the receive of its loop, with a task to call, or after the
-- call and before `Done`.
pub data Worker : Type 0 where
  receiving : Worker
  holding : Task → Worker
  called : Task → Worker

pub record Pool : Type 0 where
  pub workers : List Worker
  pub wait_group : ℕ
  pub senders : List Task
  pub submitted : List Task
  pub ran : List Task

unfoldable pub spawn : ℕ → List Worker
spawn zero = []
spawn (suc n) = receiving ∷ spawn n

unfoldable pub new_pool : ℕ → Pool
unfolding spawn
new_pool size = record {
  workers = spawn size;
  wait_group = 0;
  senders = [];
  submitted = [];
  ran = [];
}

-- `Submit` up to its send: the group counts the task before a worker can have it.
unfoldable pub submit : Task → Pool → Pool
submit t p = record p {
  wait_group = p.wait_group + 1;
  senders = t ∷ p.senders;
  submitted = t ∷ p.submitted;
}

abbrev pub remove {ℓ} : {A : Type ℓ} → ℕ → List A → List A
remove i [] = []
remove zero (x ∷ xs) = xs
remove (suc i) (x ∷ xs) = x ∷ remove i xs

unfoldable pub receive_at : ℕ → ℕ → Pool → Option Worker → Option Task → Option Pool
receive_at i j p (some receiving) (some t) =
    some (record p { workers = set p.workers i (holding t); senders = remove j p.senders })
receive_at i j p (some receiving) none = none
receive_at i j p (some (holding s)) t = none
receive_at i j p (some (called s)) t = none
receive_at i j p none t = none

-- The send of sender `j` meets the receive of worker `i`; `none` where one of them is not there.
unfoldable pub receive : ℕ → ℕ → Pool → Option Pool
unfolding receive_at
receive i j p = receive_at i j p (get_elem? p.workers i) (get_elem? p.senders j)

unfoldable pub call_at : ℕ → Pool → Option Worker → Option Pool
call_at i p (some (holding t)) =
    some (record p { workers = set p.workers i (called t); ran = t ∷ p.ran })
call_at i p (some receiving) = none
call_at i p (some (called t)) = none
call_at i p none = none

-- `task()`, once it has returned.
unfoldable pub call : ℕ → Pool → Option Pool
unfolding call_at
call i p = call_at i p (get_elem? p.workers i)

unfoldable pub finish_at : ℕ → Pool → Option Worker → Option Pool
finish_at i p (some (called t)) =
    if p.wait_group == 0
    then none
    else some (record p { workers = set p.workers i receiving; wait_group = p.wait_group - 1 })
finish_at i p (some receiving) = none
finish_at i p (some (holding t)) = none
finish_at i p none = none

-- `waitGroup.Done()`; a group below zero panics, which is `none` here.
unfoldable pub finish : ℕ → Pool → Option Pool
unfolding finish_at
finish i p = finish_at i p (get_elem? p.workers i)

-- A step of the goroutines of the pool.
pub data Work (p : Pool) (q : Pool) : Type 0 where
  receives : (i j : ℕ) → receive i j p ≡ some q → Work p q
  calls : (i : ℕ) → call i p ≡ some q → Work p q
  finishes : (i : ℕ) → finish i p ≡ some q → Work p q

-- Any interleaving of the callers and of the goroutines of the pool.
pub data Step (p : Pool) (q : Pool) : Type 0 where
  submits : (t : Task) → q ≡ submit t p → Step p q
  works : Work p q → Step p q

pub data Reach (size : ℕ) : Pool → Type 0 where
  start : Reach size (new_pool size)
  later : {p q : Pool} → Reach size p → Step p q → Reach size q
