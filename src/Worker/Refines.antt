-- ===== src/Worker/Refines.antt =====
-- The pool of worker/pool.go as its callers see it: a bag of tasks to do and a bag of tasks done.
-- Which worker has a task, and the order of the sends, are forgotten.
use mathlib.Core.Path.{fun_ext}
use garlic.Common.{ℕ, ◌+◌, ◌≡◌, refl, sym, subst, ◌==◌, if◌then◌else◌, arith}
use garlic.Worker.{
  Task, receiving, holding, called, Pool, submit, Work, receives, calls, finishes, Step, submits,
  works,
}
use garlic.Worker.Inversion.{
  count, total, holds, total-set, count-remove, receive-some, call-some, finish-some,
}

-- A bag of tasks: how often it has each.
abbrev pub Bag : Type 0
Bag = Task → ℕ

abbrev pub add : Task → Bag → Bag
add t b a = b a + (if t == a then 1 else 0)

pub record View : Type 0 where
  pub todo : Bag
  pub done : Bag

abbrev pub view : Pool → View
view p = record {
  todo = λ a. count a p.senders + total (holds a) p.workers;
  done = λ a. count a p.ran;
}

-- What a pool promises: to accept a task, and to run one of those that it accepted, once.
pub data Serve (v : View) (w : View) : Type 0 where
  accept : (t : Task) → w.todo ≡ add t v.todo → w.done ≡ v.done → Serve v w
  perform : (t : Task) → v.todo ≡ add t w.todo → w.done ≡ add t v.done → Serve v w
  pass : w.todo ≡ v.todo → w.done ≡ v.done → Serve v w

Work-Serve : (p q : Pool) → Work p q → Serve (view p) (view q)
Work-Serve p q (receives i j e) =
    let (t, ew, es, eq) = receive-some i j p q e in
    subst (λ z. Serve (view p) (view z)) (sym eq)
      (pass
        (fun_ext (λ a. omega (
          arith,
          count-remove a p.senders j t es,
          total-set (holds a) p.workers i receiving (holding t) ew,
        )))
        refl)
Work-Serve p q (calls i e) =
    let (t, ew, eq) = call-some i p q e in
    subst (λ z. Serve (view p) (view z)) (sym eq)
      (perform t
        (fun_ext (λ a. omega (arith, total-set (holds a) p.workers i (holding t) (called t) ew)))
        (fun_ext (λ a. omega arith)))
Work-Serve p q (finishes i e) =
    let (t, ew, pos, eq) = finish-some i p q e in
    subst (λ z. Serve (view p) (view z)) (sym eq)
      (pass (fun_ext (λ a. omega (arith, total-set (holds a) p.workers i (called t) receiving ew)))
        refl)

-- Every step of the callers and of the goroutines is a step of the abstract pool, which accepts a
-- task, runs one that it accepted and has not run, or does nothing.
pub Step-Serve : (p q : Pool) → Step p q → Serve (view p) (view q)
unfolding submit
Step-Serve p q (submits t e) =
    subst (λ z. Serve (view p) (view z)) (sym e) (accept t (fun_ext (λ a. omega arith)) refl)
Step-Serve p q (works w) = Work-Serve p q w
