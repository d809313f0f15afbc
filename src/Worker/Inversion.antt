-- ===== src/Worker/Inversion.antt =====
-- What a step of the pool of worker/pool.go found and changed, and sums over its goroutines.
use garlic.Common.{
  ℕ, zero, suc, ◌+◌, ◌-◌, ◌<◌, ◌≡◌, refl, Option, none, some, List, [], ◌∷◌, get_elem?, set, length,
  ◌==◌, if◌then◌else◌, arith,
}
use garlic.Worker.{
  Task, Worker, receiving, holding, called, Pool, remove, receive, receive_at, call, call_at,
  finish, finish_at,
}

abbrev pub count : Task → List Task → ℕ
count a [] = 0
count a (t ∷ ts) = (if t == a then 1 else 0) + count a ts

abbrev pub total : (Worker → ℕ) → List Worker → ℕ
total w [] = 0
total w (x ∷ xs) = w x + total w xs

-- A worker between a receive and `Done`.
abbrev pub busy : Worker → ℕ
busy receiving = 0
busy (holding t) = 1
busy (called t) = 1

abbrev pub holds : Task → Worker → ℕ
holds a receiving = 0
holds a (holding t) = if t == a then 1 else 0
holds a (called t) = 0

pub total-set :
    (w : Worker → ℕ) (ws : List Worker) (i : ℕ) (x v : Worker)
    → get_elem? ws i ≡ some x
    → total w (set ws i v) + w x ≡ total w ws + w v
total-set w [] i x v e = ground arith
total-set w (y ∷ ws) zero x v e = ground arith
total-set w (y ∷ ws) (suc i) x v e = omega (arith, total-set w ws i x v e)

pub length-remove :
    (ts : List Task) (j : ℕ) (t : Task)
    → get_elem? ts j ≡ some t
    → length ts ≡ length (remove j ts) + 1
length-remove [] j t e = ground arith
length-remove (x ∷ ts) zero t e = omega arith
length-remove (x ∷ ts) (suc j) t e = omega (arith, length-remove ts j t e)

pub count-remove :
    (a : Task) (ts : List Task) (j : ℕ) (t : Task)
    → get_elem? ts j ≡ some t
    → count a ts ≡ count a (remove j ts) + (if t == a then 1 else 0)
count-remove a [] j t e = ground arith
count-remove a (x ∷ ts) zero t e = ground arith
count-remove a (x ∷ ts) (suc j) t e = omega (arith, count-remove a ts j t e)

-- What a step that was taken had found and what it changed.
pub receive-some :
    (i j : ℕ) (p q : Pool)
    → receive i j p ≡ some q
    → (t : Task) × (get_elem? p.workers i ≡ some receiving)
      × (get_elem? p.senders j ≡ some t)
      × (q ≡ record p { workers = set p.workers i (holding t); senders = remove j p.senders })
unfolding receive
receive-some i j p q = found _ _ refl refl
  where
    found :
        (w : Option Worker) (s : Option Task)
        → get_elem? p.workers i ≡ w
        → get_elem? p.senders j ≡ s
        → receive_at i j p w s ≡ some q
        → (t : Task) × (get_elem? p.workers i ≡ some receiving)
          × (get_elem? p.senders j ≡ some t)
          × (q ≡ record p { workers = set p.workers i (holding t); senders = remove j p.senders })
    found none s ew es e = cc
    found (some (holding t)) s ew es e = cc
    found (some (called t)) s ew es e = cc
    found (some receiving) none ew es e = cc
    found (some receiving) (some t) ew es e = (t, ew, es, cc)

pub call-some :
    (i : ℕ) (p q : Pool)
    → call i p ≡ some q
    → (t : Task) × (get_elem? p.workers i ≡ some (holding t))
      × (q ≡ record p { workers = set p.workers i (called t); ran = t ∷ p.ran })
unfolding call
call-some i p q = found _ refl
  where
    found :
        (w : Option Worker)
        → get_elem? p.workers i ≡ w
        → call_at i p w ≡ some q
        → (t : Task) × (get_elem? p.workers i ≡ some (holding t))
          × (q ≡ record p { workers = set p.workers i (called t); ran = t ∷ p.ran })
    found none ew e = cc
    found (some receiving) ew e = cc
    found (some (called t)) ew e = cc
    found (some (holding t)) ew e = (t, ew, cc)

pub finish-some :
    (i : ℕ) (p q : Pool)
    → finish i p ≡ some q
    → (t : Task) × (get_elem? p.workers i ≡ some (called t))
      × (0 < p.wait_group)
      × (q ≡ record p { workers = set p.workers i receiving; wait_group = p.wait_group - 1 })
unfolding finish
finish-some i p q = found _ refl
  where
    found :
        (w : Option Worker)
        → get_elem? p.workers i ≡ w
        → finish_at i p w ≡ some q
        → (t : Task) × (get_elem? p.workers i ≡ some (called t))
          × (0 < p.wait_group)
          × (q ≡ record p { workers = set p.workers i receiving; wait_group = p.wait_group - 1 })
    found none ew e = cc
    found (some receiving) ew e = cc
    found (some (holding t)) ew e = cc
    found (some (called t)) ew e = (t, ew, ground arith, ground arith)
