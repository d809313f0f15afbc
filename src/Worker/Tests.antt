-- ===== src/Worker/Tests.antt =====
-- Runs of the pool of worker/pool.go.
use garlic.Common.{◌*◌, ◌≤◌, ◌≡◌, refl, ◌⊎◌, [], ◌∷◌, arith}
use garlic.Worker.{
  Pool, receiving, holding, called, new_pool, submit, receive, call, finish, Work, receives, calls,
  finishes, submits, works, Reach, start, later,
}
use garlic.Worker.Inversion.{count}
use garlic.Worker.Invariant.{wait_all-ran}
use garlic.Worker.Progress.{none_yet, one_more, wait_all_returns}
use garlic.Worker.Refines.{view, Serve, Step-Serve}

-- One worker and task 7, at each stage.
abbrev sent : Pool
sent = record {
  workers = receiving ∷ [];
  wait_group = 1;
  senders = 7 ∷ [];
  submitted = 7 ∷ [];
  ran = [];
}

abbrev taken : Pool
taken = record sent { workers = holding 7 ∷ []; senders = [] }

abbrev returned : Pool
returned = record taken { workers = called 7 ∷ []; ran = 7 ∷ [] }

abbrev ended : Pool
ended = record returned { workers = receiving ∷ []; wait_group = 0 }

sent-Reach : Reach 1 sent
unfolding new_pool submit
sent-Reach = later start (submits 7 refl)

receives_7 : Work sent taken
unfolding receive
receives_7 = receives 0 0 refl

calls_7 : Work taken returned
unfolding call
calls_7 = calls 0 refl

finishes_7 : Work returned ended
unfolding finish
finishes_7 = finishes 0 refl

ended-Reach : Reach 1 ended
ended-Reach = later (later (later sent-Reach (works receives_7)) (works calls_7)) (works finishes_7)

wait_all-ran_example : count 7 ended.ran ≡ count 7 ended.submitted
wait_all-ran_example = wait_all-ran 1 ended ended-Reach refl 7

wait_all_returns_example :
    (2 ≤ 3 * sent.wait_group) × ((returned.wait_group ≡ 0) ⊎ ((r : Pool) × Work returned r))
wait_all_returns_example =
    wait_all_returns 1 sent (omega arith) sent-Reach 2 returned
      (one_more (one_more none_yet receives_7) calls_7)

Step-Serve_example : Serve (view taken) (view returned)
Step-Serve_example = Step-Serve taken returned (works calls_7)
