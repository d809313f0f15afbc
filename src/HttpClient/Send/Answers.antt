-- ===== src/HttpClient/Send/Answers.antt =====
-- `Send` of httpclient/request.go gives a response or an error, and does not panic.
use garlic.Common.{
  ◌≡◌, ◌≢◌, refl, ap, ◌⊎◌, inl, inr, String, Bool, Option, none, some, List, Option-cases,
  Sum-cases,
}
use garlic.Errors.ErrorT.{Err}
use garlic.HttpClient.Retry.{Env, Message, Reply, Failure, Event, Step, inject_auth}
use garlic.HttpClient.Retry.Ends.{do_with_retry_returns}
use garlic.HttpClient.Retry.Answers.{IsDoer, do_with_retry-Replies}
use garlic.HttpClient.Assembly.{run_both, apply_body, inject_tracing, Prepared}
use garlic.HttpClient.Draft.{Draft}
use garlic.HttpClient.Send.{
  Client, Exit, returned, panicked, loop_request, authorized, with_hooks, with_applied, provided,
  blank, execute, sets_auth, with_hooked, target_of, handle_response, handled, build_url,
  send_request,
}

-- A response or an error, and no panic.
abbrev pub IsAnswer : Exit → Type 0
IsAnswer (returned none none) = ⊥
IsAnswer (returned none (some f)) = Unit {0}
IsAnswer (returned (some reply) f) = Unit {0}
IsAnswer panicked = ⊥

-- The failure of a step, or the response that it gives.
abbrev Gives : Failure ⊎ Option (Option Reply) → Type 0
Gives t = ((f : Failure) × (t ≡ inl f)) ⊎ ((reply : Reply) × (t ≡ inr (some (some reply))))

gives :
    (t : Failure ⊎ Option (Option Reply))
    → t ≢ inr none
    → ((o : Option Reply) → t ≡ inr (some o) → (reply : Reply) × (o ≡ some reply))
    → Gives t
gives (inl f) ends replies = inl (f, refl)
gives (inr none) ends replies = absurd (ends refl)
gives (inr (some o)) ends replies =
    let (reply, q) = replies o refl in inr (reply, ap (λ (x : Option Reply). inr (some x)) q)

module _ {W : Type 0} (env : Env W) (c : Client W) (r : Draft Message Reply)
    (doer : IsDoer env) where
  authorized-Gives :
      (replayable : Bool) (m : Message) (w : W) → Gives (authorized env c r replayable m w).result
  unfolding authorized
  authorized-Gives replayable m w =
      let caller_set = sets_auth env c r m in
      let t = inject_auth env (loop_request env c r) caller_set m w in
      elim (Sum-cases t.result) [
        | inl (f, q) ↦ rw (q, authorized) (inl (_, refl))
        | inr (m', q) ↦
            rw (q, authorized)
              (gives _
                (do_with_retry_returns env (loop_request env c r) m' replayable caller_set 0
                  t.world).0
                (do_with_retry-Replies env (loop_request env c r) doer m' replayable caller_set
                  t.world))
      ]

  hooked-Gives :
      (p : Prepared) (hooks : Err ⊎ Message) (w : W) → Gives (with_hooks env c r p hooks w).result
  hooked-Gives p (inl err) w = inl (_, refl)
  hooked-Gives p (inr m) w =
      authorized-Gives p.replayable (inject_tracing c.session_id c.request_id m) w

  applied-Gives : (p : Err ⊎ Prepared) (w : W) → Gives (with_applied env c r p w).result
  applied-Gives (inl err) w = inl (_, refl)
  applied-Gives (inr p) w = hooked-Gives p (run_both c.before_request r.before p.message) w

  execute-Gives : (method target : String) (w : W) → Gives (execute env c r method target w).result
  unfolding execute
  execute-Gives method target w = elim (Option-cases (c.new_request_err method target)) [
    | inr (err, q) ↦ rw (q, execute) (inl (_, refl))
    | inl q ↦
        rw (q, execute)
          (applied-Gives (apply_body (provided env c r r.body) (blank env c r method)) w)
  ]

  hooked-IsAnswer :
      (reply : Reply) (w : W) (events : List Event) (hooks : Err ⊎ Reply)
      → IsAnswer (with_hooked env c r reply w events hooks).exit
  hooked-IsAnswer reply w events (inl err) = tt
  hooked-IsAnswer reply w events (inr reply') = tt

  handle_response-IsAnswer :
      (reply : Reply) (w : W) (events : List Event)
      → IsAnswer (handle_response env c r reply w events).exit
  unfolding handle_response
  handle_response-IsAnswer reply w events = elim (Option-cases (target_of env c r reply)) [
    | inl skipped ↦ rw (skipped, handle_response) (hooked-IsAnswer reply w events _)
    | inr (v, parsed) ↦ elim (Option-cases (c.decode_err v reply)) [
      | inl fine ↦ rw (parsed, handle_response, fine) (hooked-IsAnswer reply w _ _)
      | inr (err, q) ↦ rw (parsed, handle_response, q) tt
    ]
  ]

  handled-IsAnswer :
      (t : Step W (Option (Option Reply))) → Gives t.result → IsAnswer (handled env c r t).exit
  unfolding handled
  handled-IsAnswer t (inl (f, q)) = rw (q, handled) tt
  handled-IsAnswer t (inr (reply, q)) =
      rw (q, handled) (handle_response-IsAnswer reply t.world t.events)

  -- For every client and every request, where `Do` gives a response whenever it gives no error, `Send`
  -- returns a response or an error: it never gives neither, it never runs out of rounds, and it never
  -- uses a response that is not there.
  pub send_request-IsAnswer :
      (method path : String) (w : W) → IsAnswer (send_request env c r method path w).exit
  unfolding send_request
  send_request-IsAnswer method path w =
      elim (Sum-cases (build_url c.urls c.base_url path r.query)) [
        | inl (err, q) ↦ rw (q, send_request) tt
        | inr (target, q) ↦ elim (Option-cases r.build_err) [
          | inr (f, bad) ↦ rw (q, send_request, bad) tt
          | inl fine ↦
              rw (q, send_request, fine)
                (handled-IsAnswer (execute env c r method target w) (execute-Gives method target w))
        ]
      ]
