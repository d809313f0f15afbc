-- ===== src/Rest/Server/Laws.antt =====
-- What `Listen` of rest/server.go sends, and how it can panic.
use garlic.Common.{
  ℕ, ◌+◌, ◌≡◌, ◌≢◌, refl, ap, sym, subst, String, true, false, Option, none, some, List, [], ◌∷◌,
  arith, lookup, lookup-insert, eq_refl, str_eq, Option-cases, inl, inr,
}
use garlic.Errors.ErrorT.{Err}
use garlic.Rest.Server.{
  ServerOption, Servers, new_server, get_server, Listener, serving, sending, ended, Keeper, waiting,
  stopping, reporting, closing, gone, Listening, listen, Step, cancels, stops, fails, sends, panics,
  wakes, shuts_down, shutdown_fails, reports, closes, receives, Reach, start, later,
}

-- How many errors of a list pass a test.
abbrev pub tally : (Err → ℕ) → List Err → ℕ
tally test [] = 0
tally test (err ∷ errs) = test err + tally test errs

abbrev pub in_buffer : (Err → ℕ) → Option Err → ℕ
in_buffer test none = 0
in_buffer test (some err) = test err

abbrev pub at_listener : (Err → ℕ) → Listener → ℕ
at_listener test serving = 0
at_listener test (sending err) = test err
at_listener test ended = 0

abbrev pub at_keeper : (Err → ℕ) → Keeper → ℕ
at_keeper test waiting = 0
at_keeper test stopping = 0
at_keeper test (reporting err) = test err
at_keeper test closing = 0
at_keeper test gone = 0

-- The channel is closed only at the end of the goroutine that closes it, which is after the context's.
pub record IsSound (s : Listening) : Type 0 where
  pub kept :
      (test : Err → ℕ)
      → tally test s.raised
        ≡ tally test s.received
          + in_buffer test s.buffer
          + at_listener test s.listener
          + at_keeper test s.keeper
  pub closed_gone : s.closed ≡ true → s.keeper ≡ gone
  pub awake : s.keeper ≢ waiting → s.done ≡ true

listen-IsSound : IsSound listen
unfolding listen
listen-IsSound = record { kept = λ test. refl; closed_gone = λ h. cc; awake = λ h. absurd (h refl) }

Step-IsSound : (s t : Listening) → Step s t → IsSound s → IsSound t
Step-IsSound s t (cancels e) h =
    subst IsSound (sym e) (record { kept = h.kept; closed_gone = h.closed_gone; awake = λ _. refl })
Step-IsSound s t (stops q r e) h = subst IsSound (sym e) (record {
  kept = λ test. omega (arith, h.kept test, ap (at_listener test) q);
  closed_gone = h.closed_gone;
  awake = h.awake;
})
Step-IsSound s t (fails err q e) h = subst IsSound (sym e) (record {
  kept = λ test. omega (arith, h.kept test, ap (at_listener test) q);
  closed_gone = h.closed_gone;
  awake = h.awake;
})
Step-IsSound s t (sends err q open_still room e) h = subst IsSound (sym e) (record {
  kept = λ test. omega (arith, h.kept test, ap (at_listener test) q, ap (in_buffer test) room);
  closed_gone = h.closed_gone;
  awake = h.awake;
})
Step-IsSound s t (panics err q shut e) h =
    subst IsSound (sym e) (record { kept = h.kept; closed_gone = h.closed_gone; awake = h.awake })
Step-IsSound s t (wakes q r e) h = subst IsSound (sym e) (record {
  kept = λ test. omega (arith, h.kept test, ap (at_keeper test) q);
  closed_gone = λ c. cc (h.closed_gone c);
  awake = λ _. r;
})
Step-IsSound s t (shuts_down q e) h = subst IsSound (sym e) (record {
  kept = λ test. omega (arith, h.kept test, ap (at_keeper test) q);
  closed_gone = λ c. cc (h.closed_gone c);
  awake = λ _. h.awake (λ w. cc);
})
Step-IsSound s t (shutdown_fails err q e) h = subst IsSound (sym e) (record {
  kept = λ test. omega (arith, h.kept test, ap (at_keeper test) q);
  closed_gone = λ c. cc (h.closed_gone c);
  awake = λ _. h.awake (λ w. cc);
})
Step-IsSound s t (reports err q room e) h = subst IsSound (sym e) (record {
  kept = λ test. omega (arith, h.kept test, ap (at_keeper test) q, ap (in_buffer test) room);
  closed_gone = λ c. cc (h.closed_gone c);
  awake = λ _. h.awake (λ w. cc);
})
Step-IsSound s t (closes q e) h = subst IsSound (sym e) (record {
  kept = λ test. omega (arith, h.kept test, ap (at_keeper test) q);
  closed_gone = λ _. refl;
  awake = λ _. h.awake (λ w. cc);
})
Step-IsSound s t (receives err q e) h = subst IsSound (sym e) (record {
  kept = λ test. omega (arith, h.kept test, ap (in_buffer test) q);
  closed_gone = h.closed_gone;
  awake = h.awake;
})

-- In every state that `Listen` can reach, each failure of net/http is exactly once with the caller, in
-- the channel, or with the goroutine that has still to send it; the channel is closed only when the
-- goroutine of the context has ended, and so only after the context is done.
pub Reach-IsSound : {s : Listening} → Reach s → IsSound s
Reach-IsSound start = listen-IsSound
Reach-IsSound (later {s} {t} r running step) = Step-IsSound s t step (Reach-IsSound r)

-- The server of a name is made by the first call of `GetServer` for it: a later call returns the same
-- server, whatever its options are, and the servers of other names are what they were.
pub get_server-same :
    (name other : String) (opts later_opts : List ServerOption) (servers : Servers)
    → (get_server name later_opts (get_server name opts servers).1 ≡ get_server name opts servers)
      × (str_eq name other ≡ false
          → lookup other (get_server name opts servers).1 ≡ lookup other servers)
unfolding get_server
get_server-same name other opts later_opts servers = elim (Option-cases (lookup name servers)) [
  | inl fresh ↦ rw fresh (
    rw (lookup-insert name name (new_server name opts) servers, eq_refl name) refl,
    λ apart. rw (lookup-insert name other (new_server name opts) servers, apart) refl,
  )
  | inr (s, known) ↦ rw known (rw known refl, λ apart. refl)
]
