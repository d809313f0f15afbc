-- ===== src/Rest/Server/Tests.antt =====
-- Runs of `Listen` of rest/server.go, and servers by name.
use garlic.Common.{refl, false, some, [], ◌∷◌}
use garlic.Errors.ErrorT.{Err}
use garlic.Rest.Server.{Listening, listen, Reach, start, later, fails, sends, ended, waiting}
use garlic.Rest.Server.Laws.{IsSound, Reach-IsSound}

abbrev taken : Err
taken = Err.plain "address already in use"

-- The address is taken, and the error waits in the channel.
abbrev waiting_error : Listening
waiting_error = record {
  listener = ended;
  keeper = waiting;
  done = false;
  buffer = some taken;
  closed = false;
  panicked = false;
  raised = taken ∷ [];
  received = [];
}

waiting_error-Reach : Reach waiting_error
unfolding listen
waiting_error-Reach =
    later (later start refl (fails taken refl refl)) refl (sends taken refl refl refl refl)

Reach-IsSound_example : IsSound waiting_error
Reach-IsSound_example = Reach-IsSound waiting_error-Reach
