-- ===== src/HttpClient/Retry/Totals.antt =====
-- Counting events, and what a step and its continuation have in common.
use garlic.Common.{ℕ, ◌+◌, ◌≤◌, ◌≡◌, refl, inl, inr, ◌⊎◌, List, [], ◌∷◌, ◌++◌, arith, All}
use garlic.HttpClient.Retry.{Event, sent, drained, closed, S, Failure, then_step, ◌>>=◌}

abbrev pub total : (Event → ℕ) → List Event → ℕ
total count [] = 0
total count (e ∷ es) = count e + total count es

abbrev pub is_send : Event → ℕ
is_send (sent _ _) = 1
is_send (drained _) = 0
is_send (closed _) = 0

abbrev pub sends : List Event → ℕ
sends = total is_send

total-append :
    (count : Event → ℕ) (es bs : List Event)
    → total count (es ++ bs) ≡ total count es + total count bs
total-append count [] bs = omega arith
total-append count (a ∷ es) bs = omega (arith, total-append count es bs)

-- What a step and what follows it count to.
module _ {W A B : Type 0} (count : Event → ℕ) (k : A → S W B) where
  pub then_step-total :
      (res : Failure ⊎ A) (w : W) (events : List Event) (n c : ℕ)
      → total count events ≤ n
      → ((a : A) (w' : W) → res ≡ inr a → total count (k a w').events ≤ c)
      → total count (then_step res w events k).events ≤ n + c
  then_step-total (inl f) w events n c h rest = omega (arith, h)
  then_step-total (inr a) w events n c h rest =
      omega (arith, h, rest a w refl, total-append count events (k a w).events)

module _ {W A B : Type 0} (count : Event → ℕ) (m : S W A) (k : A → S W B) where
  pub bind-total :
      (w : W) (n c : ℕ)
      → total count (m w).events ≤ n
      → ((a : A) (w' : W) → (m w).result ≡ inr a → total count (k a w').events ≤ c)
      → total count ((m >>= k) w).events ≤ n + c
  bind-total w n c = then_step-total count k (m w).result (m w).world (m w).events n c

  then_step-total-le :
      (res : Failure ⊎ A) (w : W) (events : List Event)
      → total count events ≤ total count (then_step res w events k).events
  then_step-total-le (inl f) w events = omega arith
  then_step-total-le (inr a) w events = omega (arith, total-append count events (k a w).events)

  pub bind-total-le :
      (w : W) (n : ℕ) → n ≤ total count (m w).events → n ≤ total count ((m >>= k) w).events
  bind-total-le w n h = omega (arith, h, then_step-total-le (m w).result (m w).world (m w).events)

pub then_step_events :
    {W A B : Type 0} (k : A → S W B) (res : Failure ⊎ A) (w : W) (events : List Event)
    → events ≡ []
    → ((a : A) (w' : W) → (k a w').events ≡ [])
    → (then_step res w events k).events ≡ []
then_step_events k (inl f) w events h rest = h
then_step_events k (inr a) w events h rest = rw h (rest a w)

All-append : (P : Event → Type 0) (es bs : List Event) → All P es → All P bs → All P (es ++ bs)
All-append P [] bs h g = g
All-append P (e ∷ es) bs (p, h) g = (p, All-append P es bs h g)

module _ {W A B : Type 0} (P : Event → Type 0) (k : A → S W B) where
  then_step-All :
      (res : Failure ⊎ A) (w : W) (events : List Event)
      → All P events
      → ((a : A) (w' : W) → res ≡ inr a → All P (k a w').events)
      → All P (then_step res w events k).events
  then_step-All (inl f) w events h rest = h
  then_step-All (inr a) w events h rest = All-append P events (k a w).events h (rest a w refl)

  pub bind-All :
      (m : S W A) (w : W)
      → All P (m w).events
      → ((a : A) (w' : W) → (m w).result ≡ inr a → All P (k a w').events)
      → All P ((m >>= k) w).events
  bind-All m w = then_step-All (m w).result (m w).world (m w).events

module _ {W A B : Type 0} (P : Failure ⊎ B → Type 0) (k : A → S W B) where
  then_step-result :
      (res : Failure ⊎ A) (w : W) (events : List Event)
      → ((f : Failure) → P (inl f))
      → ((a : A) (w' : W) → res ≡ inr a → P (k a w').result)
      → P (then_step res w events k).result
  then_step-result (inl f) w events fails rest = fails f
  then_step-result (inr a) w events fails rest = rest a w refl

  pub bind-result :
      (m : S W A) (w : W)
      → ((f : Failure) → P (inl f))
      → ((a : A) (w' : W) → (m w).result ≡ inr a → P (k a w').result)
      → P ((m >>= k) w).result
  bind-result m w = then_step-result (m w).result (m w).world (m w).events
