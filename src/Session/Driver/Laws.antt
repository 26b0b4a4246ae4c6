-- ===== src/Session/Driver/Laws.antt =====
-- What holds of the driver of main.rs on every run: the agent's state, the publication in flight, and
-- the intake after a shutdown has begun.
use rss_incubator.Base.{
  ℕ, ◌+◌, ◌≤◌, ◌≡◌, refl, sym, ap, subst, ◌∙◌, true, is_some, List, [], ◌∷◌, arith,
}
use rss_incubator.Crates.{Crates}
use rss_incubator.Device.State.Validity.{IsValid}
use rss_incubator.Session.{
  Request, subscribes, unsubscribes_command, unsubscribes_recovery, disconnects, publishes,
  acknowledges, EncodedOutbound, PublishState, idle, pending, SessionState, is_idle, can_publish,
}
use rss_incubator.Session.Driver.{Driver, Surroundings, Polled}
use rss_incubator.Session.Driver.Handlers.{drive}
use rss_incubator.Session.Driver.Rules.{is_quiet, Steps}
use rss_incubator.Session.Driver.Turns.{acknowledgements, after_lem, drive-kept}

-- The agent's state.
abbrev Valid : {Store : Type 0} ⦃crates : Crates⦄ → Driver Store → Type 0
Valid d = IsValid d.agent.state

Steps-Valid : {Store : Type 0} ⦃crates : Crates⦄ → Steps {Store = Store} Valid
Steps-Valid = record {
  updated = λ d s p e h. h;
  asked = λ d r q h. h;
  intake = λ d e h. h;
  changed = λ d agent v h. v h;
}

unfoldable pub publications : List Request → ℕ
publications [] = 0
publications (publishes encoded ∷ rs) = 1 + publications rs
publications (subscribes ∷ rs) = publications rs
publications (unsubscribes_command ∷ rs) = publications rs
publications (unsubscribes_recovery ∷ rs) = publications rs
publications (disconnects ∷ rs) = publications rs
publications (acknowledges delivery token ∷ rs) = publications rs

-- The publications that are allowed to be made before another acknowledgement.
abbrev pub spare : PublishState → ℕ
spare idle = 1
spare pending = 0

abbrev InFlight : {Store : Type 0} → ℕ → Driver Store → Type 0
InFlight bound d = publications d.requests + spare d.state.publish ≤ bound

quiet_publications :
    (r : Request) (rs : List Request) → is_quiet r ≡ true → publications (r ∷ rs) ≡ publications rs
unfolding publications is_quiet
quiet_publications subscribes rs e = cc
quiet_publications unsubscribes_command rs e = refl
quiet_publications unsubscribes_recovery rs e = refl
quiet_publications disconnects rs e = refl
quiet_publications (publishes encoded) rs e = cc
quiet_publications (acknowledges delivery token) rs e = refl

Steps-InFlight :
    {Store : Type 0} ⦃crates : Crates⦄ → (bound : ℕ) → Steps {Store = Store} (InFlight bound)
unfolding publications
Steps-InFlight bound = record {
  updated = λ d s p e h. subst (λ x. publications d.requests + spare x ≤ bound) (sym p) h;
  asked = λ d r q h.
      subst (λ x. x + spare d.state.publish ≤ bound) (sym (quiet_publications r d.requests q)) h;
  intake = λ d e h. h;
  changed = λ d agent v h. h;
}

abbrev pub subscriptions : List Request → ℕ
subscriptions [] = 0
subscriptions (subscribes ∷ rs) = 1 + subscriptions rs
subscriptions (publishes encoded ∷ rs) = subscriptions rs
subscriptions (unsubscribes_command ∷ rs) = subscriptions rs
subscriptions (unsubscribes_recovery ∷ rs) = subscriptions rs
subscriptions (disconnects ∷ rs) = subscriptions rs
subscriptions (acknowledges delivery token ∷ rs) = subscriptions rs

-- The shutdown has begun, after so many subscriptions.
abbrev Closing : {Store : Type 0} → ℕ → Driver Store → Type 0
Closing n d = (is_some d.state.shutdown_deadline ≡ true) × (subscriptions d.requests ≡ n)

quiet_subscriptions :
    (r : Request) (rs : List Request)
    → is_quiet r ≡ true
    → subscriptions (r ∷ rs) ≡ subscriptions rs
unfolding is_quiet
quiet_subscriptions subscribes rs e = cc
quiet_subscriptions unsubscribes_command rs e = refl
quiet_subscriptions unsubscribes_recovery rs e = refl
quiet_subscriptions disconnects rs e = refl
quiet_subscriptions (publishes encoded) rs e = refl
quiet_subscriptions (acknowledges delivery token) rs e = refl

Steps-Closing : {Store : Type 0} ⦃crates : Crates⦄ → (n : ℕ) → Steps {Store = Store} (Closing n)
Steps-Closing n = record {
  updated = λ d s p e h. (ap is_some e ∙ h.0, h.1);
  asked = λ d r q h. (h.0, quiet_subscriptions r d.requests q ∙ h.1);
  intake = λ d e h. cc;
  changed = λ d agent v h. h;
}

publishes_idle : (s : SessionState) → can_publish s ≡ true → is_idle s.publish ≡ true
unfolding can_publish
publishes_idle s e = ground (arith, e)

module _ ⦃crates : Crates⦄ {Store : Type 0} (around : Surroundings Store) where
  -- A session keeps a valid state of the agent valid, for every sequence of events and whatever
  -- the client answers.
  pub drive-IsValid :
      (d : Driver Store) (ps : List Polled)
      → IsValid d.agent.state
      → IsValid (drive around d ps).0.agent.state
  drive-IsValid d ps v =
      drive-kept around (λ n. Valid) (λ n. Steps-Valid) (λ n d' e c h. h) (λ n d' e c h. h)
        (λ n d' h. h) (λ n m d' l h. h) 0 d ps v

  -- From a session that has published nothing, whatever is polled and whatever fails, the driver
  -- has made at most one publication more than acknowledgements were polled: one is in flight at
  -- a time.
  pub drive_in_flight :
      (d : Driver Store) (ps : List Polled)
      → publications d.requests ≡ 0
      → publications (drive around d ps).0.requests ≤ acknowledgements ps + 1
  unfolding publications
  drive_in_flight d ps e = below (acknowledgements ps) (drive around d ps).0 (
      subst (λ n. InFlight n (drive around d ps).0) (after_lem ps 1)
        (drive-kept around InFlight Steps-InFlight published (λ n d' x c h. h) idled
          (λ n m d' l h. grown n m d' l h) 1 d ps (start d.state.publish)))
    where
      published :
          (n : ℕ) (d' : Driver Store) (encoded : EncodedOutbound)
          → can_publish d'.state ≡ true
          → InFlight n d'
          → InFlight n (record d' {
            requests = publishes encoded ∷ d'.requests;
            state = record d'.state { publish = pending };
          })
      published n d' encoded c h = in_turn d'.state.publish (publishes_idle d'.state c) h
        where
          in_turn :
              (x : PublishState)
              → is_idle x ≡ true
              → publications d'.requests + spare x ≤ n
              → 1 + publications d'.requests + 0 ≤ n
          in_turn idle y k = omega arith
          in_turn pending y k = cc

      idled :
          (n : ℕ) (d' : Driver Store)
          → InFlight n d'
          → InFlight (1 + n) (record d' { state = record d'.state { publish = idle } })
      idled n d' h = omega arith

      grown : (n m : ℕ) (d' : Driver Store) → n ≤ m → InFlight n d' → InFlight m d'
      grown n m d' l h = omega arith

      start : (x : PublishState) → publications d.requests + spare x ≤ 1
      start idle = omega arith
      start pending = omega arith

      below : (a : ℕ) (d' : Driver Store) → InFlight (a + 1) d' → publications d'.requests ≤ a + 1
      below a d' h = omega arith

  -- Once a shutdown has begun, the driver never subscribes to the command topic again, whatever
  -- is polled.
  pub drive_closed :
      (d : Driver Store) (ps : List Polled)
      → is_some d.state.shutdown_deadline ≡ true
      → subscriptions (drive around d ps).0.requests ≡ subscriptions d.requests
  drive_closed d ps e =
      (drive-kept around (λ n. Closing (subscriptions d.requests))
        (λ n. Steps-Closing (subscriptions d.requests)) (λ n d' x c h. h)
        (λ n d' x c h. (refl, h.1)) (λ n d' h. h) (λ n m d' l h. h) 0 d ps (e, refl)).1
