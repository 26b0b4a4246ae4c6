-- ===== src/Session/Driver/Turns.antt =====
-- What every run of the loop of main.rs keeps, from what its steps keep and with a count of the
-- acknowledged publications.
use rss_incubator.Base.{
  ℕ, ◌+◌, ◌≤◌, ◌≡◌, refl, sym, ◌∙◌, inl, inr, if◌then◌else◌, Bool, true, false, Option, none, some,
  is_some, List, [], ◌∷◌, Text, arith, Bool-cases, Option-cases, if_cases, Result, ok, err,
}
use rss_incubator.Crates.{Crates}
use rss_incubator.Device.Types.{OutboundFact}
use rss_incubator.Device.State.Outbound.{next_outbound}
use rss_incubator.Session.{
  MqttError, MqttEvent, connected_event, subscribed, unsubscribed, transport_progress, command,
  outbound_acknowledged, inbound_acknowledged, disconnects, publishes, EncodedOutbound,
  SessionError, idle, pending, is_idle, can_publish, shutdown_is_quiescent, SessionCompletion,
  shutdown_completion, DriverControl, continues, reconnects,
}
use rss_incubator.Session.Driver.{
  Driver, Surroundings, Clock, proceed, ◌>>=◌, done, update, answered, Polled, poll_fails,
  shutdown_starts, shutdown_expires, polls, controlled, ran_on,
}
use rss_incubator.Session.Driver.Handlers.{
  request, start_shutdown, publish_fact, publish_next, confirm_published, on_outbound_acknowledged,
  handle_event, on_polled, turn, drive,
}
use rss_incubator.Session.Driver.Rules.{
  Keeps, Keeps-confirm_event, is_acknowledgement, Keeps-unsubscribe_if_active, Keeps-handle_event,
  is_quiet, Steps,
}

abbrev pub polls_acknowledgement : Polled → Bool
polls_acknowledgement (poll_fails e) = false
polls_acknowledgement (shutdown_starts clock) = false
polls_acknowledgement (shutdown_expires clock) = false
polls_acknowledgement (polls clock event) = is_acknowledgement event

abbrev pub counted : Bool → ℕ → ℕ
counted true n = 1 + n
counted false n = n

-- How many acknowledgements of publications are polled.
unfoldable pub acknowledgements : List Polled → ℕ
acknowledgements [] = 0
acknowledgements (p ∷ ps) = counted (polls_acknowledgement p) (acknowledgements ps)

unfoldable pub after : List Polled → ℕ → ℕ
after [] n = n
after (p ∷ ps) n = after ps (counted (polls_acknowledgement p) n)

counted_lem : (b : Bool) (n m : ℕ) → counted b n + m ≡ counted b (n + m)
counted_lem true n m = omega arith
counted_lem false n m = refl

counted_right : (b : Bool) (n m : ℕ) → n + counted b m ≡ counted b (n + m)
counted_right true n m = omega arith
counted_right false n m = refl

counted_up : (b : Bool) (n : ℕ) → n ≤ counted b n
counted_up true n = omega arith
counted_up false n = omega arith

pub after_lem : (ps : List Polled) (n : ℕ) → after ps n ≡ acknowledgements ps + n
unfolding after acknowledgements
after_lem [] n = omega arith
after_lem (p ∷ ps) n =
    after_lem ps (counted (polls_acknowledgement p) n)
    ∙ counted_right (polls_acknowledgement p) (acknowledgements ps) n
    ∙ sym (counted_lem (polls_acknowledgement p) (acknowledgements ps) n)

after_up : (ps : List Polled) (n : ℕ) → n ≤ after ps n
after_up ps n = rw after_lem (omega arith)

module _ ⦃crates : Crates⦄ {Store : Type 0} (around : Surroundings Store)
    (P : Driver Store → Type 0) (steps : Steps P)
    (published : (d : Driver Store) (encoded : EncodedOutbound)
      → can_publish d.state ≡ true
      → P d
      → P (record d {
        requests = publishes encoded ∷ d.requests;
        state = record d.state { publish = pending };
      }))
    (closed : (d : Driver Store) (deadline : ℕ)
      → is_some d.state.shutdown_deadline ≡ false
      → P d
      → P (record d { state = record d.state { shutdown_deadline = some deadline } })) where
  publish_fact-kept :
      (d : Driver Store) (o : Option OutboundFact)
      → can_publish d.state ≡ true
      → P d
      → P (publish_fact around o d).0
  unfolding publish_fact request update ◌>>=◌
  publish_fact-kept d none e p = p
  publish_fact-kept d (some fact) e p =
      elim (Option-cases (around.encode_outbound d.session_identity fact)) [
        | inl n ↦ rw (n, publish_fact) p
        | inr (encoded, n) ↦
            rw (n, publish_fact) (by_answer encoded (around.answer d.requests (publishes encoded)))
      ]
    where
      by_answer :
          (encoded : EncodedOutbound) (o : Option MqttError)
          → P
              (proceed
                (answered d (publishes encoded) o)
                (λ a. update (λ s. record s { publish = pending }))).0
      by_answer encoded none = published d encoded e p
      by_answer encoded (some x) = p

  Keeps-publish_next : Keeps P (publish_next around)
  unfolding publish_next
  Keeps-publish_next d p = elim (Bool-cases (can_publish d.state)) [
    | inl e ↦ rw (e, publish_next) (publish_fact-kept d (next_outbound d.agent.state) e p)
    | inr e ↦ rw (e, publish_next) p
  ]

  start_shutdown-kept :
      (clock : Clock) (d : Driver Store)
      → is_some d.state.shutdown_deadline ≡ false
      → P d
      → P (start_shutdown around clock d).0
  unfolding start_shutdown update ◌>>=◌
  start_shutdown-kept clock d e p =
      Keeps-unsubscribe_if_active around P steps _ (closed d (clock.instant + 10) e p)

  controlled-kept :
      (r : Driver Store × Result SessionError DriverControl) → P r.0 → P (controlled r).0
  controlled-kept (d, ok continues) p = p
  controlled-kept (d, ok reconnects) p = p
  controlled-kept (d, err e) p = p

  ended-kept :
      {A B : Type 0} (b : B) (r : Driver Store × Result SessionError A)
      → P r.0
      → P (proceed r (λ a. done b)).0
  ended-kept b (d, ok a) q = q
  ended-kept b (d, err e) q = q

  shutdown_starts-kept : (clock : Clock) → Keeps P (on_polled around (shutdown_starts clock))
  unfolding on_polled ◌>>=◌
  shutdown_starts-kept clock d p = elim (Bool-cases (is_some d.state.shutdown_deadline)) [
    | inl e ↦ rw (e, on_polled) p
    | inr e ↦
        rw (e, on_polled)
          (ended-kept none (start_shutdown around clock d) (start_shutdown-kept clock d e p))
  ]

-- A property that a bound on the acknowledged publications indexes.
module _ ⦃crates : Crates⦄ {Store : Type 0} (around : Surroundings Store)
    (P : ℕ → Driver Store → Type 0) (steps : (n : ℕ) → Steps (P n))
    (published : (n : ℕ) (d : Driver Store) (encoded : EncodedOutbound)
      → can_publish d.state ≡ true
      → P n d
      → P n (record d {
        requests = publishes encoded ∷ d.requests;
        state = record d.state { publish = pending };
      }))
    (closed : (n : ℕ) (d : Driver Store) (deadline : ℕ)
      → is_some d.state.shutdown_deadline ≡ false
      → P n d
      → P n (record d { state = record d.state { shutdown_deadline = some deadline } }))
    (idled : (n : ℕ) (d : Driver Store)
      → P n d
      → P (1 + n) (record d { state = record d.state { publish = idle } }))
    (grows : (n m : ℕ) (d : Driver Store) → n ≤ m → P n d → P m d) where
  acknowledged-kept :
      (n : ℕ) (clock : Clock) (event_id : Text) (d : Driver Store)
      → P n d
      → P (1 + n) (on_outbound_acknowledged around clock event_id d).0
  unfolding on_outbound_acknowledged confirm_published update ◌>>=◌
  acknowledged-kept n clock event_id d p =
      if_cases (λ (r : Driver Store × Result SessionError DriverControl). P (1 + n) r.0)
        (is_idle d.state.publish) _ _ (grows n (1 + n) d (omega arith) p)
        (Keeps-confirm_event around (P (1 + n)) (steps (1 + n)) clock event_id
          (record d { state = record d.state { publish = idle } }) (idled n d p))

  handled :
      (n : ℕ) (clock : Clock) (event : MqttEvent) (d : Driver Store)
      → P n d
      → P (counted (is_acknowledgement event) n) (handle_event around clock event d).0
  unfolding handle_event
  handled n clock (outbound_acknowledged event_id) d p = acknowledged-kept n clock event_id d p
  handled n clock connected_event d p =
      Keeps-handle_event around (P n) (steps n) clock connected_event refl d p
  handled n clock subscribed d p =
      Keeps-handle_event around (P n) (steps n) clock subscribed refl d p
  handled n clock unsubscribed d p =
      Keeps-handle_event around (P n) (steps n) clock unsubscribed refl d p
  handled n clock transport_progress d p = p
  handled n clock (command delivery) d p =
      Keeps-handle_event around (P n) (steps n) clock (command delivery) refl d p
  handled n clock (inbound_acknowledged token) d p =
      Keeps-handle_event around (P n) (steps n) clock (inbound_acknowledged token) refl d p

  polled-kept :
      (n : ℕ) (p : Polled) (d : Driver Store)
      → P n d
      → P (counted (polls_acknowledgement p) n) (on_polled around p d).0
  unfolding on_polled
  polled-kept n (poll_fails e) d h = h
  polled-kept n (shutdown_starts clock) d h =
      shutdown_starts-kept around (P n) (steps n) (published n) (closed n) clock d h
  polled-kept n (shutdown_expires clock) d h =
      if_cases (λ (r : Driver Store × Result SessionError (Option SessionCompletion)). P n r.0)
        (is_some d.state.shutdown_deadline) _ _ h h
  polled-kept n (polls clock event) d h =
      controlled-kept around (P (counted (is_acknowledgement event) n)) (steps _) (published _)
        (closed _) (handle_event around clock event d) (handled n clock event d h)

  turn-kept :
      (n : ℕ) (p : Polled) (d : Driver Store)
      → P n d
      → P (counted (polls_acknowledgement p) n) (turn around p d).0
  unfolding turn ◌>>=◌ is_quiet request
  turn-kept n p d h =
      published_then (publish_next around d)
        (Keeps-publish_next around (P n) (steps n) (published n) (closed n) d h)
    where
      more : (d' : Driver Store) → P n d' → P (counted (polls_acknowledgement p) n) d'
      more d' =
          grows n (counted (polls_acknowledgement p) n) d' (counted_up (polls_acknowledgement p) n)

      answered_then :
          (d' : Driver Store) (o : Option MqttError)
          → P n d'
          → P
              (counted (polls_acknowledgement p) n)
              (proceed {B = Option SessionCompletion}
                (answered d' disconnects o)
                (λ a. done (some shutdown_completion))).0
      answered_then d' none q =
          more (record d' { requests = disconnects ∷ d'.requests })
            ((steps n).asked d' disconnects refl q)
      answered_then d' (some e) q = more d' q

      published_then :
          (r : Driver Store × Result SessionError (Unit {0}))
          → P n r.0
          → P
              (counted (polls_acknowledgement p) n)
              (proceed {B = Option SessionCompletion} r (λ a driver.
                if shutdown_is_quiescent driver.state driver.agent
                then (request around disconnects >>= λ a. done (some shutdown_completion)) driver
                else on_polled around p driver)).0
      published_then (d', err e) q = more d' q
      published_then (d', ok a) q =
          if_cases
            (λ (r : Driver Store × Result SessionError (Option SessionCompletion)).
              P (counted (polls_acknowledgement p) n) r.0)
            (shutdown_is_quiescent d'.state d'.agent) _ _
            (answered_then d' (around.answer d'.requests disconnects) q) (polled-kept n p d' q)

  ran-kept :
      (n : ℕ) (ps : List Polled) (r : Driver Store × Result SessionError (Option SessionCompletion))
      → P n r.0
      → ((d : Driver Store) → P n d → P (after ps n) (drive around d ps).0)
      → P (after ps n) (ran_on r (λ d. drive around d ps)).0
  ran-kept n ps (d, ok none) q next = next d q
  ran-kept n ps (d, ok (some c)) q next = grows n (after ps n) d (after_up ps n) q
  ran-kept n ps (d, err e) q next = grows n (after ps n) d (after_up ps n) q

  pub drive-kept :
      (n : ℕ) (d : Driver Store) (ps : List Polled) → P n d → P (after ps n) (drive around d ps).0
  unfolding drive after
  drive-kept n d [] h = h
  drive-kept n d (p ∷ ps) h =
      ran-kept (counted (polls_acknowledgement p) n) ps (turn around p d) (turn-kept n p d h)
        (λ d' q. drive-kept (counted (polls_acknowledgement p) n) d' ps q)
