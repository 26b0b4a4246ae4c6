-- ===== src/Device/State/Publication.antt =====
-- What `next_outbound` of state.rs publishes, and what `confirm_outbound` then does with it.
use rss_incubator.Base.{
  ◌≡◌, refl, ◌∙◌, inl, inr, Bool, true, false, ◌&&◌, not, Option, none, some, List, [], ◌∷◌, map,
  Text, arith, ◌==◌, nat_eq, list_eq, ==_refl, eq_of_==, Option-cases, Distinct, contains, any, All,
  ok, Taken, Taken-count_if, Taken-any, Taken-Distinct, subst,
}
use rss_incubator.Crates.{Crates}
use rss_incubator.Device.Types.{OutboundFact, outbound_event_id}
use rss_incubator.Device.State.Stored.{
  StateV1, StoredReport, StoredOutbound, ack, report_blocked, report_ready,
}
use rss_incubator.Device.State.Entries.{outbound_id, ready_fact, report_payload}
use rss_incubator.Device.State.Verify.{is_report, validate}
use rss_incubator.Device.State.Validity.{IsValid, validate_sound}
use rss_incubator.Device.State.Outbound.{
  inbound_settled, is_report_ready, publishable_fact, first_fact, next_outbound, take_event,
  settle_confirmed, confirm_outbound,
}
use rss_incubator.Device.State.Preservation.Outbox.{TakeEvent, take_event_lem, OwnActivation}
use rss_incubator.Device.State.Preservation.Confirm.{is_blocked_event, confirm_outbound-IsValid}

-- The entry that an event id takes out is the one that gave the fact.
abbrev Gives : Bool → OutboundFact → Option (StoredOutbound × List StoredOutbound) → Type 0
Gives settled fact none = true ≡ false
Gives settled fact (some (e, rest)) = publishable_fact settled e ≡ some fact

publishable-id :
    (settled : Bool) (e : StoredOutbound) (fact : OutboundFact)
    → publishable_fact settled e ≡ some fact
    → outbound_id e ≡ outbound_event_id fact
unfolding publishable_fact ready_fact is_report_ready outbound_id outbound_event_id
publishable-id settled (ack id a) fact h = ground arith
publishable-id settled (report_blocked id p) fact h = ground arith
publishable-id true (report_ready id p) fact h = ground arith
publishable-id false (report_ready id p) fact h = ground arith

published_contained :
    (settled : Bool) (fact : OutboundFact) (es : List StoredOutbound)
    → first_fact settled es ≡ some fact
    → contains (map outbound_id es) (outbound_event_id fact) ≡ true
unfolding first_fact
published_contained settled fact [] h = cc
published_contained settled fact (e ∷ es) h = elim (Option-cases (publishable_fact settled e)) [
  | inl n ↦ ground (arith, published_contained settled fact es)
  | inr (g, n) ↦ ground (arith, publishable-id settled e g n, ==_refl (outbound_id e))
]

Gives-later :
    (settled : Bool) (fact : OutboundFact) (e : StoredOutbound)
    (o : Option (StoredOutbound × List StoredOutbound))
    → Gives settled fact o
    → Gives settled fact (elim o [ none ↦ none | some (y, rest) ↦ some (y, e ∷ rest) ])
Gives-later settled fact e none h = h
Gives-later settled fact e (some (y, rest)) h = h

published_taken :
    (settled : Bool) (fact : OutboundFact) (es : List StoredOutbound)
    → Distinct (map outbound_id es)
    → first_fact settled es ≡ some fact
    → Gives settled fact (take_event (outbound_event_id fact) es)
unfolding first_fact take_event
published_taken settled fact [] d h = cc
published_taken settled fact (e ∷ es) d h = elim (Option-cases (publishable_fact settled e)) [
  | inl n ↦
      let later : first_fact settled es ≡ some fact = ground (arith, h) in
      let other : (outbound_id e == outbound_event_id fact) ≡ false = ground (
        arith,
        eq_of_== (outbound_id e) (outbound_event_id fact),
        published_contained settled fact es later,
      ) in
      rw other (
        Gives-later settled fact e (take_event (outbound_event_id fact) es)
          (published_taken settled fact es d.1 later))
  | inr (g, n) ↦
      let given : some g ≡ some fact = ground (arith, h) in
      let first : (outbound_id e == outbound_event_id fact) ≡ true =
        rw (publishable-id settled e fact (n ∙ given)) (==_refl (outbound_event_id fact)) in
      rw first (n ∙ given)
]

-- An entry that is published is not blocked, and a report only once its command is settled.
publishable-confirmable :
    (s : StateV1) (e : StoredOutbound) (rest : List StoredOutbound) (fact : OutboundFact)
    → publishable_fact (inbound_settled s) e ≡ some fact
    → (is_report_ready e && not (inbound_settled s)) ≡ false
unfolding publishable_fact ready_fact is_report_ready
publishable-confirmable s (ack id a) rest fact h = refl
publishable-confirmable s (report_blocked id p) rest fact h = refl
publishable-confirmable s (report_ready id p) rest fact h = ground arith

absent_blocked :
    (event : Text) (es : List StoredOutbound)
    → contains (map outbound_id es) event ≡ false
    → any (is_blocked_event event) es ≡ false
unfolding is_blocked_event outbound_id
absent_blocked event [] h = refl
absent_blocked event (ack id a ∷ es) h = ground (arith, absent_blocked event es)
absent_blocked event (report_blocked id p ∷ es) h = ground (arith, absent_blocked event es)
absent_blocked event (report_ready id p ∷ es) h = ground (arith, absent_blocked event es)

publishable-not_blocked :
    (settled : Bool) (event : Text) (e : StoredOutbound) (fact : OutboundFact)
    → publishable_fact settled e ≡ some fact
    → is_blocked_event event e ≡ false
unfolding publishable_fact ready_fact is_report_ready is_blocked_event
publishable-not_blocked settled event (ack id a) fact h = refl
publishable-not_blocked settled event (report_blocked id p) fact h = cc
publishable-not_blocked settled event (report_ready id p) fact h = refl

other_not_blocked :
    (event : Text) (e : StoredOutbound)
    → (outbound_id e == event) ≡ false
    → is_blocked_event event e ≡ false
unfolding is_blocked_event outbound_id
other_not_blocked event (ack id a) h = refl
other_not_blocked event (report_blocked id p) h = h
other_not_blocked event (report_ready id p) h = refl

module _ (s : StateV1) (fact : OutboundFact) where
  confirm_given :
      (o : Option (StoredOutbound × List StoredOutbound))
      → take_event (outbound_event_id fact) s.outbox ≡ o
      → Gives (inbound_settled s) fact o
      → (confirm_outbound s (outbound_event_id fact)).0 ≡ true
  unfolding confirm_outbound
  confirm_given none e h = cc
  confirm_given (some (x, rest)) e h =
      rw (e, publishable-confirmable s x rest fact h, confirm_outbound)

  not_blocked :
      (es : List StoredOutbound)
      → Distinct (map outbound_id es)
      → first_fact (inbound_settled s) es ≡ some fact
      → any (is_blocked_event (outbound_event_id fact)) es ≡ false
  unfolding first_fact
  not_blocked [] d h = refl
  not_blocked (e ∷ es) d h = elim (Option-cases (publishable_fact (inbound_settled s) e)) [
    | inl n ↦
        let later : first_fact (inbound_settled s) es ≡ some fact = ground (arith, h) in
        ground (
          arith,
          eq_of_== (outbound_id e) (outbound_event_id fact),
          published_contained (inbound_settled s) fact es later,
          other_not_blocked (outbound_event_id fact) e,
          not_blocked es d.1 later,
        )
    | inr (g, n) ↦
        let given : some g ≡ some fact = ground (arith, h) in
        ground (
          arith,
          publishable-id (inbound_settled s) e fact (n ∙ given),
          publishable-not_blocked (inbound_settled s) (outbound_event_id fact) e fact (n ∙ given),
          absent_blocked (outbound_event_id fact) es,
        )
  ]

module _ ⦃crates : Crates⦄ (s : StateV1) where
  -- An entry that is not blocked leaves no blocked report of its event id.
  passive-Taken :
      (event : Text) (e : StoredOutbound) (rest : List StoredOutbound)
      → IsValid s
      → Taken e rest s.outbox
      → (outbound_id e == event) ≡ true
      → is_blocked_event event e ≡ false
      → any (is_blocked_event event) s.outbox ≡ false
  passive-Taken event e rest v t n p = ground (
    arith,
    Taken-any (is_blocked_event event) t,
    absent_blocked event rest (
        subst (λ i. contains (map outbound_id rest) i ≡ false) (eq_of_== (outbound_id e) event n)
          (Taken-Distinct outbound_id t v.event_ids).0),
  )

  unsettled :
      (id : Text) (p : StoredReport) (rest : List StoredOutbound)
      → IsValid s
      → Taken (report_blocked id p) rest s.outbox
      → ¬ IsValid (record s { outbox = rest })
  unfolding report_payload
  unsettled id p rest v t w =
      ground (arith, v.one_report, v.pending_iff, w.pending_iff, Taken-count_if is_report t)

  confirm_blocked :
      (event : Text) (o : Option (StoredOutbound × List StoredOutbound))
      → IsValid s
      → any (is_blocked_event event) s.outbox ≡ true
      → TakeEvent event s.outbox o
      → take_event event s.outbox ≡ o
      → ((confirm_outbound s event).0 ≡ true) × ¬ (validate (confirm_outbound s event).1 ≡ ok tt)
  unfolding confirm_outbound settle_confirmed is_report_ready is_blocked_event
  confirm_blocked event none v h t e = absurd (ground (arith, absent_blocked event s.outbox t))
  confirm_blocked event (some (ack id a, rest)) v h t e =
      absurd (ground (arith, passive-Taken event (ack id a) rest v t.0 t.1 refl))
  confirm_blocked event (some (report_ready id p, rest)) v h t e =
      absurd (ground (arith, passive-Taken event (report_ready id p) rest v t.0 t.1 refl))
  confirm_blocked event (some (report_blocked id p, rest)) v h t e =
      rw (e, confirm_outbound)
        (refl, λ w. unsettled id p rest v t.0 (validate_sound (record s { outbox = rest }) w))

  -- In a valid state whose activating acknowledgements answer their own commands, the event that
  -- next_outbound publishes is one that confirm_outbound accepts, and the state that it leaves
  -- is valid.
  pub next_outbound-confirm :
      (fact : OutboundFact)
      → IsValid s
      → All OwnActivation s.outbox
      → next_outbound s ≡ some fact
      → ((confirm_outbound s (outbound_event_id fact)).0 ≡ true)
        × IsValid (confirm_outbound s (outbound_event_id fact)).1
  unfolding next_outbound
  next_outbound-confirm fact v own h = (
    confirm_given s fact _ refl (published_taken (inbound_settled s) fact s.outbox v.event_ids h),
    confirm_outbound-IsValid s v own (outbound_event_id fact)
        (not_blocked s fact s.outbox v.event_ids h),
  )

  -- In a valid state, confirm_outbound takes out a report that is still blocked, and validate
  -- does not accept the state that is left.
  pub confirm_outbound-blocked :
      (event : Text)
      → IsValid s
      → any (is_blocked_event event) s.outbox ≡ true
      → ((confirm_outbound s event).0 ≡ true) × ¬ (validate (confirm_outbound s event).1 ≡ ok tt)
  confirm_outbound-blocked event v h =
      confirm_blocked event (take_event event s.outbox) v h (take_event_lem event s.outbox) refl
