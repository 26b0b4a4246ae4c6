-- ===== src/Device/State/Preservation/Outbox.antt =====
-- What a valid outbox of state.rs holds: which entry an event id takes out, and that an activation has
-- one report.
use rss_incubator.Base.{
  ℕ, ◌≡◌, refl, ◌∙◌, ap, true, false, Option, none, some, List, [], ◌∷◌, map, Text, arith, ◌==◌,
  nat_eq, list_eq, ==_refl, Bool-cases, inl, inr, eq_of_==, ltb, is_some, All, any, count_if,
  contains, Taken, here, there, codes,
}
use rss_incubator.Crates.{Crates}
use rss_incubator.Device.State.Stored.{
  StateV1, StoredAck, StoredOutbound, ack, report_blocked, report_ready,
}
use rss_incubator.Device.State.Hashes.{event_id}
use rss_incubator.Device.State.Entries.{
  outbound_id, report_payload, event_valid, ack_event_kind, outbound_semantic_valid,
}
use rss_incubator.Device.State.Verify.{is_report, is_blocked_report, is_activation}
use rss_incubator.Device.State.Validity.{EntryIsValid}
use rss_incubator.Device.State.Outbound.{take_event}

-- What `take_event` gives: no entry has the event id, or one with it was removed.
abbrev pub TakeEvent :
    Text → List StoredOutbound → Option (StoredOutbound × List StoredOutbound) → Type 0
TakeEvent id es none = contains (map outbound_id es) id ≡ false
TakeEvent id es (some (e, rest)) = Taken e rest es × ((outbound_id e == id) ≡ true)

pub TakeEvent-later :
    (id : Text) (x : StoredOutbound) (es : List StoredOutbound)
    (o : Option (StoredOutbound × List StoredOutbound))
    → (outbound_id x == id) ≡ false
    → TakeEvent id es o
    → TakeEvent id (x ∷ es) (elim o [ none ↦ none | some (y, rest) ↦ some (y, x ∷ rest) ])
TakeEvent-later id x es none miss h = rw (miss) h
TakeEvent-later id x es (some (y, rest)) miss h = (there h.0, h.1)

pub take_event_lem : (id : Text) (es : List StoredOutbound) → TakeEvent id es (take_event id es)
unfolding take_event
take_event_lem id [] = refl
take_event_lem id (x ∷ es) = elim (Bool-cases (outbound_id x == id)) [
  | inl hit ↦ rw hit (here, hit)
  | inr miss ↦ rw miss (TakeEvent-later id x es (take_event id es) miss (take_event_lem id es))
]

-- An acknowledgement that activates a revision answers its own command.
abbrev pub OwnActivation : StoredOutbound → Type 0
OwnActivation (ack id a) = is_some a.activates_revision ≡ true → a.event_cause ≡ a.command_id
OwnActivation (report_blocked id r) = Unit
OwnActivation (report_ready id r) = Unit

-- The command of a blocked report is determined where there is one report.
pub none_blocked :
    (r : ℕ) (c : Text) (es : List StoredOutbound)
    → count_if is_report es ≡ 0
    → any (is_blocked_report r c) es ≡ false
unfolding is_blocked_report report_payload
none_blocked r c [] h = refl
none_blocked r c (ack id a ∷ es) h = none_blocked r c es h
none_blocked r c (report_ready id p ∷ es) h = absurd (omega arith)
none_blocked r c (report_blocked id p ∷ es) h = absurd (omega arith)

pub blocked_unique :
    (r r' : ℕ) (c c' : Text) (es : List StoredOutbound)
    → ltb 1 (count_if is_report es) ≡ false
    → any (is_blocked_report r c) es ≡ true
    → any (is_blocked_report r' c') es ≡ true
    → (r ≡ r') × (c ≡ c')
unfolding is_blocked_report report_payload
blocked_unique r r' c c' [] one h h' = cc
blocked_unique r r' c c' (ack id a ∷ es) one h h' = blocked_unique r r' c c' es one h h'
blocked_unique r r' c c' (report_ready id p ∷ es) one h h' = ground (arith, none_blocked r c es)
blocked_unique r r' c c' (report_blocked id p ∷ es) one h h' = ground (
  arith,
  none_blocked r c es,
  none_blocked r' c' es,
  eq_of_== p.command_id c,
  eq_of_== p.command_id c',
)

-- Where there is one report and it is blocked, every report is that one.
pub blocked_only :
    (r : ℕ) (c : Text) (es : List StoredOutbound)
    → ltb 1 (count_if is_report es) ≡ false
    → any (is_blocked_report r c) es ≡ true
    → All (λ x. is_report x ≡ true → is_blocked_report r c x ≡ true) es
unfolding is_blocked_report report_payload
blocked_only r c [] one h = tt
blocked_only r c (ack id a ∷ es) one h = (λ f. cc, blocked_only r c es one h)
blocked_only r c (report_ready id p ∷ es) one h = absurd (ground (arith, none_blocked r c es))
blocked_only r c (report_blocked id p ∷ es) one h =
    (λ _. ground (arith, none_blocked r c es), no_other es (ground arith))
  where
    no_other :
        (xs : List StoredOutbound)
        → count_if is_report xs ≡ 0
        → All (λ x. is_report x ≡ true → is_blocked_report r c x ≡ true) xs
    no_other [] z = tt
    no_other (ack i a ∷ xs) z = (λ f. cc, no_other xs z)
    no_other (report_ready i q ∷ xs) z = absurd (omega arith)
    no_other (report_blocked i q ∷ xs) z = absurd (omega arith)

pub own_event :
    ⦃crates : Crates⦄
    → (s : StateV1) (id : Text) (a : StoredAck) → EntryIsValid s (ack id a)
    → a.event_cause ≡ a.command_id
    → id ≡ event_id (codes "ack") a.command_id
unfolding outbound_semantic_valid event_valid ack_event_kind
own_event s id a v e =
    let same : (a.event_cause == a.command_id) ≡ true = rw e (==_refl a.command_id) in
    eq_of_== id (event_id (codes "ack") a.command_id)
      (ground (arith, same, v.meaningful, ap (event_id (codes "ack")) e))

-- A valid entry's event id, and the id of an activation of its own command.
pub activation_id :
    ⦃crates : Crates⦄
    → (s : StateV1) (e : StoredOutbound) (r : ℕ) (c : Text) → EntryIsValid s e
    → OwnActivation e
    → is_activation r c e ≡ true
    → outbound_id e ≡ event_id (codes "ack") c
unfolding is_activation outbound_id outbound_semantic_valid event_valid ack_event_kind
activation_id s (ack id a) r c v own h =
    own_event s id a v (own (ground arith))
    ∙ ap (event_id (codes "ack")) (eq_of_== a.command_id c (ground arith))
activation_id s (report_blocked id p) r c v own h = cc
activation_id s (report_ready id p) r c v own h = cc

pub no_second :
    ⦃crates : Crates⦄
    → (s : StateV1) (r : ℕ) (c : Text) (es : List StoredOutbound)
    → contains (map outbound_id es) (event_id (codes "ack") c) ≡ false
    → All (EntryIsValid s) es
    → All OwnActivation es
    → any (is_activation r c) es ≡ false
no_second s r c [] fresh v own = refl
no_second s r c (e ∷ es) fresh v own = elim (Bool-cases (is_activation r c e)) [
  | inl active ↦
      let same : (outbound_id e == event_id (codes "ack") c) ≡ true =
        rw (activation_id s e r c v.0 own.0 active) (==_refl (event_id (codes "ack") c)) in
      ground (arith, same)
  | inr other ↦ rw other (no_second s r c es (ground arith) v.1 own.1)
]
