-- ===== src/Flows/Event/Delivery.antt =====
-- What an event bus delivers after a subscription, and after it is taken back.
use genkit_cowork.Base.{
  ℕ, ◌+◌, ◌<◌, ◌==◌, Bool, true, false, List, [], ◌∷◌, ◌++◌, Option, none, some, ◌≡◌, refl, sym, ap,
  subst, ◌∙◌, inl, inr, arith, if◌then◌else◌, Bool-cases,
}
use genkit_cowork.Base.Bytes.{Bytes, eqb, eqb_iff, eqb_refl}
use genkit_cowork.Base.Dict.{Dict, lookup, insert, lookup-insert}
use genkit_cowork.Flows.Event.{
  Event, EventHandler, Subscriber, EventBus, EmitError, new_event_bus, new_subscriber, or_empty,
  listed, subscribe, mark, mark_at, unsubscribe, deliver, and_then, deliver_all, emit,
}

module _ {D E S : Type 0} where
  -- Every subscriber has an address below that of the next one.
  pub data Below (n : ℕ) : List (Subscriber D E S) → Type 0 where
    none_below : Below n []
    one_below :
        {s : Subscriber D E S} {subs : List (Subscriber D E S)}
        → s.address < n
        → Below n subs
        → Below n (s ∷ subs)

  abbrev pub IsFresh : EventBus D E S → Type 0
  IsFresh bus = (t : Bytes) → Below bus.next (listed t bus.subscribers)

  or_empty_if :
      (b : Bool) (subs : List (Subscriber D E S)) (o : Option (List (Subscriber D E S)))
      → or_empty (if b then some subs else o) ≡ (if b then subs else or_empty o)
  unfolding or_empty
  or_empty_if true subs o = refl
  or_empty_if false subs o = refl

  listed-insert :
      (t u : Bytes) (subs : List (Subscriber D E S)) (d : Dict (List (Subscriber D E S)))
      → listed u (insert t subs d) ≡ (if eqb t u then subs else listed u d)
  unfolding listed
  listed-insert t u subs d =
      ap or_empty (lookup-insert t u subs d) ∙ or_empty_if (eqb t u) subs (lookup u d)

  -- The mark meets the last subscriber alone.
  mark_at-append :
      (a : ℕ) (subs : List (Subscriber D E S)) (s : Subscriber D E S)
      → Below a subs
      → s.address ≡ a
      → mark_at a (subs ++ s ∷ []) ≡ subs ++ mark s ∷ []
  unfolding mark_at
  mark_at-append a [] s none_below e = ground arith
  mark_at-append a (x ∷ subs) s (one_below less below) e =
      let rest = mark_at-append a subs s below e in ground arith

  Below-suc :
      (n : ℕ) (subs : List (Subscriber D E S)) (s : Subscriber D E S)
      → Below n subs
      → s.address ≡ n
      → Below (n + 1) (subs ++ s ∷ [])
  Below-suc n [] s none_below e = one_below (omega arith) none_below
  Below-suc n (x ∷ subs) s (one_below less below) e =
      one_below (omega arith) (Below-suc n subs s below e)

  Below-up : (n : ℕ) (subs : List (Subscriber D E S)) → Below n subs → Below (n + 1) subs
  Below-up n [] none_below = none_below
  Below-up n (x ∷ subs) (one_below less below) = one_below (omega arith) (Below-up n subs below)

  Below-mark_at :
      (n a : ℕ) (subs : List (Subscriber D E S)) → Below n subs → Below n (mark_at a subs)
  unfolding mark_at mark
  Below-mark_at n a [] none_below = none_below
  Below-mark_at n a (x ∷ subs) (one_below less below) =
      let rest = Below-mark_at n a subs below in
      elim (Bool-cases (x.address == a)) [
        | inr other ↦ rw other (one_below less rest)
        | inl same ↦ elim (Bool-cases x.unsubscribed) [
          | inl done ↦ rw (same, done) (one_below less rest)
          | inr first ↦ rw (same, first) (one_below less rest)
        ]
      ]

  Below-if :
      (n : ℕ) (b : Bool) {subs more : List (Subscriber D E S)}
      → Below n subs
      → Below n more
      → Below n (if b then subs else more)
  Below-if n true p q = p
  Below-if n false p q = q

  -- The buses that a program can make.
  pub data Reached : EventBus D E S → Type 0 where
    made : Reached new_event_bus
    subscribed :
        {bus : EventBus D E S} (t : Bytes) (h : EventHandler D E S)
        → Reached bus
        → Reached (subscribe bus t h)
    taken_back :
        {bus : EventBus D E S} (t : Bytes) (a : ℕ) → Reached bus → Reached (unsubscribe t a bus)

  Reached-IsFresh : {bus : EventBus D E S} → Reached bus → IsFresh bus
  unfolding subscribe unsubscribe listed or_empty lookup
  Reached-IsFresh made u = none_below
  Reached-IsFresh (subscribed {bus} t h r) u =
      subst (Below (bus.next + 1)) (sym (listed-insert t u _ bus.subscribers)) (
        Below-if (bus.next + 1) (eqb t u)
          (Below-suc bus.next (listed t bus.subscribers) _ (Reached-IsFresh r t) refl)
          (Below-up bus.next (listed u bus.subscribers) (Reached-IsFresh r u)))
  Reached-IsFresh (taken_back {bus} t a r) u =
      subst (Below bus.next) (sym (listed-insert t u _ bus.subscribers)) (
        Below-if bus.next (eqb t u)
          (Below-mark_at bus.next a (listed t bus.subscribers) (Reached-IsFresh r t))
          (Reached-IsFresh r u))

  listed_undone :
      (bus : EventBus D E S) (t u : Bytes) (h : EventHandler D E S)
      → IsFresh bus
      → listed u (unsubscribe t bus.next (subscribe bus t h)).subscribers ≡ (
          if eqb t u
          then listed t bus.subscribers ++ mark (new_subscriber bus h) ∷ []
          else listed u bus.subscribers)
  unfolding unsubscribe subscribe
  listed_undone bus t u h fresh = elim (Bool-cases (eqb t u)) [
    | inl same ↦
        rw
          (
            listed-insert t u _ (subscribe bus t h).subscribers,
            same,
            listed-insert t t _ bus.subscribers,
            eqb_refl t,
          )
          (mark_at-append bus.next (listed t bus.subscribers) (new_subscriber bus h) (fresh t) refl)
    | inr other ↦
        rw
          (
            listed-insert t u _ (subscribe bus t h).subscribers,
            listed-insert t u _ bus.subscribers,
            other,
          )
          refl
  ]

  mark-removed :
      (bus : EventBus D E S) (h : EventHandler D E S) → (mark (new_subscriber bus h)).removed ≡ true
  unfolding mark
  mark-removed bus h = refl

module _ {E S : Type 0} where
  and_then_ext :
      (r : S × Option (EmitError E)) (f g : S → S × Option (EmitError E))
      → ((s : S) → f s ≡ g s)
      → and_then r f ≡ and_then r g
  unfolding and_then
  and_then_ext (s, some e) f g eq = refl
  and_then_ext (s, none) f g eq = eq s

module _ {D E S : Type 0} (ctx_err : S → Option E) where
  deliver_all-removed :
      (event : Event D) (subs : List (Subscriber D E S)) (last : Subscriber D E S) (s : S)
      → last.removed ≡ true
      → deliver_all ctx_err event (subs ++ last ∷ []) s ≡ deliver_all ctx_err event subs s
  unfolding deliver_all and_then deliver
  deliver_all-removed event [] last s e = rw e refl
  deliver_all-removed event (sub ∷ subs) last s e =
      and_then_ext (deliver ctx_err event sub s) (deliver_all ctx_err event (subs ++ last ∷ []))
        (deliver_all ctx_err event subs) (λ after. deliver_all-removed event subs last after e)

  -- On every bus that a program can make, a subscription that is taken back leaves no trace: each
  -- emit does and returns what it did before the subscription.
  pub emit-unsubscribe :
      (bus : EventBus D E S) (t : Bytes) (h : EventHandler D E S)
      → Reached bus
      → (event : Event D) (s : S)
      → emit ctx_err (unsubscribe t bus.next (subscribe bus t h)) event s ≡ emit ctx_err bus event s
  unfolding emit unsubscribe subscribe
  emit-unsubscribe bus t h r event s = elim (Bool-cases (eqb t event.event_type)) [
    | inl same ↦
        rw (listed_undone bus t event.event_type h (Reached-IsFresh r), same)
          (deliver_all-removed event (listed t bus.subscribers) _ s (mark-removed bus h)
            ∙ ap (λ u. deliver_all ctx_err event (listed u bus.subscribers) s)
                ((eqb_iff t event.event_type).0 same))
    | inr other ↦ rw (listed_undone bus t event.event_type h (Reached-IsFresh r), other) refl
  ]
