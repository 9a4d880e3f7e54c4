-- ===== src/Combinators/Laws.antt =====
-- What `map`, `filter_map` and `filter` have in common, and where they differ.
use ractor_wormhole.Prelude.{
  ℕ, ◌+◌, ◌≤◌, ◌≡◌, refl, sym, ap, ◌∙◌, Bool, true, false, Option, none, some, List, [], ◌∷◌, ◌++◌,
  append_assoc, append-nil, length, arith, Option-cases, inl, inr,
}
use ractor_wormhole.Outcome.{ok, err, send_failed}
use ractor_wormhole.Outcome.Action.{Action, continue, ◌>>=◌}
use ractor_wormhole.Combinators.{
  Target, FilterResult, forward, drop, sent, send, send_forward, filter_map_handle, filter_handle,
  handle_all,
}

-- The filter's verdict as an option.
abbrev pub kept : {M : Type 0} → FilterResult M → Option M
kept (forward m) = some m
kept drop = none

abbrev prepend : {M : Type 0} → Option M → List M → List M
prepend none ms = ms
prepend (some m) ms = m ∷ ms

-- The messages that pass, in their order.
abbrev pub passing : {N M : Type 0} → (N → Option M) → List N → List M
passing f [] = []
passing f (m ∷ ms) = prepend (f m) (passing f ms)

module _ (alive : ℕ → Bool) {M : Type 0} where
  -- The target after the messages have been sent one by one.
  abbrev sent_all : Target M → List M → Target M
  sent_all t [] = t
  sent_all t (m ∷ ms) = sent_all (sent t (m ∷ [])) ms

  inbox-sent_all : (ms : List M) (t : Target M) → (sent_all t ms).inbox ≡ t.inbox ++ ms
  inbox-sent_all [] t = sym (append-nil t.inbox)
  inbox-sent_all (m ∷ ms) t = inbox-sent_all ms (sent t (m ∷ [])) ∙ append_assoc t.inbox (m ∷ []) ms

  sends-sent_all : (ms : List M) (t : Target M) → (sent_all t ms).sends ≡ t.sends + length ms
  sends-sent_all [] t = omega arith
  sends-sent_all (m ∷ ms) t = omega (arith, sends-sent_all ms (sent t (m ∷ [])))

  module _ (up : (n : ℕ) → alive n ≡ true) where
    send-up : (m : M) (t : Target M) → send alive m t ≡ (ok tt, sent t (m ∷ []))
    unfolding send
    send-up m t = rw (up t.sends) refl

    filter_map-up :
        {N : Type 0} (f : N → Option M) (ms : List N) (t : Target M)
        → handle_all (filter_map_handle alive f) ms t ≡ (ok tt, sent_all t (passing f ms))
    unfolding handle_all filter_map_handle
    filter_map-up f [] t = refl
    filter_map-up f (m ∷ ms) t = elim (Option-cases (f m)) [
      | inl e ↦ rw e (filter_map-up f ms t)
      | inr (a, e) ↦ rw e (rw (send-up a t) (filter_map-up f ms (sent t (a ∷ []))))
    ]

    -- A verdict that is acted on, and then the rest of the run.
    send_forward-up :
        (v : FilterResult M) (t : Target M) (k : Action (Target M) (Unit {0}))
        → continue (λ _. k) (send_forward alive v t).0 (send_forward alive v t).1
          ≡ k (sent_all t (prepend (kept v) []))
    send_forward-up drop t k = refl
    send_forward-up (forward a) t k = ap (λ r. k r.1) (send-up a t)

    sent_all-prepend :
        (o : Option M) (ms : List M) (t : Target M)
        → sent_all (sent_all t (prepend o [])) ms ≡ sent_all t (prepend o ms)
    sent_all-prepend none ms t = refl
    sent_all-prepend (some m) ms t = refl

    filter-up :
        (f : M → FilterResult M) (ms : List M) (t : Target M)
        → handle_all (filter_handle alive f) ms t
          ≡ (ok tt, sent_all t (passing (λ m. kept (f m)) ms))
    unfolding handle_all filter_handle ◌>>=◌
    filter-up f [] t = refl
    filter-up f (m ∷ ms) t =
        send_forward-up (f m) t (handle_all (filter_handle alive f) ms)
        ∙ filter-up f ms (sent_all t (prepend (kept (f m)) []))
        ∙ ap (λ (s : Target M). (ok tt, s))
            (sent_all-prepend (kept (f m)) (passing (λ a. kept (f a)) ms) t)

  module _ (down : (n : ℕ) → alive n ≡ false) where
    send-down : (m : M) (t : Target M) → send alive m t ≡ (err send_failed, sent t [])
    unfolding send
    send-down m t = rw (down t.sends) refl

    filter_map-down :
        {N : Type 0} (f : N → Option M) (ms : List N) (t : Target M)
        → (handle_all (filter_map_handle alive f) ms t).1.sends ≤ t.sends + 1
    unfolding handle_all filter_map_handle
    filter_map-down f [] t = omega arith
    filter_map-down f (m ∷ ms) t = elim (Option-cases (f m)) [
      | inl e ↦ rw e (filter_map-down f ms t)
      | inr (a, e) ↦ rw e (rw (send-down a t) (omega arith))
    ]

    verdict-down :
        (v : FilterResult M) (t : Target M) (k : Action (Target M) (Unit {0})) (n : ℕ)
        → ((s : Target M) → ((k s).0 ≡ ok tt) × ((k s).1.sends ≡ s.sends + n))
        → let r = continue (λ _. k) (send_forward alive v t).0 (send_forward alive v t).1 in
          (r.0 ≡ ok tt) × (r.1.sends ≡ t.sends + length (prepend (kept v) []) + n)
    verdict-down drop t k n h = ((h t).0, omega (arith, (h t).1))
    verdict-down (forward a) t k n h =
        rw (send-down a t) ((h (sent t [])).0, omega (arith, (h (sent t [])).1))

    length-prepend :
        (o : Option M) (ms : List M) → length (prepend o ms) ≡ length (prepend o []) + length ms
    length-prepend none ms = omega arith
    length-prepend (some m) ms = omega arith

    filter-down :
        (f : M → FilterResult M) (ms : List M) (t : Target M)
        → ((handle_all (filter_handle alive f) ms t).0 ≡ ok tt)
          × ((handle_all (filter_handle alive f) ms t).1.sends
              ≡ t.sends + length (passing (λ m. kept (f m)) ms))
    unfolding handle_all filter_handle ◌>>=◌
    filter-down f [] t = (refl, omega arith)
    filter-down f (m ∷ ms) t =
        let r =
          verdict-down (f m) t (handle_all (filter_handle alive f) ms)
            (length (passing (λ a. kept (f a)) ms)) (λ s. filter-down f ms s) in
        (r.0, omega (arith, r.1, length-prepend (kept (f m)) (passing (λ a. kept (f a)) ms)))

-- Before an actor that lives, `filter` does on every sequence of messages what `filter_map` does
-- with the verdicts as options, without an error, and the actor gets exactly the messages that
-- pass, in their order.
pub filter-agrees :
    (alive : ℕ → Bool) {M : Type 0} (f : M → FilterResult M) (ms : List M) (t : Target M)
    → ((n : ℕ) → alive n ≡ true)
    → (handle_all (filter_handle alive f) ms t
        ≡ handle_all (filter_map_handle alive (λ m. kept (f m))) ms t)
      × ((handle_all (filter_handle alive f) ms t).0 ≡ ok tt)
      × ((handle_all (filter_handle alive f) ms t).1.inbox
          ≡ t.inbox ++ passing (λ m. kept (f m)) ms)
filter-agrees alive f ms t up = (
  filter-up alive up f ms t ∙ sym (filter_map-up alive up (λ m. kept (f m)) ms t),
  ap (λ r. r.0) (filter-up alive up f ms t),
  ap (λ r. r.1.inbox) (filter-up alive up f ms t)
      ∙ inbox-sent_all alive (passing (λ m. kept (f m)) ms) t,
)

-- Before an actor that is gone, `filter` fails for no message and tries to send each that passes,
-- while `filter_map` tries one send at most.
pub filter-goes_on :
    (alive : ℕ → Bool) {M : Type 0} (f : M → FilterResult M) (ms : List M) (t : Target M)
    → ((n : ℕ) → alive n ≡ false)
    → ((handle_all (filter_handle alive f) ms t).0 ≡ ok tt)
      × ((handle_all (filter_handle alive f) ms t).1.sends
          ≡ t.sends + length (passing (λ m. kept (f m)) ms))
      × ((handle_all (filter_map_handle alive (λ m. kept (f m))) ms t).1.sends ≤ t.sends + 1)
filter-goes_on alive f ms t down =
    let r = filter-down alive down f ms t in
    (r.0, r.1, filter_map-down alive down (λ m. kept (f m)) ms t)
