-- ===== src/Conduit/UnixSocket/Closing.antt =====
-- Whatever comes over a unix socket, the loop comes to its end.
use ractor_wormhole.Prelude.{
  ℕ, suc, ◌+◌, ◌<◌, ◌≤◌, ◌≡◌, ◌≢◌, subst, ap, Bool, true, false, [], ◌∷◌, length, length-drop, drop,
  All, All-drop, none, some, ◌^◌, ◌*◌, ◌%◌, leb, ltb, lt→ltb, ◌==◌, take, if◌then◌else◌, arith,
}
use ractor_wormhole.Outcome.{
  Outcome, ok, err, panic, stuck, Error, invalid_utf8, unknown_message_type, Bytes,
}
use ractor_wormhole.Outcome.Action.{Action, pure, lift, continue, ◌>>=◌}
use ractor_wormhole.Platform.{Platform, IsSupported, usize_limit, isize_limit, isize_limit-double}
use ractor_wormhole.Transmaterialization.LeBytes.{IsByte}
use native.Mathlib.Nat.{mod-eq_of_lt}
use ractor_wormhole.Transmaterialization.Utf8.{is_utf8, from_utf8}
use ractor_wormhole.Portal.Types.{PortalActorMessage}
use ractor_wormhole.Conduit.Message.{ConduitMessage, handshake, content, close}
use ractor_wormhole.Conduit.ReceiveLoop.{Turn, cast, break, crash, starve, turn, receive_loop}
use ractor_wormhole.Conduit.ReceiveLoop.Laws.{Closes, Shrinks, receive_loop-Closes}
use ractor_wormhole.Conduit.Bytestream.{read_u8, read_u32, read_exact, read_data}
use ractor_wormhole.Conduit.UnixSocket.{read_message, read_element, create_source}

-- A result that is a value or an error and leaves bytes, of which there are at most `n`.
abbrev pub Returns : {A : Type 0} → (n : ℕ) → Outcome A → Bytes → Type 0
Returns n (ok a) bytes = All IsByte bytes × (length bytes ≤ n)
Returns n (err e) bytes = Unit {0}
Returns n panic bytes = ⊥
Returns n stuck bytes = ⊥

abbrev pub Reads : {A : Type 0} → Action Bytes A → Type 0
Reads m = (bytes : Bytes) → All IsByte bytes → Returns (length bytes) (m bytes).0 (m bytes).1

Returns-weaken :
    {A : Type 0} (m n : ℕ) (r : Outcome A) (bytes : Bytes)
    → m ≤ n
    → Returns m r bytes
    → Returns n r bytes
Returns-weaken m n (ok a) bytes le h = (h.0, omega (arith, h.1))
Returns-weaken m n (err e) bytes le h = tt
Returns-weaken m n panic bytes le h = h
Returns-weaken m n stuck bytes le h = h

module _ {A B : Type 0} where
  pub Returns-continue :
      (f : A → Action Bytes B) (n : ℕ)
      → ((a : A) → Reads (f a))
      → (r : Outcome A) (bytes : Bytes) → Returns n r bytes
      → Returns n (continue f r bytes).0 (continue f r bytes).1
  Returns-continue f n h (ok a) bytes t =
      Returns-weaken (length bytes) n (f a bytes).0 (f a bytes).1 t.1 (h a bytes t.0)
  Returns-continue f n h (err e) bytes t = tt
  Returns-continue f n h panic bytes t = t
  Returns-continue f n h stuck bytes t = t

  Reads-bind :
      (m : Action Bytes A) (f : A → Action Bytes B)
      → Reads m
      → ((a : A) → Reads (f a))
      → Reads (m >>= f)
  unfolding ◌>>=◌
  Reads-bind m f h k bytes valid =
      Returns-continue f (length bytes) k (m bytes).0 (m bytes).1 (h bytes valid)

Reads-pure : {A : Type 0} (a : A) → Reads (pure a)
Reads-pure a bytes valid = (valid, omega arith)

Reads-fail : (A : Type 0) (e : Error) → Reads (lift {A = A} (err e))
Reads-fail A e bytes valid = tt

Reads-if :
    {A : Type 0} (b : Bool) (m n : Action Bytes A) → Reads m → Reads n → Reads (if b then m else n)
Reads-if true m n h k = h
Reads-if false m n h k = k

Reads-from_utf8 : (bytes : Bytes) → Reads (lift (from_utf8 bytes))
unfolding from_utf8
Reads-from_utf8 bytes = Reads-lift_if (is_utf8 bytes)
  where
    Reads-lift_if : (b : Bool) → Reads (lift (if b then ok bytes else err invalid_utf8))
    Reads-lift_if true rest valid = (valid, omega arith)
    Reads-lift_if false rest valid = tt

after : Bytes → Turn Bytes → Bytes
after rest (cast m r) = r
after rest break = rest
after rest crash = rest
after rest starve = rest

module _ (p : Platform) (ended : Error) (wide : 2 ^ 32 ≤ isize_limit p) (s : IsSupported p) where
  Reads-read_exact : (n : ℕ) → Reads (read_exact ended n)
  unfolding read_exact
  Reads-read_exact n bytes valid = split (leb n (length bytes))
    where
      split :
          (b : Bool)
          → let r : Outcome Bytes × Bytes =
              if b then (ok (take n bytes), drop n bytes) else (err ended, []) in
            Returns (length bytes) r.0 r.1
      split true = (All-drop IsByte n bytes valid, omega (arith, length-drop n bytes))
      split false = tt

  -- The rest of `read_data`, after the length.
  Reads-sized :
      (n : ℕ)
      → n < 2 ^ 32
      → Reads (
          lift (if ltb (n % usize_limit p) (isize_limit p) then ok (n % usize_limit p) else panic)
          >>= read_exact ended)
  Reads-sized n small = rw (mod-eq_of_lt fits) (
      rw (lt→ltb n (isize_limit p) (omega (arith, wide))) (
        Reads-bind (lift (ok n)) (read_exact ended) (λ bytes v. (v, omega arith)) Reads-read_exact))
    where
      fits : n < usize_limit p
      fits = omega (arith, wide, isize_limit-double p s)

  Reads-read_data : Reads (read_data ended p)
  unfolding read_data read_u32 ◌>>=◌
  Reads-read_data (a ∷ b ∷ c ∷ d ∷ bytes) (ha, (hb, (hc, (hd, valid)))) =
      let n = a * 16777216 + b * 65536 + c * 256 + d in
      Returns-weaken (length bytes) (suc (suc (suc (suc (length bytes))))) _ _ (omega arith)
        (Reads-sized n (omega arith) bytes valid)
  Reads-read_data [] valid = tt
  Reads-read_data (a ∷ []) valid = tt
  Reads-read_data (a ∷ b ∷ []) valid = tt
  Reads-read_data (a ∷ b ∷ c ∷ []) valid = tt

  Reads-read_message : (t : ℕ) → Reads (read_message p ended t)
  unfolding read_message
  Reads-read_message t =
      Reads-if (t == 0) _ _
        (Reads-bind (read_data ended p) _ Reads-read_data (λ bytes.
          Reads-bind (lift (from_utf8 bytes)) _ (Reads-from_utf8 bytes)
            (λ text. Reads-pure (handshake text))))
        (Reads-if (t == 1) _ _
          (Reads-bind (read_data ended p) _ Reads-read_data (λ bytes. Reads-pure (content bytes)))
          (Reads-if (t == 2) _ _ (Reads-pure (close none))
            (Reads-fail ConduitMessage (unknown_message_type t))))

  -- What the loop makes of such a result.
  turn-cast :
      (k : ℕ) (r : Outcome ConduitMessage) (rest rest' : Bytes) (m : PortalActorMessage)
      → Returns k r rest
      → turn (some (r, rest)) ≡ cast m rest'
      → All IsByte rest' × (length rest' ≤ k)
  unfolding turn after
  turn-cast k (ok (handshake text)) rest rest' m h e =
      subst (λ (b : Bytes). All IsByte b × (length b ≤ k)) (ap (λ (t : Turn Bytes). after rest t) e)
        h
  turn-cast k (ok (content bytes)) rest rest' m h e =
      subst (λ (b : Bytes). All IsByte b × (length b ≤ k)) (ap (λ (t : Turn Bytes). after rest t) e)
        h
  turn-cast k (ok (close reason)) rest rest' m h e = absurd (cc e)
  turn-cast k (err x) rest rest' m h e = absurd (cc e)
  turn-cast k panic rest rest' m h e = elim h [ ]
  turn-cast k stuck rest rest' m h e = elim h [ ]

  turn-goes_on :
      (k : ℕ) (r : Outcome ConduitMessage) (rest : Bytes)
      → Returns k r rest
      → (turn (some (r, rest)) ≢ crash) × (turn (some (r, rest)) ≢ starve)
  unfolding turn
  turn-goes_on k (ok (handshake text)) rest h = (λ e. cc e, λ e. cc e)
  turn-goes_on k (ok (content bytes)) rest h = (λ e. cc e, λ e. cc e)
  turn-goes_on k (ok (close reason)) rest h = (λ e. cc e, λ e. cc e)
  turn-goes_on k (err x) rest h = (λ e. cc e, λ e. cc e)
  turn-goes_on k panic rest h = elim h [ ]
  turn-goes_on k stuck rest h = elim h [ ]

  module _ (alive : ℕ → Bool) (up : (n : ℕ) → alive n ≡ true) where
    create_source-Shrinks : Shrinks (create_source p ended) alive up (All IsByte) length
    unfolding create_source read_element read_u8 ◌>>=◌ turn
    create_source-Shrinks = record { less = less; no_crash = no_crash; no_starve = no_starve }
      where
        less :
            (r r' : Bytes) (m : PortalActorMessage)
            → All IsByte r
            → turn (create_source p ended r) ≡ cast m r'
            → All IsByte r' × (length r' < length r)
        less [] r' m valid e = absurd (cc e)
        less (b ∷ bytes) r' m valid e =
            let t = turn-cast (length bytes) _ _ r' m (Reads-read_message b bytes valid.1) e in
            (t.0, omega (arith, t.1))

        no_crash : (r : Bytes) → All IsByte r → turn (create_source p ended r) ≢ crash
        no_crash [] valid = λ e. cc e
        no_crash (b ∷ bytes) valid =
            (turn-goes_on (length bytes) _ _ (Reads-read_message b bytes valid.1)).0

        no_starve : (r : Bytes) → All IsByte r → turn (create_source p ended r) ≢ starve
        no_starve [] valid = λ e. cc e
        no_starve (b ∷ bytes) valid =
            (turn-goes_on (length bytes) _ _ (Reads-read_message b bytes valid.1)).1

-- Whatever bytes come over a unix socket, and whichever error ends them, on a platform that can
-- hold 2^32 bytes the receive loop ends after at most as many turns as there are bytes, and one,
-- without a panic, and the last message that it gives a living portal is `Close`.
pub receive_loop-closed :
    (p : Platform) (ended : Error) (alive : ℕ → Bool) (bytes : Bytes) (fuel n : ℕ)
    → IsSupported p
    → 2 ^ 32 ≤ isize_limit p
    → ((m : ℕ) → alive m ≡ true)
    → All IsByte bytes
    → length bytes < fuel
    → Closes (receive_loop (create_source p ended) alive fuel n bytes)
receive_loop-closed p ended alive bytes fuel n s wide up valid enough =
    receive_loop-Closes (create_source p ended) alive up (All IsByte) length fuel n bytes
      (create_source-Shrinks p ended wide s alive up) valid enough
