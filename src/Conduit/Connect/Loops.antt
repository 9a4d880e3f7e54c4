-- ===== src/Conduit/Connect/Loops.antt =====
-- The receive loops that a server starts.
use ractor_wormhole.Prelude.{
  ℕ, suc, ◌≡◌, ◌∙◌, refl, ap, Bool, true, false, Option, none, some, inl, inr, List, [], ◌∷◌, ◌++◌,
  Bool-cases, subst, ◌==◌, if◌then◌else◌,
}
use ractor_wormhole.Prelude.Map.{get, insert, nat_eq, get-insert, beq_refl}
use ractor_wormhole.Outcome.{Outcome, ok, err, send_failed, panic, stuck, Bytes}
use ractor_wormhole.Outcome.Action.{lift, continue, pure, ◌>>=◌}
use ractor_wormhole.Outcome.Keeps.{Keeps, Keeps-lift, Keeps-pure, Keeps-bind, Keeps-after}
use ractor_wormhole.Nexus.{
  NexusActorState, Env, Effect, spawn_portal, call_back, reply_portal, reply_portals, reply_actor,
  connected, handle, on_connected, call_back_to, send_to, emit,
}
use ractor_wormhole.Conduit.Connect.{
  Host, portal_for, awaited, settle, ask_connected, spawn_loop, from_sink_source, handle_connection,
  serve,
}

-- The nexus keeps this portal.
abbrev pub Has : ℕ → List (ℕ × Bytes) → Type 0
Has p m = (identifier : Bytes) × (get p m ≡ some identifier)

Has-insert : (p q : ℕ) (v : Bytes) (m : List (ℕ × Bytes)) → Has p m → Has p (insert q v m)
Has-insert p q v m (w, e) = elim (Bool-cases (q == p)) [
  | inl same ↦ (v, get-insert q p v m ∙ ap (λ t. if t then some v else get p m) same)
  | inr other ↦ (w, get-insert q p v m ∙ ap (λ t. if t then some v else get p m) other ∙ e)
]

-- The portals that the nexus has answered with.
abbrev pub Known : List (ℕ × Bytes) → List Effect → Type 0
Known m [] = Unit {0}
Known m (reply_portal q p ∷ es) = Has p m × Known m es
Known m (e ∷ es) = Known m es

abbrev pub Fed : {R : Type 0} → List (ℕ × Bytes) → List (ℕ × R) → Type 0
Fed m [] = Unit {0}
Fed m ((p, r) ∷ ls) = Has p m × Fed m ls

Known-insert :
    (q : ℕ) (v : Bytes) (m : List (ℕ × Bytes)) (es : List Effect)
    → Known m es
    → Known (insert q v m) es
Known-insert q v m [] k = tt
Known-insert q v m (reply_portal r p ∷ es) k = (Has-insert p q v m k.0, Known-insert q v m es k.1)
Known-insert q v m (spawn_portal i ∷ es) k = Known-insert q v m es k
Known-insert q v m (call_back i p ∷ es) k = Known-insert q v m es k
Known-insert q v m (reply_portals r ps ∷ es) k = Known-insert q v m es k
Known-insert q v m (reply_actor r a ∷ es) k = Known-insert q v m es k

Known-append :
    (m : List (ℕ × Bytes)) (es fs : List Effect) → Known m es → Known m fs → Known m (es ++ fs)
Known-append m [] fs k l = l
Known-append m (reply_portal r p ∷ es) fs k l = (k.0, Known-append m es fs k.1 l)
Known-append m (spawn_portal i ∷ es) fs k l = Known-append m es fs k l
Known-append m (call_back i p ∷ es) fs k l = Known-append m es fs k l
Known-append m (reply_portals r ps ∷ es) fs k l = Known-append m es fs k l
Known-append m (reply_actor r a ∷ es) fs k l = Known-append m es fs k l

portal_for-Has :
    (port p : ℕ) (m : List (ℕ × Bytes)) (es : List Effect)
    → Known m es
    → portal_for port es ≡ some p
    → Has p m
unfolding portal_for
portal_for-Has port p m [] k e = absurd (cc e)
portal_for-Has port p m (reply_portal q r ∷ es) k e = elim (Bool-cases (q == port)) [
  | inl here ↦ let same : some r ≡ some p = rw here at e in subst (λ t. Has t m) (cc) k.0
  | inr later ↦ portal_for-Has port p m es k.1 (rw later at e)
]
portal_for-Has port p m (spawn_portal i ∷ es) k e = portal_for-Has port p m es k e
portal_for-Has port p m (call_back i r ∷ es) k e = portal_for-Has port p m es k e
portal_for-Has port p m (reply_portals r ps ∷ es) k e = portal_for-Has port p m es k e
portal_for-Has port p m (reply_actor r a ∷ es) k e = portal_for-Has port p m es k e

module _ {R : Type 0} where
  Fed-insert :
      (q : ℕ) (v : Bytes) (m : List (ℕ × Bytes)) (ls : List (ℕ × R))
      → Fed m ls
      → Fed (insert q v m) ls
  Fed-insert q v m [] f = tt
  Fed-insert q v m ((p, r) ∷ ls) f = (Has-insert p q v m f.0, Fed-insert q v m ls f.1)

  Fed-append :
      (m : List (ℕ × Bytes)) (ls ks : List (ℕ × R)) → Fed m ls → Fed m ks → Fed m (ls ++ ks)
  Fed-append m [] ks f g = g
  Fed-append m ((p, r) ∷ ls) ks f g = (f.0, Fed-append m ls ks f.1 g)

  module _ (ls : List (ℕ × R)) where
    abbrev Sound : NexusActorState → Type 0
    Sound s = Known s.portals s.effects × Fed s.portals ls

    module _ (portal : ℕ) where
      abbrev Holds : NexusActorState → Type 0
      Holds s = Sound s × Has portal s.portals

      emit-Holds :
          (e : Effect)
          → ((m : List (ℕ × Bytes)) → Has portal m → Known m (e ∷ []))
          → Keeps Holds (emit e)
      unfolding emit
      emit-Holds e known = record {
        at = λ s h.
            ((Known-append s.portals s.effects (e ∷ []) h.0.0 (known s.portals h.1), h.0.1), h.1);
      }

      call_back_to-Holds :
          (env : Env) (identifier : Bytes) (callback : Option ℕ)
          → Keeps Holds (call_back_to env identifier portal callback)
      unfolding call_back_to
      call_back_to-Holds env identifier none = Keeps-pure tt
      call_back_to-Holds env identifier (some c) =
          Keeps-bind (emit-Holds (call_back identifier portal) (λ m h. tt))
            (λ _. Keeps-lift (if env.callback_open then ok tt else err send_failed))

      reply-Holds :
          (env : Env) (reply : ℕ) → Keeps Holds (send_to env reply (reply_portal reply portal))
      unfolding send_to
      reply-Holds env reply =
          Keeps-bind (emit-Holds (reply_portal reply portal) (λ m h. (h, tt)))
            (λ _. Keeps-lift (if env.port_open reply then ok tt else err send_failed))

      stored :
          (identifier : Bytes) (s : NexusActorState)
          → Sound s
          → Holds (record s {
            portals = insert portal identifier s.portals;
            effects = s.effects ++ spawn_portal identifier ∷ [];
          })
      stored identifier s h = (
        (
          Known-insert portal identifier s.portals (s.effects ++ spawn_portal identifier ∷ [])
              (Known-append s.portals s.effects (spawn_portal identifier ∷ []) h.0 tt),
          Fed-insert portal identifier s.portals ls h.1,
        ),
        (
          identifier,
          get-insert portal portal identifier s.portals
              ∙ ap (λ t. if t then some identifier else get portal s.portals) (beq_refl portal),
        ),
      )

    on_connected-Sound :
        (env : Env) (identifier : Bytes) (reply : ℕ) (s : NexusActorState)
        → Sound s
        → Sound (on_connected env identifier reply s).1
    unfolding on_connected emit
    on_connected-Sound env identifier reply s h =
        Keeps-after Sound (lift (env.spawn identifier)) s h λ portal. record {
          at = λ t k.
              ((Keeps-bind (call_back_to-Holds portal env identifier s.on_client_connected)
                  (λ _. reply-Holds portal env reply)).at
                _ (stored portal identifier t k)).0;
        }

  -- The nexus keeps the portals that it has answered with, and those that the loops feed.
  abbrev pub Feeds : Host R → Type 0
  Feeds h = Sound h.loops h.nexus

  -- The portal of an answer is kept.
  abbrev Answered : Outcome ℕ × Host R → Type 0
  Answered (r, h) = Feeds h × ((p : ℕ) → r ≡ ok p → Has p h.nexus.portals)

  settle-Answered :
      (h : Host R) (r : Outcome (Unit {0}) × NexusActorState)
      → Sound h.loops r.1
      → Answered (settle h r)
  settle-Answered h (ok t, s) k = (k, answer (portal_for h.next_port s.effects) refl)
    where
      answer :
          (o : Option ℕ)
          → portal_for h.next_port s.effects ≡ o
          → (p : ℕ) → awaited o ≡ ok p
          → Has p s.portals
      answer none e p a = absurd (cc a)
      answer (some q) e p a =
          let same : q ≡ p = cc in
          subst (λ t. Has t s.portals) same (portal_for-Has h.next_port q s.portals s.effects k.0 e)
  settle-Answered h (err e, s) k = (k, λ p a. absurd (cc a))
  settle-Answered h (panic, s) k = (k, λ p a. absurd (cc a))
  settle-Answered h (stuck, s) k = (k, λ p a. absurd (cc a))

  ask_connected-Answered :
      (env : Env) (identifier : Bytes) (h : Host R)
      → Feeds h
      → Answered (ask_connected env identifier h)
  unfolding ask_connected handle
  ask_connected-Answered env identifier h k = asked h.alive
    where
      asked :
          (alive : Bool)
          → Answered (
              if alive
              then settle h (handle env (connected identifier h.next_port) h.nexus)
              else (err send_failed, h))
      asked true =
          settle-Answered h (handle env (connected identifier h.next_port) h.nexus)
            (on_connected-Sound h.loops env identifier h.next_port h.nexus k)
      asked false = (k, λ p a. absurd (cc a))

  started-Feeds :
      (source : R) (a : Outcome ℕ × Host R)
      → Answered a
      → Feeds (continue (λ portal. spawn_loop portal source >>= (λ _. pure portal)) a.0 a.1).1
  unfolding spawn_loop ◌>>=◌
  started-Feeds source (ok p, h) k =
      (k.0.0, Fed-append h.nexus.portals h.loops ((p, source) ∷ []) k.0.1 (k.1 p refl, tt))
  started-Feeds source (err e, h) k = k.0
  started-Feeds source (panic, h) k = k.0
  started-Feeds source (stuck, h) k = k.0

  handle_connection-Feeds :
      (identify : ℕ → Bytes) (env : Env) (n : ℕ) (source : R) (h : Host R)
      → Feeds h
      → Feeds (handle_connection identify env n source h)
  unfolding handle_connection from_sink_source ◌>>=◌
  handle_connection-Feeds identify env n source h k =
      started-Feeds source (ask_connected env (identify n) h)
        (ask_connected-Answered env (identify n) h k)

  -- Whatever connections come, and whichever of them fail, each receive loop that the server starts
  -- feeds a portal that the nexus keeps.
  pub serve-Feeds :
      (identify : ℕ → Bytes) (connections : List (Env × R)) (n : ℕ) (h : Host R)
      → Feeds h
      → Feeds (serve identify n connections h)
  unfolding serve
  serve-Feeds identify [] n h k = k
  serve-Feeds identify ((env, source) ∷ more) n h k =
      serve-Feeds identify more (suc n) (handle_connection identify env (suc n) source h)
        (handle_connection-Feeds identify env (suc n) source h k)
