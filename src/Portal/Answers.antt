-- ===== src/Portal/Answers.antt =====
-- `PortalActor::open_requests` of portal.rs: how often the port of a query is answered.
use ractor_wormhole.Prelude.{
  ℕ, ◌+◌, ◌≤◌, ◌≡◌, refl, ap, subst, Option, some, none, inl, inr, List, [], ◌∷◌, ◌++◌, map, Bool,
  true, false, Option-cases, Bool-cases, ◌==◌, arith,
}
use ractor_wormhole.Prelude.Map.{get, insert, remove, nat_eq}
use ractor_wormhole.Outcome.{Outcome, ok, err, panic, stuck, Bytes}
use ractor_wormhole.Outcome.Action.{continue}
use ractor_wormhole.Portal.Types.{
  Answer, Effect, send_handshake, send_content, reply_opened, reply_named, reply_published,
  reply_queried, deliver, watch, stop_proxy, stop_portal, spawn_immaterialize, Introduction,
  PortalActorState, PortalActorMessage, query_named_remote_actor, PortalConduitState, opening,
  open_with,
}
use ractor_wormhole.Portal.Env.{Env}
use ractor_wormhole.Portal.Cases.{IsOther, message-cases}
use ractor_wormhole.Portal.Framed.{IsFrame, handle-Keeps, send_frame-Keeps}
use ractor_wormhole.Portal.Runs.{state_after}
use ractor_wormhole.Portal.Handle.{
  handle, on_response, on_handshake, on_query, emit, send_to, pre_start, initial, channel_id_of,
}

abbrev one_if : Bool → ℕ
one_if true = 1
one_if false = 0

-- How many answers the port has got.
abbrev pub answers : ℕ → List Effect → ℕ
answers q [] = 0
answers q (reply_queried port answer ∷ es) = one_if (port == q) + answers q es
answers q (_ ∷ es) = answers q es

-- How many requests with the port are open.
abbrev pub waiting : ℕ → List (ℕ × ℕ) → ℕ
waiting q [] = 0
waiting q ((id, port) ∷ m) = one_if (port == q) + waiting q m

answers-append : (q : ℕ) (es fs : List Effect) → answers q (es ++ fs) ≡ answers q es + answers q fs
answers-append q [] fs = omega arith
answers-append q (reply_queried port answer ∷ es) fs = omega (arith, answers-append q es fs)
answers-append q (send_handshake i ∷ es) fs = answers-append q es fs
answers-append q (send_content b ∷ es) fs = answers-append q es fs
answers-append q (reply_opened p ∷ es) fs = answers-append q es fs
answers-append q (reply_named p a ∷ es) fs = answers-append q es fs
answers-append q (reply_published p a ∷ es) fs = answers-append q es fs
answers-append q (deliver a b ∷ es) fs = answers-append q es fs
answers-append q (watch a ∷ es) fs = answers-append q es fs
answers-append q (stop_proxy a ∷ es) fs = answers-append q es fs
answers-append q (stop_portal ∷ es) fs = answers-append q es fs
answers-append q (spawn_immaterialize a b ∷ es) fs = answers-append q es fs

answers-other : (q : ℕ) (e : Effect) → IsOther e → answers q (e ∷ []) ≡ 0
answers-other q (reply_queried port answer) h = elim h [ ]
answers-other q (send_handshake i) h = refl
answers-other q (send_content b) h = refl
answers-other q (reply_opened p) h = refl
answers-other q (reply_named p a) h = refl
answers-other q (reply_published p a) h = refl
answers-other q (deliver a b) h = refl
answers-other q (watch a) h = refl
answers-other q (stop_proxy a) h = refl
answers-other q stop_portal h = refl
answers-other q (spawn_immaterialize a b) h = refl

answers-opened : (q : ℕ) (ports : List ℕ) → answers q (map reply_opened ports) ≡ 0
answers-opened q [] = refl
answers-opened q (p ∷ ports) = answers-opened q ports

waiting-insert :
    (q id port : ℕ) (m : List (ℕ × ℕ))
    → waiting q (insert id port m) ≤ waiting q m + one_if (port == q)
unfolding insert
waiting-insert q id port [] = omega arith
waiting-insert q id port ((j, w) ∷ m) = elim (Bool-cases (j == id)) [
  | inl e ↦ rw e (omega arith)
  | inr e ↦ rw e (omega (arith, waiting-insert q id port m))
]

waiting-remove : (q id : ℕ) (m : List (ℕ × ℕ)) → waiting q (remove id m) ≤ waiting q m
unfolding remove
waiting-remove q id [] = omega arith
waiting-remove q id ((j, w) ∷ m) = elim (Bool-cases (j == id)) [
  | inl e ↦ rw e (omega (arith, waiting-remove q id m))
  | inr e ↦ rw e (omega (arith, waiting-remove q id m))
]

some_port : Option ℕ → ℕ
some_port none = 0
some_port (some port) = port

waiting-get :
    (q id port : ℕ) (m : List (ℕ × ℕ))
    → get id m ≡ some port
    → waiting q (remove id m) + one_if (port == q) ≤ waiting q m
unfolding get remove some_port
waiting-get q id port [] e = absurd (cc e)
waiting-get q id port ((j, w) ∷ m) e = elim (Bool-cases (j == id)) [
  | inl here ↦ rw here (
      omega (
        arith,
        waiting-remove q id m,
        ap (λ (p : ℕ). one_if (p == q)) (ap some_port (rw here at e)),
      ))
  | inr later ↦ rw later (omega (arith, waiting-get q id port m (rw later at e)))
]

-- The answers that the port has got, and those that it may still get, are no more than this.
abbrev Bound : ℕ → ℕ → PortalActorState → Type 0
Bound q n s = answers q s.effects + waiting q s.open_requests ≤ n

module _ (q n : ℕ) where
  Bound-IsFrame : IsFrame (Bound q n)
  Bound-IsFrame = record {
    emits = λ s e other h.
        omega (arith, answers-append q s.effects (e ∷ []), answers-other q e other, h);
    publishes = λ s m h. h;
    names = λ s m h. h;
    proxies = λ s m h. h;
    waits = λ s m h. h;
  }

  module _ (env : Env) (s : PortalActorState) (h : Bound q n s) where
    on_response-Bound : (id : ℕ) (answer : Answer) → Bound q n (on_response env id answer s).1
    unfolding on_response send_to emit
    on_response-Bound id answer = elim (Option-cases (get id s.open_requests)) [
      | inl unknown ↦ rw (unknown, on_response) h
      | inr (port, known) ↦
          rw (known, on_response)
            (omega (
              arith,
              h,
              answers-append q s.effects (reply_queried port answer ∷ []),
              waiting-get q id port s.open_requests known,
            ))
    ]

    on_handshake-Bound :
        (text : Bytes) (k : PortalConduitState) → Bound q n (on_handshake env text k s).1
    unfolding on_handshake emit
    on_handshake-Bound text (open_with c) = (Bound-IsFrame).emits s stop_portal tt h
    on_handshake-Bound text (opening i) = reads (env.parse_introduction text)
      where
        reads :
            (r : Outcome Introduction)
            → Bound q n
                (continue
                  (λ remote t. (
                    ok tt,
                    record t {
                      channel_state = open_with (channel_id_of i remote);
                      waiting_for_handshake = [];
                      effects = t.effects ++ map reply_opened t.waiting_for_handshake;
                    },
                  ))
                  r
                  s).1
        reads (ok remote) = omega (
          arith,
          h,
          answers-append q s.effects (map reply_opened s.waiting_for_handshake),
          answers-opened q s.waiting_for_handshake,
        )
        reads (err e) = h
        reads panic = h
        reads stuck = h

on_query-Bound :
    (q n : ℕ) (env : Env) (s : PortalActorState) (name : Bytes) (port : ℕ) (k : PortalConduitState)
    → Bound q n s
    → Bound q (n + one_if (port == q)) (on_query env name port k s).1
unfolding on_query
on_query-Bound q n env s name port (opening i) h = omega (arith, h)
on_query-Bound q n env s name port (open_with c) h =
    (send_frame-Keeps (Bound-IsFrame q (n + one_if (port == q))) env _).at _
      (omega (arith, h, waiting-insert q s.next_request_id port s.open_requests))

-- How often the message asks for an answer to the port.
abbrev pub asked : ℕ → PortalActorMessage → ℕ
asked q (query_named_remote_actor name port) = one_if (port == q)
asked q msg = 0

handle-Bound :
    (q n : ℕ) (env : Env) (s : PortalActorState)
    → Bound q n s
    → (msg : PortalActorMessage) → Bound q (n + asked q msg) (handle env msg s).1
unfolding handle
handle-Bound q n env s h =
    message-cases (λ msg. Bound q (n + asked q msg) (handle env msg s).1)
      (λ text. omega (arith, on_handshake-Bound q n env s h text s.channel_state))
      (λ name port. on_query-Bound q n env s name port s.channel_state h)
      (λ msg c.
        let more : Bound q (n + asked q msg) s = omega (arith, h) in
        handle-Keeps (Bound-IsFrame q (n + asked q msg)) env s more msg c
          (on_response-Bound q (n + asked q msg) env s more))

-- A portal that has run, and in the run has been asked this many times to answer the port.
pub data Asked (q : ℕ) : ℕ → PortalActorState → Type 0 where
  started :
      (env : Env) (i : Introduction) (s : PortalActorState)
      → pre_start env i (initial i) ≡ (ok tt, s)
      → Asked q 0 s
  handled :
      (env : Env) (msg : PortalActorMessage) (n : ℕ) (s s' : PortalActorState)
      → Asked q n s
      → handle env msg s ≡ (ok tt, s')
      → Asked q (n + asked q msg) s'

pre_start-Bound : (q : ℕ) (env : Env) (i : Introduction) → Bound q 0 (pre_start env i (initial i)).1
unfolding pre_start emit
pre_start-Bound q env i = elim (Bool-cases env.sink_open) [
  | inl up ↦ rw up (omega arith)
  | inr down ↦ rw down (omega arith)
]

Asked-Bound : (q : ℕ) {n : ℕ} {s : PortalActorState} → Asked q n s → Bound q n s
Asked-Bound q (started env i s e) = subst (Bound q 0) (state_after e) (pre_start-Bound q env i)
Asked-Bound q (handled env msg n s s' run e) =
    subst (Bound q (n + asked q msg)) (state_after e)
      (handle-Bound q n env s (Asked-Bound q run) msg)

-- In every state that a portal reaches from `pre_start` by handling messages without an error, in
-- any order and with any answers of the libraries, the port of a query has been answered at most
-- as often as the portal was asked to query with it.
pub answers_bounded : (q n : ℕ) (s : PortalActorState) → Asked q n s → answers q s.effects ≤ n
answers_bounded q n s run = omega (arith, Asked-Bound q run)
