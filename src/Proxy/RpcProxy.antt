-- ===== src/Proxy/RpcProxy.antt =====
-- transmaterialization/rpc_proxy.rs: the actor that stands for a reply port.
use ractor_wormhole.Prelude.{
  ℕ, ◌≡◌, refl, ap, ◌∙◌, Option, none, some, List, [], ◌∷◌, ◌++◌, append-nil,
}

pub data Effect (T : Type 0) : Type 0 where
  reply : (port : ℕ) → T → Effect T
  unlink : Effect T
  stop : Effect T

pub record RpcProxyActorState (T : Type 0) : Type 0 where
  pub rpc_reply_port : Option ℕ
  pub has_supervisor : Option ℕ
  pub effects : List (Effect T)

module _ {T : Type 0} where
  unfoldable pub pre_start : (port : ℕ) (supervisor : Option ℕ) → RpcProxyActorState T
  pre_start port supervisor = record {
    rpc_reply_port = some port;
    has_supervisor = supervisor;
    effects = [];
  }

  -- `if let Some(rrp) = state.rpc_reply_port.take()`. A failed reply is logged.
  abbrev answer_once : Option ℕ → T → List (Effect T)
  answer_once none value = []
  answer_once (some port) value = reply port value ∷ []

  -- `if let Some(supe) = …try_get_supervisor()`
  abbrev leave : Option ℕ → List (Effect T)
  leave none = []
  leave (some supervisor) = unlink ∷ []

  -- The handler, for the message's `data`.
  unfoldable pub handle : T → RpcProxyActorState T → RpcProxyActorState T
  handle value s = record {
    rpc_reply_port = none;
    has_supervisor = none;
    effects =
        s.effects ++ (answer_once s.rpc_reply_port value ++ (leave s.has_supervisor ++ stop ∷ []));
  }

  unfoldable pub handle_all : List T → RpcProxyActorState T → RpcProxyActorState T
  unfolding handle
  handle_all [] s = s
  handle_all (value ∷ more) s = handle_all more (handle value s)

  -- What the port was given.
  abbrev pub replies : List (Effect T) → List (ℕ × T)
  replies [] = []
  replies (reply port value ∷ es) = (port, value) ∷ replies es
  replies (unlink ∷ es) = replies es
  replies (stop ∷ es) = replies es

  replies-append : (xs ys : List (Effect T)) → replies (xs ++ ys) ≡ replies xs ++ replies ys
  replies-append [] ys = refl
  replies-append (reply port value ∷ xs) ys = ap (λ t. (port, value) ∷ t) (replies-append xs ys)
  replies-append (unlink ∷ xs) ys = replies-append xs ys
  replies-append (stop ∷ xs) ys = replies-append xs ys

  replies-leave : (o : Option ℕ) → replies (leave o ++ stop ∷ []) ≡ []
  replies-leave none = refl
  replies-leave (some supervisor) = refl

  -- Without a port nothing is replied any more.
  replies-spent :
      (values : List T) (s : RpcProxyActorState T)
      → s.rpc_reply_port ≡ none
      → replies (handle_all values s).effects ≡ replies s.effects
  unfolding handle_all
  replies-spent [] s h = refl
  replies-spent (value ∷ more) s h =
      replies-spent more (handle value s) refl
      ∙ unfold handle in
        rw h (
          replies-append s.effects (leave s.has_supervisor ++ stop ∷ [])
          ∙ ap (λ t. replies s.effects ++ t) (replies-leave s.has_supervisor)
          ∙ append-nil (replies s.effects))

  -- However many values the actor behind a reply port is sent, the port is answered once, with the
  -- first.
  pub replies-once :
      (port : ℕ) (supervisor : Option ℕ) (value : T) (more : List T)
      → replies (handle_all (value ∷ more) (pre_start port supervisor)).effects ≡ (port, value) ∷ []
  unfolding handle_all pre_start
  replies-once port supervisor value more =
      replies-spent more (handle value (pre_start port supervisor)) refl
      ∙ unfold handle in ap (λ t. (port, value) ∷ t) (replies-leave supervisor)
