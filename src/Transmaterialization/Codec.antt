-- ===== src/Transmaterialization/Codec.antt =====
-- The trait `ContextTransmaterializable` of transmaterialization/mod.rs, what it means that a value
-- crosses a portal, and the steps that write and read one element of a larger value.
use ractor_wormhole.Prelude.{ℕ, ◌+◌, ◌<◌, ◌≡◌, ap, ◌∙◌, List, [], ◌∷◌, ◌++◌, length}
use ractor_wormhole.Outcome.{Outcome, ok, panic, Bytes}
use ractor_wormhole.Outcome.Action.{Action, pure, lift, ◌>>=◌, ◌>>◌, bind-eq}
use ractor_wormhole.Platform.{Platform, IsSupported, usize_limit}
use ractor_wormhole.Transmaterialization.Util.{require_buffer_size, require_buffer_size-eq}
use ractor_wormhole.Transmaterialization.Prefixed.{prefixed, read_prefixed, At, read_prefixed-At}

-- `S` is what the context gives access to: the portal, and the actors behind it.
pub record Transmaterializable (S A : Type 0) : Type 0 where
  pub immaterialize : A → Action S Bytes
  pub rematerialize : Bytes → Action S A

-- `x` is sent as `bytes` by a side that goes from `s` to `s'`, and a side that receives these bytes
-- rebuilds `y` and goes from `r` to `r'`. For plain data `y` is `x`; for an `ActorRef` it is a proxy.
pub record Crosses {S A : Type 0} (c : Transmaterializable S A) (x y : A) (bytes : Bytes)
    (s s' r r' : S) : Type 0 where
  pub sent : c.immaterialize x s ≡ (ok bytes, s')
  pub received : c.rematerialize bytes r ≡ (ok y, r')

-- The bytes of several elements, one after the other.
abbrev pub frames : List Bytes → Bytes
frames [] = []
frames (bytes ∷ more) = prefixed bytes ++ frames more

module _ {S A : Type 0} (c : Transmaterializable S A) where
  pub append_element : A → Bytes → Action S Bytes
  append_element x buffer = do bytes ← c.immaterialize x; pure (buffer ++ prefixed bytes)

  unfoldable pub read_element : Platform → Bytes → ℕ → Action S (A × ℕ)
  read_element p buffer offset = do
    (bytes, end) ← lift (read_prefixed p buffer offset)
    x ← c.rematerialize bytes
    pure (x, end)

  pub append_element-ok :
      (x : A) (buffer : Bytes) {bytes : Bytes} {s s' : S}
      → c.immaterialize x s ≡ (ok bytes, s')
      → append_element x buffer s ≡ (ok (buffer ++ prefixed bytes), s')
  unfolding append_element
  append_element-ok x buffer e = bind-eq (c.immaterialize x) _ e

  pub read_element-ok :
      (p : Platform) (buffer : Bytes) (offset : ℕ) (bytes rest : Bytes) {y : A} {r r' : S}
      → IsSupported p
      → length buffer < usize_limit p
      → At buffer offset (prefixed bytes ++ rest)
      → c.rematerialize bytes r ≡ (ok y, r')
      → read_element p buffer offset r ≡ (ok (y, offset + 8 + length bytes), r')
  unfolding read_element
  read_element-ok p buffer offset bytes rest {r = r} s fits at e =
      bind-eq (lift (read_prefixed p buffer offset)) _
        (ap (λ (t : Outcome (Bytes × ℕ)). (t, r)) (read_prefixed-At p bytes rest s fits at))
      ∙ bind-eq (c.rematerialize bytes) _ e

  pub read_element-panics :
      (p : Platform) (buffer : Bytes) (offset : ℕ) (r : S)
      → read_prefixed p buffer offset ≡ panic
      → read_element p buffer offset r ≡ (panic, r)
  unfolding read_element
  read_element-panics p buffer offset r e =
      bind-eq (lift (read_prefixed p buffer offset)) _ (ap (λ (t : Outcome (Bytes × ℕ)). (t, r)) e)

  -- The same two steps before a continuation.
  pub bind-append_element :
      {B : Type 0} {x y : A} {bytes : Bytes} {s s' r r' : S} (buffer : Bytes)
      (f : Bytes → Action S B)
      → Crosses c x y bytes s s' r r'
      → (append_element x buffer >>= f) s ≡ f (buffer ++ prefixed bytes) s'
  bind-append_element {x = x} buffer f k =
      bind-eq (append_element x buffer) f (append_element-ok x buffer k.sent)

  pub bind-read_element :
      {B : Type 0} {x y : A} {bytes : Bytes} {s s' r r' : S} (p : Platform) {buffer : Bytes}
      {offset : ℕ} (rest : Bytes) (f : A × ℕ → Action S B)
      → IsSupported p
      → length buffer < usize_limit p
      → At buffer offset (prefixed bytes ++ rest)
      → Crosses c x y bytes s s' r r'
      → (read_element p buffer offset >>= f) r ≡ f (y, offset + 8 + length bytes) r'
  bind-read_element p rest f s fits at k =
      bind-eq (read_element p _ _) f (read_element-ok p _ _ _ rest s fits at k.received)

-- At its end a buffer passes the check that it is used up.
pub bind-require_buffer_size :
    {S A : Type 0} (x : A) (s : S) (buffer : Bytes) (offset : ℕ)
    → length buffer ≡ offset
    → (lift (require_buffer_size buffer offset) >> pure x) s ≡ (ok x, s)
bind-require_buffer_size x s buffer offset e =
    bind-eq (lift (require_buffer_size buffer offset)) (λ _. pure x)
      (ap (λ (t : Outcome (Unit {0})). (t, s)) (require_buffer_size-eq buffer offset e))
