-- ===== src/Portal/Wire.antt =====
-- transmaterialization/internal_serializations.rs for `CrossPortalMessage`, and `xor_arrays`.
use ractor_wormhole.Prelude.{[], ◌∷◌, bit_xor}
use ractor_wormhole.Outcome.{Outcome, ok, ◌>>=◌, ◌>>◌, Bytes}
use ractor_wormhole.Transmaterialization.Util.{require_buffer_size}
use ractor_wormhole.Portal.Types.{CrossPortalMessage}
use ractor_wormhole.Portal.Env.{Env}

unfoldable pub immaterialize : Env → CrossPortalMessage → Outcome Bytes
immaterialize env msg = env.encode_to_vec msg

unfoldable pub rematerialize : Env → Bytes → Outcome CrossPortalMessage
rematerialize env bytes = do
  (msg, consumed) ← env.decode_from_slice bytes
  require_buffer_size bytes consumed
  ok msg

-- Both arrays hold 16 bytes.
unfoldable pub xor_arrays : Bytes → Bytes → Bytes
xor_arrays [] bs = []
xor_arrays (a ∷ as') [] = []
xor_arrays (a ∷ as') (b ∷ bs) = bit_xor a b ∷ xor_arrays as' bs
