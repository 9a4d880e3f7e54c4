-- ===== src/Chat/AliasGenerator.antt =====
-- chat_app/server/src/alias_gen.rs.
pub mod Words
pub mod Unique
use ractor_wormhole.Prelude.{ℕ, zero, suc, ◌+◌, ◌/◌, ◌%◌, List, [], ◌∷◌, ◌++◌}
use ractor_wormhole.Outcome.{Outcome, ok, err, panic, stuck, Bytes}
use ractor_wormhole.Outcome.Action.{Action, pure, lift, ◌>>=◌, ◌>>◌}
use ractor_wormhole.Platform.{Platform, add_usize}

pub record AliasGenerator : Type 0 where
  pub adjectives : List Bytes
  pub nouns : List Bytes
  pub generated_count : ℕ

-- `xs[i]`: an index out of range is a panic.
unfoldable pub index : {A : Type 0} → List A → ℕ → Outcome A
index [] i = panic
index (x ∷ xs) zero = ok x
index (x ∷ xs) (suc i) = index xs i

abbrev counted : AliasGenerator → Outcome ℕ → Outcome (Unit {0}) × AliasGenerator
counted g (ok n) = (ok tt, record g { generated_count = n })
counted g (err e) = (err e, g)
counted g panic = (panic, g)
counted g stuck = (stuck, g)

module _ (p : Platform) where
  -- `self.generated_count += 1`
  unfoldable pub count : Action AliasGenerator (Unit {0})
  unfolding add_usize
  count g = counted g (add_usize p g.generated_count 1)

  -- The words at the two indices, and then one more alias has been generated.
  abbrev pub get_at : AliasGenerator → ℕ → Action AliasGenerator (Bytes × Bytes)
  get_at g sum = lift (index g.adjectives (g.generated_count % 30)) >>= (λ adjective.
      lift (index g.nouns (sum % 30)) >>= (λ noun. count >>= (λ _. pure (adjective, noun))))

  unfoldable pub get_pair : Action AliasGenerator (Bytes × Bytes)
  unfolding ◌>>=◌ index count add_usize
  get_pair g = (lift (add_usize p g.generated_count (g.generated_count / 30)) >>= get_at g) g

  -- `to_uppercase` is std's, for the first letter; the words begin with an ASCII letter.
  unfoldable pub capitalize_first_letter : (to_uppercase : ℕ → Bytes) → Bytes → Outcome Bytes
  capitalize_first_letter to_uppercase [] = panic
  capitalize_first_letter to_uppercase (first ∷ rest) = ok (to_uppercase first ++ rest)

  unfoldable pub generate_capitalized : (to_uppercase : ℕ → Bytes) → Action AliasGenerator Bytes
  unfolding ◌>>=◌ get_pair capitalize_first_letter
  generate_capitalized to_uppercase = do
    words ← get_pair
    adjective ← lift (capitalize_first_letter to_uppercase words.0)
    noun ← lift (capitalize_first_letter to_uppercase words.1)
    pure (adjective ++ (32 ∷ noun))
