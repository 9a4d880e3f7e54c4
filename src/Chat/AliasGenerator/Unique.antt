-- ===== src/Chat/AliasGenerator/Unique.antt =====
-- The aliases repeat only after 900.
use ractor_wormhole.Prelude.{
  ℕ, zero, suc, ◌+◌, ◌/◌, ◌%◌, ◌<◌, ◌≡◌, ◌≢◌, refl, sym, ap, ap₂, ◌∙◌, Bool, true, not, ◌&&◌, List,
  [], ◌∷◌, length, arith,
}
use ractor_wormhole.Prelude.Map.{bytes_beq_iff, bytes_eq, ◌=?◌}
use ractor_wormhole.Outcome.{ok, Bytes}
use ractor_wormhole.Outcome.Action
use ractor_wormhole.Outcome.Action.{pure, lift, bind-eq, bind-lift}
use ractor_wormhole.Platform.{Platform, IsSupported, add_usize, add_usize-fits}
use ractor_wormhole.Chat.AliasGenerator.{AliasGenerator, index, get_at, get_pair, count}

-- No word of the list is there twice.
abbrev pub absent : Bytes → List Bytes → Bool
absent w [] = true
absent w (x ∷ xs) = not (x =? w) && absent w xs

abbrev pub distinct : List Bytes → Bool
distinct [] = true
distinct (x ∷ xs) = absent x xs && distinct xs

-- The word at an index of the list.
abbrev pub word : List Bytes → ℕ → Bytes
word [] i = []
word (x ∷ xs) zero = x
word (x ∷ xs) (suc i) = word xs i

index-word : (xs : List Bytes) (i : ℕ) → i < length xs → index xs i ≡ ok (word xs i)
unfolding index
index-word [] i h = absurd (omega arith)
index-word (x ∷ xs) zero h = refl
index-word (x ∷ xs) (suc i) h = index-word xs i (omega arith)

absent-word :
    (w : Bytes) (xs : List Bytes) (i : ℕ) → absent w xs ≡ true → i < length xs → word xs i ≢ w
absent-word w [] i a h e = absurd (omega arith)
absent-word w (x ∷ xs) zero a h e = ground (arith, bytes_beq_iff x w)
absent-word w (x ∷ xs) (suc i) a h e = absent-word w xs i (ground arith) (omega arith) e

distinct-word :
    (xs : List Bytes) (i j : ℕ)
    → distinct xs ≡ true
    → i < length xs
    → j < length xs
    → word xs i ≡ word xs j
    → i ≡ j
distinct-word [] i j d hi hj e = absurd (omega arith)
distinct-word (x ∷ xs) zero zero d hi hj e = refl
distinct-word (x ∷ xs) zero (suc j) d hi hj e =
    absurd (absent-word x xs j (ground arith) (omega arith) (sym e))
distinct-word (x ∷ xs) (suc i) zero d hi hj e =
    absurd (absent-word x xs i (ground arith) (omega arith) e)
distinct-word (x ∷ xs) (suc i) (suc j) d hi hj e =
    ap suc (distinct-word xs i j (ground arith) (omega arith) (omega arith) e)

-- The alias of a count, and the generator at a count.
abbrev pub alias_of : AliasGenerator → ℕ → Bytes × Bytes
alias_of g n = (word g.adjectives (n % 30), word g.nouns ((n + n / 30) % 30))

abbrev pub at_count : AliasGenerator → ℕ → AliasGenerator
at_count g n = record g { generated_count = n }

-- A generator with its lists of thirty words, each word once.
pub record IsFull (g : AliasGenerator) : Type 0 where
  pub thirty_adjectives : length g.adjectives ≡ 30
  pub thirty_nouns : length g.nouns ≡ 30
  pub distinct_adjectives : distinct g.adjectives ≡ true
  pub distinct_nouns : distinct g.nouns ≡ true

module _ (p : Platform) (s : IsSupported p) (g : AliasGenerator) (full : IsFull g) where
  count-at : (n : ℕ) → n < 900 → count p (at_count g n) ≡ (ok tt, at_count g (n + 1))
  unfolding count
  count-at n small = rw (add_usize-fits p n 1 (omega (arith, s.above))) refl

  get_pair-alias_of :
      (n : ℕ) → n < 900 → get_pair p (at_count g n) ≡ (ok (alias_of g n), at_count g (n + 1))
  unfolding get_pair
  get_pair-alias_of n small =
      bind-lift (add_usize p n (n / 30)) (get_at p (at_count g n)) (at_count g n)
        (add_usize-fits p n (n / 30) (omega (arith, s.above)))
      ∙ bind-lift (index g.adjectives (n % 30))
          (λ adjective.
            Action.◌>>=◌ (lift (index g.nouns ((n + n / 30) % 30)))
              (λ noun. Action.◌>>=◌ (count p) (λ _. pure (adjective, noun))))
          (at_count g n) (index-word g.adjectives (n % 30) (omega (arith, full.thirty_adjectives)))
      ∙ bind-lift (index g.nouns ((n + n / 30) % 30))
          (λ noun. Action.◌>>=◌ (count p) (λ _. pure (word g.adjectives (n % 30), noun)))
          (at_count g n) (index-word g.nouns ((n + n / 30) % 30) (omega (arith, full.thirty_nouns)))
      ∙ bind-eq (count p) (λ _. pure (alias_of g n)) (count-at n small)

  same_index :
      (m n : ℕ)
      → m < 900
      → n < 900
      → m % 30 ≡ n % 30
      → (m + m / 30) % 30 ≡ (n + n / 30) % 30
      → m ≡ n
  same_index m n hm hn e f = omega arith

  -- On a supported platform, with thirty distinct adjectives and thirty distinct nouns, at any two
  -- different counts below 900 the generator returns two different pairs without a panic and
  -- counts on by one.
  pub get_pair_unique :
      (m n : ℕ)
      → m < 900
      → n < 900
      → m ≢ n
      → (get_pair p (at_count g m) ≡ (ok (alias_of g m), at_count g (m + 1)))
        × (get_pair p (at_count g n) ≡ (ok (alias_of g n), at_count g (n + 1)))
        × (alias_of g m ≢ alias_of g n)
  get_pair_unique m n hm hn different = (
    get_pair-alias_of m hm,
    get_pair-alias_of n hn,
    λ e. different (
        same_index m n hm hn
          (distinct-word g.adjectives (m % 30) (n % 30) full.distinct_adjectives
            (omega (arith, full.thirty_adjectives)) (omega (arith, full.thirty_adjectives))
            (ap (λ a. a.0) e))
          (distinct-word g.nouns ((m + m / 30) % 30) ((n + n / 30) % 30) full.distinct_nouns
            (omega (arith, full.thirty_nouns)) (omega (arith, full.thirty_nouns))
            (ap (λ a. a.1) e))),
  )

  -- After 900 counts the generator starts over with the same pairs.
  pub get_pair_repeats : (n : ℕ) → alias_of g (n + 900) ≡ alias_of g n
  get_pair_repeats n =
      ap₂ (λ (i j : ℕ). (word g.adjectives i, word g.nouns j)) (omega arith) (omega arith)
