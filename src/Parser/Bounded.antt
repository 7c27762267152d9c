-- ===== src/Parser/Bounded.antt =====
-- Bounds on what the parsers of src/mellowlang/parsing leave of the tokens, one rule for each way to
-- build a parser.
use mellow_programming_langu.Lexer.Lengths.{Small}
use mellow_programming_langu.Lexer.{Token, Unicode}
use mellow_programming_langu.Parser.Result.{
  ParseError, Parsed, done, failed, starved, bind, Parser, pure, raise, ◌>>=◌, ◌>>◌, or_else,
  with_rounds, peek, is, advance, match_val, next_is, is_keyword, expect_val,
}
use mellow_programming_langu.Prelude.{
  ℕ, suc, ◌-◌, ◌≤◌, ◌<◌, ◌≢◌, inl, inr, Bool, true, false, ◌||◌, List, [], ◌∷◌, arith,
  if◌then◌else◌, Bool-cases, length, All,
}
use mellow_programming_langu.Text.{Text}

-- Fewer than `n` tokens, with small templates.
unfoldable pub Within : ℕ → ℕ → List Token → Type 0
unfolding Small
Within L n ts = (length ts < n) × All (Small L) ts

-- A run that raises, or leaves fewer than `m` tokens; one that starves does neither.
unfoldable pub Leaves {ℓ} : {A : Type ℓ} → ℕ → ℕ → Parsed (A × List Token) → Type 0
Leaves L m (done (a, rest)) = Within L m rest
Leaves L m (failed e) = Unit
Leaves L m starved = ⊥

-- From fewer than `n` tokens `p` leaves fewer than `m`, unless it fails.
pub record Bounded {ℓ} {A : Type ℓ} (L n m : ℕ) (p : Parser A) : Type ℓ where
  pub at : (ts : List Token) → Within L n ts → Leaves L m (p ts)

Within-le : (L : ℕ) {n m : ℕ} (ts : List Token) → n ≤ m → Within L n ts → Within L m ts
unfolding Within
Within-le L ts h (l, a) = (omega arith, a)

Leaves-le {ℓ} :
    {A : Type ℓ} (L : ℕ) {n m : ℕ} (r : Parsed (A × List Token))
    → n ≤ m
    → Leaves L n r
    → Leaves L m r
unfolding Leaves
Leaves-le L (done (a, rest)) h w = Within-le L rest h w
Leaves-le L (failed e) h w = tt
Leaves-le L starved h w = w

Leaves-bind {ℓ κ} :
    {A : Type ℓ} {B : Type κ} (L k m : ℕ) (r : Parsed (A × List Token))
    (f : A × List Token → Parsed (B × List Token))
    → Leaves L k r
    → ((a : A) (rest : List Token) → Within L k rest → Leaves L m (f (a, rest)))
    → Leaves L m (bind r f)
unfolding Leaves
Leaves-bind L k m (done (a, rest)) f w next = next a rest w
Leaves-bind L k m (failed e) f w next = tt
Leaves-bind L k m starved f w next = w

Leaves-or_else {ℓ} :
    {A : Type ℓ} (L m : ℕ) (r q : Parsed (A × List Token))
    → Leaves L m r
    → Leaves L m q
    → Leaves L m (elim r [ done a ↦ done a | failed e ↦ q | starved ↦ starved ])
unfolding Leaves
Leaves-or_else L m (done a) q hr hq = hr
Leaves-or_else L m (failed e) q hr hq = hq
Leaves-or_else L m starved q hr hq = hr

pub Leaves-ne-starved {ℓ} :
    {A : Type ℓ} (L m : ℕ) (r : Parsed (A × List Token)) → Leaves L m r → r ≢ starved
unfolding Leaves
Leaves-ne-starved L m (done a) h = cc
Leaves-ne-starved L m (failed e) h = cc
Leaves-ne-starved L m starved h = λ e. h

module _ {L : ℕ} where
  module _ {ℓ} {A : Type ℓ} where
    pub Bounded-pure : {n : ℕ} (a : A) → Bounded L n n (pure a)
    unfolding pure Leaves
    Bounded-pure a = record { at = λ ts h. h }

    pub Bounded-raise : {n m : ℕ} (e : ParseError) → Bounded L n m (raise {A = A} e)
    unfolding raise Leaves
    Bounded-raise e = record { at = λ ts h. tt }

    -- With no tokens at all nothing can be read.
    pub Bounded-zero : {n m : ℕ} (p : Parser A) → n ≤ 0 → Bounded L n m p
    unfolding Within
    Bounded-zero p z = record { at = λ ts h. absurd (omega (arith, h.0)) }

    pub Bounded-le :
        {n n' m' m : ℕ} {p : Parser A} → n ≤ n' → m' ≤ m → Bounded L n' m' p → Bounded L n m p
    Bounded-le {p} h h' b = record {
      at = λ ts w. Leaves-le L (p ts) h' (b.at ts (Within-le L ts h w));
    }

    pub eats_keeps : {n : ℕ} {p : Parser A} → Bounded L n (n - 1) p → Bounded L n n p
    eats_keeps b = Bounded-le (omega arith) (omega arith) b

    pub eats_to : {n k : ℕ} {p : Parser A} → k ≤ n → Bounded L k (k - 1) p → Bounded L k n p
    eats_to h b = Bounded-le (omega arith) (omega arith) b

    pub Bounded-if :
        {n m : ℕ} (b : Bool) {p q : Parser A}
        → Bounded L n m p
        → Bounded L n m q
        → Bounded L n m (if b then p else q)
    Bounded-if true hp hq = hp
    Bounded-if false hp hq = hq

    pub Bounded-rounds :
        {n m : ℕ} (p : ℕ → Parser A)
        → ((k : ℕ) → k ≤ n → Bounded L k m (p k))
        → Bounded L n m (with_rounds p)
    unfolding with_rounds Within
    Bounded-rounds p hp = record {
      at = λ ts h. (hp (suc (length ts)) (omega (arith, h.0))).at ts (omega arith, h.1);
    }

    pub Bounded-or_else :
        {n m : ℕ} (p q : Parser A) → Bounded L n m p → Bounded L n m q → Bounded L n m (or_else p q)
    unfolding or_else
    Bounded-or_else p q hp hq = record {
      at = λ ts h. Leaves-or_else L _ (p ts) (q ts) (hp.at ts h) (hq.at ts h);
    }

  module _ {ℓ κ} {A : Type ℓ} {B : Type κ} where
    pub Bounded-bind :
        {n k m : ℕ} (p : Parser A) (f : A → Parser B)
        → Bounded L n k p
        → ((a : A) → Bounded L k m (f a))
        → Bounded L n m (p >>= f)
    unfolding ◌>>=◌
    Bounded-bind p f hp hf = record {
      at = λ ts h. Leaves-bind L _ _ (p ts) _ (hp.at ts h) λ a rest w. (hf a).at rest w;
    }

    infixr 2 ◌▸◌ ◌▹◌
    pub ◌▸◌ :
        {n k m : ℕ} {p : Parser A} {f : A → Parser B}
        → Bounded L n k p
        → ((a : A) → Bounded L k m (f a))
        → Bounded L n m (p >>= f)
    hp ▸ hf = Bounded-bind _ _ hp hf

    pub ◌▹◌ :
        {n k m : ℕ} {p : Parser A} {q : Parser B}
        → Bounded L n k p
        → Bounded L k m q
        → Bounded L n m (p >> q)
    unfolding ◌>>◌
    hp ▹ hq = Bounded-bind _ _ hp λ a. hq

  module _ {ℓ} {B : Type ℓ} where
    peek_at :
        {n m : ℕ} (f : Token → Parser B)
        → ((t : Token) → Small L t → Bounded L n m (f t))
        → (ts : List Token) → Within L n ts
        → Leaves L m ((peek >>= f) ts)
    unfolding peek ◌>>=◌ Within Leaves
    peek_at f hf [] h = tt
    peek_at f hf (t ∷ ts) h = (hf t h.1.0).at (t ∷ ts) h

    -- The rest of a block may use that the template of the token it looks at is small.
    pub peek_bind :
        {n m : ℕ} {f : Token → Parser B}
        → ((t : Token) → Small L t → Bounded L n m (f t))
        → Bounded L n m (peek >>= f)
    peek_bind hf = record { at = peek_at _ hf }

-- What reading one token leaves.
module _ {L n : ℕ} where
  pub advance_eats : Bounded L n (n - 1) advance
  unfolding advance Within Leaves
  advance_eats = record { at = at }
    where
      at : (ts : List Token) → Within L n ts → Leaves L (n - 1) (advance ts)
      at [] h = tt
      at (t ∷ ts) h = (omega (arith, h.0), h.1.1)

  pub advance_keeps : Bounded L n n advance
  advance_keeps = Bounded-le (omega arith) (omega arith) advance_eats

  pub next_is_keeps : (v : Text) → Bounded L n n (next_is v)
  unfolding next_is Leaves
  next_is_keeps v = record { at = at }
    where
      at : (ts : List Token) → Within L n ts → Leaves L n (next_is v ts)
      at [] h = h
      at (t ∷ []) h = h
      at (t ∷ t' ∷ ts) h = h

module _ (u : Unicode) where
  expect_val_at :
      (L n : ℕ) (v : Text) (ts : List Token) → Within L n ts → Leaves L (n - 1) (expect_val u v ts)
  unfolding expect_val match_val peek advance ◌>>=◌ ◌>>◌ pure raise Within Leaves
  expect_val_at L n v [] h = tt
  expect_val_at L n v (t ∷ ts) h = elim (Bool-cases (is v t || is_keyword u v t)) [
    | inl e ↦ rw e (omega (arith, h.0), h.1.1)
    | inr e ↦ rw e tt
  ]

module _ (u : Unicode) {L n : ℕ} where
  pub match_val_keeps : (v : Text) → Bounded L n n (match_val u v)
  unfolding match_val
  match_val_keeps v =
      peek_bind λ t s. Bounded-if _ (advance_keeps ▹ Bounded-pure _) (Bounded-pure _)

  pub expect_val_eats : (v : Text) → Bounded L n (n - 1) (expect_val u v)
  expect_val_eats v = record { at = expect_val_at u L n v }

  pub expect_val_keeps : (v : Text) → Bounded L n n (expect_val u v)
  expect_val_keeps v = Bounded-le (omega arith) (omega arith) (expect_val_eats v)
