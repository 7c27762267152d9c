-- ===== src/LineText/Balance.antt =====
-- `_balance_delta` of src/mellowlang/parsing/line_text.py on joined texts.
use mellow_programming_langu.Prelude.{
  ℕ, ◌≡◌, refl, sym, ap, ap₂, ◌∙◌, true, [], ◌∷◌, ◌++◌, arith, if◌then◌else◌,
}
use mellow_programming_langu.Prelude.Int.{ℤ, pos, negsuc, ◌+ℤ◌, zero-+ℤ, +ℤ-zero, +ℤ_assoc, -ℤ-one}
use mellow_programming_langu.Text.{Text, is_one_of}
use mellow_programming_langu.LineText.{balance, balance_delta, opening, closing}
use mellow_programming_langu.LineText.Scan.{Scan, start, step, run, is_outside}

-- What one character outside strings adds.
weight : ℕ → ℤ
unfolding is_one_of
weight ch = if is_one_of opening ch then pos 1 else if is_one_of closing ch then negsuc 0 else pos 0

-- The sum of the weights of the characters outside strings and escapes.
pub total : Scan → Text → ℤ
total st [] = pos 0
total st (ch ∷ s) = (if is_outside st then weight ch else pos 0) +ℤ total (step st ch) s

-- What the character adds in the state of the scan.
adds : Scan → ℕ → ℤ
adds st ch = if is_outside st then weight ch else pos 0

balance-step :
    (depth : ℤ) (st : Scan) (ch : ℕ) (s : Text)
    → balance depth st.in_str st.esc (ch ∷ s)
      ≡ balance (depth +ℤ adds st ch) (step st ch).in_str (step st ch).esc s
unfolding balance step weight adds
balance-step depth st ch s = ground (arith, +ℤ-zero depth, -ℤ-one depth)

total-step :
    (st : Scan) (ch : ℕ) (s : Text) → total st (ch ∷ s) ≡ adds st ch +ℤ total (step st ch) s
unfolding total adds
total-step st ch s = refl

-- The loop adds the total of the weights to the depth that it starts from.
balance-total :
    (depth : ℤ) (st : Scan) (s : Text) → balance depth st.in_str st.esc s ≡ depth +ℤ total st s
balance-total depth st [] = unfold balance total in sym (+ℤ-zero depth)
balance-total depth st (ch ∷ s) =
    balance-step depth st ch s
    ∙ balance-total (depth +ℤ adds st ch) (step st ch) s
    ∙ +ℤ_assoc depth (adds st ch) (total (step st ch) s)
    ∙ ap (◌+ℤ◌ depth) (sym (total-step st ch s))

total-append : (st : Scan) (s t : Text) → total st (s ++ t) ≡ total st s +ℤ total (run st s) t
unfolding total run adds
total-append st [] t = sym (zero-+ℤ (total st t))
total-append st (ch ∷ s) t =
    ap (◌+ℤ◌ (adds st ch)) (total-append (step st ch) s t)
    ∙ sym (+ℤ_assoc (adds st ch) (total (step st ch) s) (total (run (step st ch) s) t))

step_same :
    (st st' : Scan) (ch : ℕ)
    → st.in_str ≡ st'.in_str
    → st.esc ≡ st'.esc
    → ((step st ch).in_str ≡ (step st' ch).in_str) × ((step st ch).esc ≡ (step st' ch).esc)
unfolding step
step_same st st' ch p q = ground arith

adds_same :
    (st st' : Scan) (ch : ℕ) → st.in_str ≡ st'.in_str → st.esc ≡ st'.esc → adds st ch ≡ adds st' ch
unfolding adds
adds_same st st' ch p q = cc

-- The depth of the scan does not matter for the total.
total_same :
    (st st' : Scan) (s : Text)
    → st.in_str ≡ st'.in_str
    → st.esc ≡ st'.esc
    → total st s ≡ total st' s
unfolding total adds
total_same st st' [] p q = refl
total_same st st' (ch ∷ s) p q =
    let (p', q') = step_same st st' ch p q in
    ap₂ ◌+ℤ◌ (adds_same st st' ch p q) (total_same (step st ch) (step st' ch) s p' q')

pub balance_delta-total : (s : Text) → balance_delta s ≡ total start s
unfolding balance_delta
balance_delta-total s = balance-total (pos 0) start s ∙ zero-+ℤ (total start s)

-- The balance of a text that ends outside strings and escapes adds to the balance of what follows.
pub balance_delta-append :
    (s t : Text)
    → is_outside (run start s) ≡ true
    → balance_delta (s ++ t) ≡ balance_delta s +ℤ balance_delta t
balance_delta-append s t h =
    balance_delta-total (s ++ t)
    ∙ total-append start s t
    ∙ ap₂ ◌+ℤ◌ (sym (balance_delta-total s)) (
        total_same (run start s) start t (ground arith) (ground arith)
        ∙ sym (balance_delta-total t))
