-- ===== src/CompileCache/Faithful.antt =====
-- The cache of src/mellowlang/compiler/compiler.py beside compiling without it.
use mellow_programming_langu.Prelude.{
  ℕ, suc, ◌≤◌, ◌≡◌, refl, sym, ap, ◌∙◌, subst, ◌⊎◌, inl, inr, Bool, true, false, ◌&&◌, Option, none,
  some, List, [], ◌∷◌, ◌++◌, arith, ltb, Bool-cases, length, length-append, All,
}
use mellow_programming_langu.Text.{Text, text_eq}
use mellow_programming_langu.Text.Laws.{text_eq→eq}
use mellow_programming_langu.CompileCache.{
  CacheKey, filename_eq, bool_eq, key_eq, cache_max, CompileCache, cached, without_key, as_newest,
  shrunk, keep_program, looked_up, compile,
}

and_cases : (a b : Bool) → (a && b) ≡ true → (a ≡ true) × (b ≡ true)
and_cases true b h = (refl, h)
and_cases false b h = absurd cc

filename_eq→eq : (f g : Option Text) → filename_eq f g ≡ true → f ≡ g
unfolding filename_eq
filename_eq→eq none none h = refl
filename_eq→eq (some f) (some g) h = ap (λ (t : Text). some t) (text_eq→eq f g h)
filename_eq→eq none (some g) h = absurd cc
filename_eq→eq (some f) none h = absurd cc

bool_eq→eq : (a b : Bool) → bool_eq a b ≡ true → a ≡ b
unfolding bool_eq
bool_eq→eq true b h = sym h
bool_eq→eq false true h = absurd cc
bool_eq→eq false false h = refl

key_eq→eq : (k l : CacheKey) → key_eq k l ≡ true → k ≡ l
unfolding key_eq
key_eq→eq k l h =
    let (ab, c) =
      and_cases (text_eq k.source l.source && filename_eq k.filename l.filename)
        (bool_eq k.optimize l.optimize) h in
    let (a, b) = and_cases (text_eq k.source l.source) (filename_eq k.filename l.filename) ab in
    let p : k.source ≡ l.source = text_eq→eq k.source l.source a in
    let q : k.filename ≡ l.filename = filename_eq→eq k.filename l.filename b in
    let r : k.optimize ≡ l.optimize = bool_eq→eq k.optimize l.optimize c in cc

ltb-false : (a b : ℕ) → ltb a b ≡ false → b ≤ a
ltb-false a b h = ground arith

module _ {P E : Type 0} (compile_uncached : CacheKey → E ⊎ P) where
  -- An entry is what compiling gives.
  abbrev Right : CacheKey × P → Type 0
  Right e = compile_uncached e.0 ≡ inr e.1

  -- A cache of such entries that is not too large.
  abbrev pub Faithful : CompileCache P → Type 0
  Faithful cache = All Right cache.entries × (length cache.entries ≤ cache_max)

  cached-Right :
      (key : CacheKey) (program : P) (entries : List (CacheKey × P))
      → All Right entries
      → cached key entries ≡ some program
      → (compile_uncached key ≡ inr program)
        × (suc (length (without_key key entries)) ≡ length entries)
  unfolding cached without_key
  cached-Right key program [] h e = absurd cc
  cached-Right key program ((k, v) ∷ entries) (h, hs) e = elim (Bool-cases (key_eq k key)) [
    | inl q ↦
        let e' : some v ≡ some program = rw q at e in
        let same : v ≡ program = cc in
        (ap compile_uncached (sym (key_eq→eq k key q)) ∙ h ∙ ap (λ (x : P). inr x) same, rw q refl)
    | inr q ↦ let (a, b) = cached-Right key program entries hs (rw q at e) in (a, rw q (ap suc b))
  ]

  without_key-Right :
      (key : CacheKey) (entries : List (CacheKey × P))
      → All Right entries
      → All Right (without_key key entries)
  unfolding without_key
  without_key-Right key [] h = tt
  without_key-Right key ((k, v) ∷ entries) (h, hs) = elim (Bool-cases (key_eq k key)) [
    | inl q ↦ rw q hs
    | inr q ↦ rw q (h, without_key-Right key entries hs)
  ]

  append-Right :
      (entries : List (CacheKey × P)) (e : CacheKey × P)
      → All Right entries
      → Right e
      → All Right (entries ++ e ∷ [])
  append-Right [] e h k = (k, tt)
  append-Right (x ∷ entries) e (h, hs) k = (h, append-Right entries e hs k)

  as_newest-Right :
      (key : CacheKey) (program : P) (entries : List (CacheKey × P))
      → All Right entries
      → compile_uncached key ≡ inr program
      → All Right (as_newest key program entries)
  unfolding as_newest
  as_newest-Right key program entries h k =
      append-Right (without_key key entries) (key, program) (without_key-Right key entries h) k

  shrunk-Right :
      (entries : List (CacheKey × P))
      → All Right entries
      → All Right (shrunk entries) × (length (shrunk entries) ≤ cache_max)
  unfolding shrunk
  shrunk-Right [] h = (tt, omega arith)
  shrunk-Right (entry ∷ entries) (h, hs) =
      elim (Bool-cases (ltb cache_max (length (entry ∷ entries)))) [
        | inl q ↦ rw q (shrunk-Right entries hs)
        | inr q ↦ rw q ((h, hs), ltb-false cache_max (length (entry ∷ entries)) q)
      ]

  length-as_newest :
      (key : CacheKey) (program : P) (entries : List (CacheKey × P))
      → suc (length (without_key key entries)) ≡ length entries
      → length (as_newest key program entries) ≡ length entries
  unfolding as_newest
  length-as_newest key program entries h =
      length-append (without_key key entries) ((key, program) ∷ []) ∙ omega arith ∙ h

  keep_program-Faithful :
      (key : CacheKey) (cache : CompileCache P) (r : E ⊎ P)
      → compile_uncached key ≡ r
      → Faithful cache
      → ((keep_program compile_uncached key cache r).0 ≡ r)
        × Faithful (keep_program compile_uncached key cache r).1
  unfolding keep_program
  keep_program-Faithful key cache (inl e) h k = (refl, k)
  keep_program-Faithful key cache (inr program) h (k, small) = (
    refl,
    shrunk-Right (as_newest key program cache.entries)
        (as_newest-Right key program cache.entries k h),
  )

  looked_up-Faithful :
      (key : CacheKey) (cache : CompileCache P) (o : Option P)
      → cached key cache.entries ≡ o
      → Faithful cache
      → ((looked_up compile_uncached key cache o).0 ≡ compile_uncached key)
        × Faithful (looked_up compile_uncached key cache o).1
  unfolding looked_up
  looked_up-Faithful key cache none h k =
      keep_program-Faithful key cache (compile_uncached key) refl k
  looked_up-Faithful key cache (some program) h (k, small) =
      let (right, fewer) = cached-Right key program cache.entries k h in
      (
        sym right,
        (
          as_newest-Right key program cache.entries k right,
          subst (λ (n : ℕ). n ≤ cache_max) (sym (length-as_newest key program cache.entries fewer))
              small,
        ),
      )

  -- Where each entry of the cache is what compiling its key gives, and there are at most 128,
  -- compiling through the cache gives what compiling without it gives, exceptions included, and the
  -- cache is again like that.
  pub compile-Faithful :
      (key : CacheKey) (cache : CompileCache P)
      → Faithful cache
      → ((compile compile_uncached key cache).0 ≡ compile_uncached key)
        × Faithful (compile compile_uncached key cache).1
  unfolding compile
  compile-Faithful key cache h = looked_up-Faithful key cache (cached key cache.entries) refl h
