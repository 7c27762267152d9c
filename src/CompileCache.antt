-- ===== src/CompileCache.antt =====
-- The cache of src/mellowlang/compiler/compiler.py, around `_compile_uncached`, which is a parameter.
-- The entry that was used last is the last one.
mod Faithful
mod Tests
use mellow_programming_langu.Prelude.{
  ℕ, ◌+◌, ◌⊎◌, inl, inr, Bool, true, false, not, ◌&&◌, Option, none, some, List, [], ◌∷◌, ◌++◌, ltb,
  if◌then◌else◌, length,
}
use mellow_programming_langu.Text.{Text, text_eq}

-- `cache_key`
pub record CacheKey : Type 0 where
  pub source : Text
  pub filename : Option Text
  pub optimize : Bool

pub filename_eq : Option Text → Option Text → Bool
unfolding text_eq
filename_eq none none = true
filename_eq (some f) (some g) = text_eq f g
filename_eq none (some g) = false
filename_eq (some f) none = false

pub bool_eq : Bool → Bool → Bool
bool_eq true b = b
bool_eq false b = not b

pub key_eq : CacheKey → CacheKey → Bool
unfolding text_eq filename_eq bool_eq
key_eq k l =
    text_eq k.source l.source && filename_eq k.filename l.filename && bool_eq k.optimize l.optimize

-- `_COMPILE_CACHE_MAX`
abbrev pub cache_max : ℕ
cache_max = 128

pub record CompileCache (P : Type 0) : Type 0 where
  pub entries : List (CacheKey × P)
  pub hits : ℕ
  pub misses : ℕ

module _ {P : Type 0} where
  pub cached : CacheKey → List (CacheKey × P) → Option P
  unfolding key_eq
  cached key [] = none
  cached key ((k, program) ∷ entries) =
      let rest = cached key entries in if key_eq k key then some program else rest

  pub without_key : CacheKey → List (CacheKey × P) → List (CacheKey × P)
  unfolding key_eq
  without_key key [] = []
  without_key key ((k, program) ∷ entries) =
      let rest = without_key key entries in if key_eq k key then entries else (k, program) ∷ rest

  -- An entry under the key, at the end.
  pub as_newest : CacheKey → P → List (CacheKey × P) → List (CacheKey × P)
  unfolding without_key
  as_newest key program entries = without_key key entries ++ (key, program) ∷ []

  -- The loop that removes the first entry while there are too many.
  pub shrunk : List (CacheKey × P) → List (CacheKey × P)
  shrunk [] = []
  shrunk (entry ∷ entries) =
      let rest = shrunk entries in
      if ltb cache_max (length (entry ∷ entries)) then rest else entry ∷ entries

  pub clear_cache : CompileCache P → CompileCache P
  clear_cache cache = record { entries = []; hits = 0; misses = 0 }

  module _ {E : Type 0} (compile_uncached : CacheKey → E ⊎ P) where
    pub keep_program : CacheKey → CompileCache P → E ⊎ P → (E ⊎ P) × CompileCache P
    unfolding as_newest shrunk
    keep_program key cache (inl e) = (inl e, record cache { misses = cache.misses + 1 })
    keep_program key cache (inr program) = (
      inr program,
      record cache {
        entries = shrunk (as_newest key program cache.entries);
        misses = cache.misses + 1;
      },
    )

    pub looked_up : CacheKey → CompileCache P → Option P → (E ⊎ P) × CompileCache P
    unfolding keep_program as_newest
    looked_up key cache none = keep_program key cache (compile_uncached key)
    looked_up key cache (some program) = (
      inr program,
      record cache { entries = as_newest key program cache.entries; hits = cache.hits + 1 },
    )

    -- `compile`
    pub compile : CacheKey → CompileCache P → (E ⊎ P) × CompileCache P
    unfolding looked_up cached
    compile key cache = looked_up key cache (cached key cache.entries)
