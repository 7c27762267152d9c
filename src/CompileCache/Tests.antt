-- ===== src/CompileCache/Tests.antt =====
-- A compiler that refuses the empty source, and a cache with one program.
use mellow_programming_langu.Prelude.{
  ℕ, ◌≡◌, refl, ◌⊎◌, inl, inr, Bool, true, false, none, [], ◌∷◌, arith, ◌==◌, if◌then◌else◌, length,
}
use mellow_programming_langu.Text.{codes}
use mellow_programming_langu.CompileCache.{CacheKey, CompileCache, compile}
use mellow_programming_langu.CompileCache.Faithful.{Faithful, compile-Faithful}

abbrev measured : CacheKey → Bool ⊎ ℕ
measured k = if length k.source == 0 then inl false else inr (length k.source)

abbrev key : CacheKey
key = record { source = codes "show 1"; filename = none; optimize = true }

abbrev cache : CompileCache ℕ
cache = record { entries = (key, 6) ∷ []; hits = 0; misses = 1 }

compile-Faithful_example :
    ((compile measured key cache).0 ≡ measured key)
    × Faithful measured (compile measured key cache).1
compile-Faithful_example = compile-Faithful measured key cache ((refl, tt), omega arith)
