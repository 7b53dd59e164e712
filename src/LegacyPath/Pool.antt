-- ===== src/LegacyPath/Pool.antt =====
-- The path pool of a legacy index: when its handles keep their meaning, and when they do not.
use elfshaker.Prelude.{
  arith, ℕ, suc, ◌+◌, ◌<◌, ◌++◌, ◌∙◌, sym, true, contains, length, get_elem?-append_left, ◌≡◌, refl,
  ap, Option, List, [], ◌∷◌, ok, get_elem?, list_eq, nat_eq,
}
use elfshaker.EntryPool
use elfshaker.EntryPool.{EntryPool, Handle}
use elfshaker.EntryPool.Serde.{entries-from_iter-new, entries-from_iter-new_repeated}
use elfshaker.HashSet.{IsDistinct}
use elfshaker.LegacyPath.{LegacyWirePath, decode, intern_paths}

get_elem?-behind :
    {A : Type 0} (xs : List A) (y : A) (ys : List A) (i : ℕ)
    → get_elem? (xs ++ ys) (length xs + i) ≡ get_elem? (xs ++ y ∷ ys) (length xs + suc i)
get_elem?-behind [] y ys i = ground arith
get_elem?-behind (x ∷ xs) y ys i = ground (arith, get_elem?-behind xs y ys i)

module _ (from_utf16 : List ℕ → Option (List ℕ)) where
  -- the paths that the wire paths decode to, one by one
  abbrev pub DecodeTo : List LegacyWirePath → List (List ℕ) → Type 0
  DecodeTo [] [] = Unit
  DecodeTo (w ∷ ws) (p ∷ ps) = (decode from_utf16 w ≡ ok p) × DecodeTo ws ps
  DecodeTo _ _ = ⊥

  intern_paths-from_iter :
      (pool : EntryPool (List ℕ)) (ws : List LegacyWirePath) (ps : List (List ℕ))
      → DecodeTo ws ps
      → intern_paths from_utf16 pool ws ≡ ok (EntryPool.from_iter pool ps)
  unfolding intern_paths EntryPool.from_iter
  intern_paths-from_iter pool [] [] d = refl
  intern_paths-from_iter pool [] (p ∷ ps) d = elim d [ ]
  intern_paths-from_iter pool (w ∷ ws) [] d = elim d [ ]
  intern_paths-from_iter pool (w ∷ ws) (p ∷ ps) (h, d) =
      rw h (intern_paths-from_iter (EntryPool.get_or_insert pool p).0 ws ps d)

  -- Where the wire paths decode to different paths, each handle of the wire pool stands for the
  -- same path in the pool that is made of it.
  pub intern_paths-lookup :
      (ws : List LegacyWirePath) (ps : List (List ℕ))
      → DecodeTo ws ps
      → IsDistinct ps
      → (pool : EntryPool (List ℕ)) × (intern_paths from_utf16 EntryPool.new ws ≡ ok pool)
        × ((h : Handle) → EntryPool.lookup pool h ≡ get_elem? ps h)
  unfolding EntryPool.lookup
  intern_paths-lookup ws ps d distinct = (
    EntryPool.from_iter EntryPool.new ps,
    intern_paths-from_iter EntryPool.new ws ps d,
    λ h. ap (λ es. get_elem? es h) (entries-from_iter-new ps distinct),
  )

  -- Where the wire paths decode to paths of which one repeats a path in front of it, and the
  -- others are different, no error is reported: the handles in front of the repetition stand for
  -- their paths, and each one from it on stands for the path one place behind.
  pub intern_paths_shifts :
      (ws : List LegacyWirePath) (front : List (List ℕ)) (p : List ℕ) (back : List (List ℕ))
      → DecodeTo ws (front ++ p ∷ back)
      → contains front p ≡ true
      → IsDistinct (front ++ back)
      → (pool : EntryPool (List ℕ)) × (intern_paths from_utf16 EntryPool.new ws ≡ ok pool)
        × ((h : Handle)
            → h < length front
            → EntryPool.lookup pool h ≡ get_elem? (front ++ p ∷ back) h)
        × ((i : ℕ)
            → EntryPool.lookup pool (length front + i)
              ≡ get_elem? (front ++ p ∷ back) (length front + suc i))
  unfolding EntryPool.lookup
  intern_paths_shifts ws front p back d there distinct =
      let entries = entries-from_iter-new_repeated front p back there distinct in
      (
        EntryPool.from_iter EntryPool.new (front ++ p ∷ back),
        intern_paths-from_iter EntryPool.new ws (front ++ p ∷ back) d,
        λ h low.
            ap (λ es. get_elem? es h) entries
            ∙ get_elem?-append_left front back h low
            ∙ sym (get_elem?-append_left front (p ∷ back) h low),
        λ i. ap (λ es. get_elem? es (length front + i)) entries ∙ get_elem?-behind front p back i,
      )
