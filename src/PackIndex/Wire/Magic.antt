-- ===== src/PackIndex/Wire/Magic.antt =====
-- `read_magic` and the version dispatch of packidx.rs.
use elfshaker.Prelude.{ℕ, ◌≡◌, refl, arith, List, [], ◌∷◌, ◌++◌, ok}
use elfshaker.PackIndex.Wire.{write_magic, write_version, read_exact, check_version, read_magic}

pub read_exact_four :
    (a b c d : ℕ) (rest : List ℕ)
    → read_exact 4 (a ∷ b ∷ c ∷ d ∷ rest) ≡ ok (a ∷ b ∷ c ∷ d ∷ [], rest)
unfolding read_exact
read_exact_four a b c d rest = ground arith

-- What `write_magic` wrote is read back as the version written, with the bytes that follow.
pub read_magic-write_magic :
    (rest : List ℕ) → read_magic (write_magic ++ rest) ≡ ok (write_version, rest)
unfolding read_magic write_magic check_version
read_magic-write_magic rest = rw read_exact_four (rw read_exact_four refl)
