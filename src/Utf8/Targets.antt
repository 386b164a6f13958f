-- ===== src/Utf8/Targets.antt =====
-- The targets of links are strings: src/utf8.rs and src/symlink.rs.
use affs_read.Prelude.{
  ℕ, ◌<◌, ◌≡◌, refl, sym, List, [], ◌∷◌, ◌++◌, some, inl, inr, arith, All, Bool-cases, All-take,
  ltb, take,
}
use mathlib.Core.Path.{subst}
use affs_read.Symlink.{latin1_to_utf8_symlink}
use affs_read.Symlink.Utf8.{translate, utf8, utf8_char, latin1_loop-Converted}
use affs_read.Symlink.Target.{translate-bytes}
use affs_read.Utf8.{IsUtf8, no_bytes, one, two, Validator, from_utf8}

-- The encoding of a character below 256 goes before well-formed bytes.
char-IsUtf8 : (c : ℕ) (rest : List ℕ) → c < 256 → IsUtf8 rest → IsUtf8 (utf8_char c ++ rest)
unfolding utf8_char
char-IsUtf8 c rest h more = elim (Bool-cases (ltb c 0x80)) [
  | inl ascii ↦ rw ascii (one ascii more)
  | inr high ↦ rw high (two (ground arith) (ground arith) more)
]

utf8-IsUtf8 : (cs : List ℕ) → All (λ c. c < 256) cs → IsUtf8 (utf8 cs)
unfolding utf8
utf8-IsUtf8 [] h = no_bytes
utf8-IsUtf8 (c ∷ cs) h = char-IsUtf8 c (utf8 cs) h.0 (utf8-IsUtf8 cs h.1)

module _ (v : Validator) where
  accepted : (bytes : List ℕ) → IsUtf8 bytes → from_utf8 v bytes ≡ some bytes
  unfolding from_utf8
  accepted bytes h = rw (v.accepts_complete bytes h) refl

  -- For a target of bytes, the bytes that the conversion writes are a string, whatever the room in
  -- the output buffer: a character that does not fit is not written in part.
  pub from_utf8-latin1_to_utf8_symlink :
      (latin1 out : List ℕ)
      → All (λ b. b < 256) latin1
      → let (out', n) = latin1_to_utf8_symlink latin1 out in
        from_utf8 v (take n out') ≡ some (take n out')
  unfolding latin1_to_utf8_symlink
  from_utf8-latin1_to_utf8_symlink latin1 out bytes =
      let r = latin1_loop-Converted latin1 0 out 0 bytes (omega arith) in
      let cs = translate 0 latin1 in
      accepted _ (
        subst IsUtf8 (sym r.written) (
          utf8-IsUtf8 (take r.count cs)
            (All-take (λ c. c < 256) r.count cs (translate-bytes 0 latin1 bytes))))
