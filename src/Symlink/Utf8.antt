-- ===== src/Symlink/Utf8.antt =====
-- The output of the Latin-1 conversion is UTF-8: the encoding of as many characters of the target
-- as fit, and from it the target can be read back. src/symlink.rs.
use affs_read.Prelude.{
  ℕ, suc, ◌+◌, ◌/◌, ◌%◌, ◌≤◌, ◌<◌, ◌≡◌, refl, sym, ap, ◌∙◌, true, false, List, [], ◌∷◌, ◌++◌, ◌⊎◌,
  inl, inr, arith, ◌&&◌, ltb, leb, ◌==◌, if◌then◌else◌, length, take, splice, All, passes_below,
  at-passes_below, Bool-cases, length-append, length-splice, take-splice_end,
}
use mathlib.Core.List.{append_assoc, append-nil}
use affs_read.Symlink.{volume_byte, lead_byte, tail_byte, latin1_loop}

-- The characters of the target: those of the source, `/` for a `:` at the front.
unfoldable pub translate : ℕ → List ℕ → List ℕ
translate i [] = []
translate i (b ∷ bs) = volume_byte i b ∷ translate (i + 1) bs

-- UTF-8 of a code point below 256, and of a list of them.
unfoldable pub utf8_char : ℕ → List ℕ
utf8_char c = if ltb c 0x80 then c ∷ [] else (0xc0 + c / 64) ∷ (0x80 + c % 64) ∷ []

unfoldable pub utf8 : List ℕ → List ℕ
utf8 [] = []
utf8 (c ∷ cs) = utf8_char c ++ utf8 cs

byte_table :
    passes_below (λ c. lead_byte c == 0xc0 + c / 64 && tail_byte c == 0x80 + c % 64) 256 ≡ true
unfolding passes_below
byte_table = refl

lead_tail : (c : ℕ) → c < 256 → (lead_byte c ≡ 0xc0 + c / 64) × (tail_byte c ≡ 0x80 + c % 64)
lead_tail c h = ground (arith, at-passes_below _ 256 c h byte_table)

pub volume_byte-lt : (i b : ℕ) → b < 256 → volume_byte i b < 256
volume_byte-lt i b h = ground arith

-- What the loop leaves: `count` characters of `cs`, encoded behind the first `start` bytes; either
-- all of them, or as many as fit.
pub record Converted (cs out : List ℕ) (start : ℕ) (result : List ℕ × ℕ) : Type 0 where
  pub count : ℕ
  pub written : take result.1 result.0 ≡ take start out ++ utf8 (take count cs)
  pub size : result.1 ≡ start + length (utf8 (take count cs))
  pub same_length : length result.0 ≡ length out
  pub fits : result.1 ≤ length out
  pub full : (count ≡ length cs) ⊎ (length out < start + length (utf8 (take (suc count) cs)))

Converted-stop :
    (cs out : List ℕ) (start : ℕ)
    → start ≤ length out
    → (0 ≡ length cs) ⊎ (length out < start + length (utf8 (take 1 cs)))
    → Converted cs out start (out, start)
unfolding utf8
Converted-stop cs out start h full = record {
  count = 0;
  written = sym (append-nil _);
  size = omega arith;
  same_length = refl;
  fits = h;
  full = full;
}

Converted-char :
    (c : ℕ) (ys cs out : List ℕ) (start : ℕ) (result : List ℕ × ℕ)
    → utf8_char c ≡ ys
    → start + length ys ≤ length out
    → Converted cs (splice out start ys) (start + length ys) result
    → Converted (c ∷ cs) out start result
unfolding utf8
Converted-char c ys cs out start result e h r =
    let same = length-splice out start ys h in
    let len = λ (n : ℕ). length-append ys (utf8 (take n cs)) in
    record {
      count = suc r.count;
      written = rw e (
          r.written
          ∙ ap (λ t. t ++ utf8 (take r.count cs)) (take-splice_end out start ys h)
          ∙ append_assoc (take start out) ys (utf8 (take r.count cs)));
      size = rw e (omega (arith, r.size, len r.count));
      same_length = r.same_length ∙ same;
      fits = omega (arith, r.fits, same);
      full = elim r.full [
        | inl all ↦ inl (ap suc all)
        | inr over ↦ inr (rw e (omega (arith, same, len (suc r.count))))
      ];
    }

Converted-stop_char :
    (c : ℕ) (ys cs out : List ℕ) (start : ℕ)
    → utf8_char c ≡ ys
    → start ≤ length out
    → length out < start + length ys
    → Converted (c ∷ cs) out start (out, start)
unfolding utf8
Converted-stop_char c ys cs out start e h over =
    Converted-stop (c ∷ cs) out start h
      (inr (unfold utf8 in rw e (omega (arith, over, length-append ys []))))

not_over : (a b : ℕ) → leb a b ≡ false → b < a
not_over a b h = ground arith

pub utf8_char_ascii : (c : ℕ) → ltb c 0x80 ≡ true → utf8_char c ≡ c ∷ []
unfolding utf8_char
utf8_char_ascii c h = rw h

utf8_char_high :
    (c : ℕ) → c < 256 → ltb c 0x80 ≡ false → utf8_char c ≡ lead_byte c ∷ tail_byte c ∷ []
unfolding utf8_char
utf8_char_high c lt h = let bound = lead_tail c lt in rw (h, bound.0, bound.1)

pub latin1_loop-Converted :
    (latin1 : List ℕ) (i : ℕ) (out : List ℕ) (start : ℕ)
    → All (λ b. b < 256) latin1
    → start ≤ length out
    → Converted (translate i latin1) out start (latin1_loop latin1 i out start)
unfolding latin1_loop translate
latin1_loop-Converted [] i out start bytes h = Converted-stop [] out start h (inl refl)
latin1_loop-Converted (b ∷ bs) i out start bytes h =
    let c = volume_byte i b in
    let cs = translate (i + 1) bs in
    let pair : List ℕ = lead_byte c ∷ tail_byte c ∷ [] in
    elim (Bool-cases (ltb c 0x80)) [
      | inl ascii ↦ elim (Bool-cases (leb (length out) start)) [
        | inl over ↦
            rw (ascii, over, latin1_loop)
              (Converted-stop_char c (c ∷ []) cs out start (utf8_char_ascii c ascii) h
                (ground arith))
        | inr room ↦
            rw (ascii, room, latin1_loop)
              (Converted-char c (c ∷ []) cs out start _ (utf8_char_ascii c ascii) (ground arith) (
                latin1_loop-Converted bs (i + 1) (splice out start (c ∷ [])) (start + 1) bytes.1 (
                  omega (
                    arith,
                    length-splice out start (c ∷ []) (ground arith),
                    not_over (length out) start room,
                  ))))
      ]
      | inr high ↦
          let two : utf8_char c ≡ pair = utf8_char_high c (volume_byte-lt i b bytes.0) high in
          elim (Bool-cases (leb (length out) (start + 1))) [
            | inl over ↦
                rw (high, over, latin1_loop)
                  (Converted-stop_char c pair cs out start two h (ground arith))
            | inr room ↦
                rw (high, room, latin1_loop)
                  (Converted-char c pair cs out start _ two (ground arith) (
                    latin1_loop-Converted bs (i + 1) (splice out start pair) (start + 2) bytes.1 (
                      omega (
                        arith,
                        length-splice out start pair (ground arith),
                        not_over (length out) (start + 1) room,
                      ))))
          ]
    ]
