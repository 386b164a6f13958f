-- ===== src/Block/Names/Laws.antt =====
-- Names that compare equal have the same hash, so the search may look at one chain: src/block.rs.
use affs_read.Prelude.{
  leb, ◌&&◌, ◌||◌, ℕ, suc, ◌-◌, ◌%◌, ◌^◌, ◌<◌, ◌≡◌, ◌↔◌, refl, sym, ap, ap₂, ◌∙◌, Bool, true, false,
  List, [], ◌∷◌, map, arith, ◌==◌, ==_iff, if◌then◌else◌, length, All, passes_below,
  at-passes_below, Bool-cases, inl, inr,
}
use affs_read.Constants.{hash_table_size}
use affs_read.Block.Names.{
  is_ascii_lowercase, ascii_to_upper, intl_to_upper, to_upper, hash_loop, hash_name, all_equal,
  is_empty, names_equal,
}

-- `names_equal` compares the names in capitals.
all_equal-eq :
    (upper : ℕ → ℕ) (a b : List ℕ)
    → length a ≡ length b
    → (all_equal upper a b ≡ true) ↔ (map upper a ≡ map upper b)
unfolding all_equal
all_equal-eq upper [] [] e = (λ _. refl, λ _. refl)
all_equal-eq upper [] (y ∷ b) e = absurd (omega arith)
all_equal-eq upper (x ∷ a) [] e = absurd (omega arith)
all_equal-eq upper (x ∷ a) (y ∷ b) e = ground (arith, all_equal-eq upper a b (omega arith))

length-map : (f : ℕ → ℕ) (xs : List ℕ) → length (map f xs) ≡ length xs
length-map f [] = refl
length-map f (x ∷ xs) = ap suc (length-map f xs)

drop_empty_test :
    (upper : ℕ → ℕ) (a b : List ℕ)
    → (if is_empty a then true else all_equal upper a b) ≡ all_equal upper a b
unfolding all_equal
drop_empty_test upper [] b = refl
drop_empty_test upper (x ∷ a) b = refl

compare_iff :
    (upper : ℕ → ℕ) (a b : List ℕ)
    → ((if length a == length b then if is_empty a then true else all_equal upper a b else false)
        ≡ true)
      ↔ (map upper a ≡ map upper b)
compare_iff upper a b = elim (Bool-cases (length a == length b)) [
  | inl same ↦ rw (same, drop_empty_test upper a b) (all_equal-eq upper a b ((==_iff _ _).0 same))
  | inr differ ↦
      rw differ
        (λ h. cc, λ e. absurd (ground (arith, length-map upper a, length-map upper b, ap length e)))
]

-- The names are compared in the capitals of the code.
pub names_equal-capitals :
    (a b : List ℕ) (intl : Bool)
    → (names_equal a b intl ≡ true) ↔ (map (to_upper intl) a ≡ map (to_upper intl) b)
unfolding names_equal
names_equal-capitals a b true = compare_iff intl_to_upper a b
names_equal-capitals a b false = compare_iff ascii_to_upper a b

head_eq :
    (intl : Bool) (x y : ℕ) (a b : List ℕ)
    → map (to_upper intl) (x ∷ a) ≡ map (to_upper intl) (y ∷ b)
    → to_upper intl x ≡ to_upper intl y
head_eq intl x y a b e = ground arith

tail_eq :
    (intl : Bool) (x y : ℕ) (a b : List ℕ)
    → map (to_upper intl) (x ∷ a) ≡ map (to_upper intl) (y ∷ b)
    → map (to_upper intl) a ≡ map (to_upper intl) b
tail_eq intl x y a b e = ground arith

-- The hash reads a name in capitals.
hash_loop-map :
    (intl : Bool) (a b : List ℕ) (hash : ℕ)
    → map (to_upper intl) a ≡ map (to_upper intl) b
    → hash_loop intl a hash ≡ hash_loop intl b hash
unfolding hash_loop
hash_loop-map intl [] [] hash e = refl
hash_loop-map intl [] (y ∷ b) hash e = absurd (cc)
hash_loop-map intl (x ∷ a) [] hash e = absurd (cc)
hash_loop-map intl (x ∷ a) (y ∷ b) hash e =
    rw (head_eq intl x y a b e) (hash_loop-map intl a b _ (tail_eq intl x y a b e))

ascii_upper_table :
    passes_below (λ c. ascii_to_upper c == (if is_ascii_lowercase c then c - 32 else c)) 256 ≡ true
unfolding passes_below ascii_to_upper
ascii_upper_table = refl

-- The branchless capital of a byte is the plain one: a lower-case ASCII letter less 32, and any
-- other byte itself.
ascii_to_upper_lem :
    (c : ℕ) → c < 256 → ascii_to_upper c ≡ (if is_ascii_lowercase c then c - 32 else c)
ascii_to_upper_lem c h = (==_iff _ _).0 (at-passes_below _ 256 c h ascii_upper_table)

-- Names that the file system takes for equal have the same hash, in either mode, and the hash is
-- a slot of the hash table.
pub hash_name-names_equal :
    (a b : List ℕ) (intl : Bool)
    → names_equal a b intl ≡ true
    → (hash_name a intl ≡ hash_name b intl) × (hash_name a intl < hash_table_size)
unfolding hash_name
hash_name-names_equal a b intl h =
    let same = (names_equal-capitals a b intl).0 h in
    let len : length a ≡ length b =
      sym (length-map (to_upper intl) a) ∙ ap length same ∙ length-map (to_upper intl) b in
    (
      rw len
          (ap (λ (t : ℕ). t % hash_table_size) (hash_loop-map intl a b (length b % 2 ^ 32) same)),
      omega arith,
    )

-- The capital of a Latin-1 character: of a letter from a to z, and in the international mode of an
-- accented letter from 224 to 246 or from 248 to 254, the character 32 before it. Others are
-- their own.
pub capital : Bool → ℕ → ℕ
capital intl c =
    if leb 97 c && leb c 122
    then c - 32
    else if intl && (leb 224 c && leb c 246 || leb 248 c && leb c 254)
    then c - 32
    else c

capital_table :
    passes_below (λ c. intl_to_upper c == capital true c && ascii_to_upper c == capital false c) 256
    ≡ true
unfolding passes_below intl_to_upper ascii_to_upper capital
capital_table = refl

to_upper-eq-capital : (intl : Bool) (c : ℕ) → c < 256 → to_upper intl c ≡ capital intl c
to_upper-eq-capital true c h = ground (arith, at-passes_below _ 256 c h capital_table)
to_upper-eq-capital false c h = ground (arith, at-passes_below _ 256 c h capital_table)

map-to_upper :
    (intl : Bool) (a : List ℕ) → All (λ c. c < 256) a → map (to_upper intl) a ≡ map (capital intl) a
map-to_upper intl [] h = refl
map-to_upper intl (c ∷ a) h = ap₂ ◌∷◌ (to_upper-eq-capital intl c h.0) (map-to_upper intl a h.1)

-- Two names of bytes are equal for the file system exactly when they are the same once each
-- character is replaced by its capital: without the international mode only the letters from a to z
-- have one, and with it the Latin-1 characters from 224 to 254 except 247 have one too. No
-- other difference is ignored, in length or in a character.
pub names_equal_iff :
    (a b : List ℕ) (intl : Bool)
    → All (λ c. c < 256) a
    → All (λ c. c < 256) b
    → (names_equal a b intl ≡ true) ↔ (map (capital intl) a ≡ map (capital intl) b)
names_equal_iff a b intl ha hb =
    rw (← map-to_upper intl a ha) (rw (← map-to_upper intl b hb) (names_equal-capitals a b intl))

ascii_in_intl_table :
    passes_below (λ c. intl_to_upper (ascii_to_upper c) == intl_to_upper c) 256 ≡ true
unfolding passes_below intl_to_upper ascii_to_upper
ascii_in_intl_table = refl

intl-ascii : (c : ℕ) → c < 256 → intl_to_upper (ascii_to_upper c) ≡ intl_to_upper c
intl-ascii c h = (==_iff _ _).0 (at-passes_below _ 256 c h ascii_in_intl_table)

map-intl-ascii :
    (a : List ℕ)
    → All (λ c. c < 256) a
    → map intl_to_upper (map ascii_to_upper a) ≡ map intl_to_upper a
map-intl-ascii [] h = refl
map-intl-ascii (c ∷ a) h = ap₂ ◌∷◌ (intl-ascii c h.0) (map-intl-ascii a h.1)

-- Names of bytes that are equal without the international mode are equal with it.
names_equal-intl :
    (a b : List ℕ)
    → All (λ c. c < 256) a
    → All (λ c. c < 256) b
    → names_equal a b false ≡ true
    → names_equal a b true ≡ true
names_equal-intl a b ha hb h = (names_equal-capitals a b true).1 (
    sym (map-intl-ascii a ha)
    ∙ ap (map intl_to_upper) ((names_equal-capitals a b false).0 h)
    ∙ map-intl-ascii b hb)
