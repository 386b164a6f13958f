-- ===== src/Error.antt =====
-- src/error.rs: the errors, and `Result` with its `?` operator.
use Prim.Native.String.{String}
use affs_read.Prelude.{arith, ◌≡◌, refl, ◌⊎◌, inl, inr, Bool, true, false, Option, none, some}

pub data AffsError : Type 0 where
  block_read_error invalid_dos_type invalid_block_type invalid_sec_type checksum_mismatch :
      AffsError
  block_out_of_range entry_not_found name_too_long invalid_state end_of_file not_a_file : AffsError
  not_a_directory buffer_too_small invalid_data_sequence not_a_symlink symlink_too_long : AffsError

-- The text that `Display` gives.
unfoldable pub message : AffsError → String
message block_read_error = "block read error"
message invalid_dos_type = "invalid DOS type signature"
message invalid_block_type = "invalid block type"
message invalid_sec_type = "invalid secondary type"
message checksum_mismatch = "checksum mismatch"
message block_out_of_range = "block out of range"
message entry_not_found = "entry not found"
message name_too_long = "name too long"
message invalid_state = "invalid filesystem state"
message end_of_file = "end of file"
message not_a_file = "not a file"
message not_a_directory = "not a directory"
message buffer_too_small = "buffer too small"
message invalid_data_sequence = "invalid data block sequence"
message not_a_symlink = "not a symlink"
message symlink_too_long = "symlink target too long"

pub data Result {ℓ} (A : Type ℓ) : Type ℓ where
  ok : A → Result A
  err : AffsError → Result A

-- The operator `?`: an error ends the function, a value goes to the rest of it.
abbrev pub ◌>>=◌ {ℓ κ} :
    {T : Type ℓ} {S : Type κ} (step : Result T) (rest : T → Result S) → Result S
ok value >>= rest = rest value
err failure >>= rest = err failure

infixl 5 ◌>>=◌
-- `if !b { return Err(e) }`
abbrev pub guard : Bool → AffsError → Result (Unit {0})
guard true e = ok tt
guard false e = err e

abbrev pub ◌>>◌ {ℓ} : {S : Type ℓ} (test : Result (Unit {0})) (rest : Result S) → Result S
test >> rest = test >>= λ _. rest

infixl 5 ◌>>◌
-- `o.ok_or(e)`
abbrev pub ok_or {ℓ} : {A : Type ℓ} → Option A → AffsError → Result A
ok_or (some a) e = ok a
ok_or none e = err e

pub Result-cases {ℓ} :
    {A : Type ℓ} (r : Result A) → ((a : A) × (r ≡ ok a)) ⊎ ((e : AffsError) × (r ≡ err e))
Result-cases (ok a) = inl (a, refl)
Result-cases (err e) = inr (e, refl)

-- A function that returned had passed its test.
pub past_test {ℓ} :
    {S : Type ℓ} (test : Result (Unit {0})) {rest : Result S} {value : S}
    → (test >> rest) ≡ ok value
    → rest ≡ ok value
past_test (ok _) e = e
past_test (err failure) e = absurd (ground arith)

pub ok_injective {ℓ} : {A : Type ℓ} {a b : A} → ok a ≡ ok b → a ≡ b
ok_injective e = ground arith
