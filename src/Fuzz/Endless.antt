-- ===== src/Fuzz/Endless.antt =====
-- The loop of the target over an image with a block number behind its end:
-- fuzz/fuzz_targets/fuzz_read.rs.
use affs_read.Prelude.{ℕ, zero, suc, ◌*◌, ◌≤◌, ◌<◌, ◌≡◌, ◌≢◌, refl, List, length, All}
use affs_read.Error.{AffsError, err, block_read_error}
use affs_read.Run.{out_of_fuel}
use affs_read.Types.{BlockDevice}
use affs_read.Dir.{DirIter, load_entry}
use affs_read.Dir.Stuck.{next-fails}
use affs_read.Reader.{AffsReader}
use affs_read.Fuzz.{entries_loop}
use affs_read.Fuzz.Image.{fuzz_device, read_image-outside}

-- Where the iterator has come to a block that always gives an error, the loop is not at its end
-- after any number of rounds.
entries_loop_endless :
    (device : BlockDevice) (fuel : ℕ) (r : AffsReader) (it : DirIter) (e : AffsError)
    → it.current_chain ≢ 0
    → ((buf : List ℕ) → (load_entry device it.current_chain buf).1 ≡ err e)
    → entries_loop device fuel r it ≡ out_of_fuel
unfolding entries_loop
entries_loop_endless device zero r it e chained fails = refl
entries_loop_endless device (suc fuel) r it e chained fails =
    let it' = record it { buf = (load_entry device it.current_chain it.buf).0 } in
    rw (next-fails device fuel it e chained (fails it.buf), entries_loop)
      (entries_loop_endless device fuel r it' e chained fails)

-- On the device of an image, that is so at a block behind the end of the image.
entries_loop-fuzz_device :
    (image : List ℕ) (h : All (λ b. b < 256) image) (fuel : ℕ) (r : AffsReader) (it : DirIter)
    → it.current_chain ≢ 0
    → length image ≤ it.current_chain * 512
    → entries_loop (fuzz_device image h) fuel r it ≡ out_of_fuel
unfolding fuzz_device load_entry
entries_loop-fuzz_device image h fuel r it chained behind =
    entries_loop_endless (fuzz_device image h) fuel r it block_read_error chained
      (λ buf. rw (read_image-outside image it.current_chain buf behind) refl)
