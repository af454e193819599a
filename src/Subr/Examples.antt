-- ===== src/Subr/Examples.antt =====
-- The theorems on bsd/lib/lazybsd_kern_subr.c at work, and runs of its functions.
use lazybsd.Prelude.{ℕ, ◌≡◌, refl, true, Option, some, List, [], ◌∷◌, drop}
use lazybsd.Subr.Hash.{hash_size, primes, prime_size}
use lazybsd.Subr.Uio.{Iovec, sysspace, Uio, moved, uiomove, UioConsts}

hash_sizes : (hash_size 1 ≡ 1) × (hash_size 7 ≡ 4) × (hash_size 8 ≡ 8) × (hash_size 100 ≡ 64)
unfolding hash_size
hash_sizes = (refl, refl, refl, refl)

prime_sizes :
    (prime_size 12 1 (drop 1 primes) ≡ 1)
    × (prime_size 100 1 (drop 1 primes) ≡ 61)
    × (prime_size 99999 1 (drop 1 primes) ≡ 32749)
unfolding prime_size
prime_sizes = (refl, refl, refl)

-- All memory is at one address.
abbrev malloc : ℕ → Option ℕ
malloc n = some 4096

-- Segments of 3, 0 and 4 bytes.
abbrev segments : List Iovec
segments =
    record { iov_base = 100; iov_len = 3 }
    ∷ record { iov_base = 200; iov_len = 0 }
    ∷ record { iov_base = 300; iov_len = 4 }
    ∷ []

abbrev sample : Uio
sample = record {
  iovs = segments;
  resid = 7;
  offset = 0;
  segflg = sysspace;
  reads = true;
  copied = [];
}

-- Five bytes go to the first segment and to the start of the third.
five_bytes :
    uiomove (λ c. 0) 1000 5 sample
    ≡ moved 0 (record {
      iovs = record { iov_base = 302; iov_len = 2 } ∷ [];
      resid = 2;
      offset = 5;
      segflg = sysspace;
      reads = true;
      copied =
          record { source = 1003; target = 300; bytes = 2 }
          ∷ record { source = 1000; target = 100; bytes = 3 }
          ∷ [];
    })
unfolding uiomove
five_bytes = refl

abbrev consts : UioConsts
consts = record { einval = 22; enomem = 12; uio_maxiov = 1024 }
