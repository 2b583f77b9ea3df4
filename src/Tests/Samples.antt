-- ===== src/Tests/Samples.antt =====
-- Concrete instances of what is not under the repository, for the runs.
use xelis_pool.Common.{
  ℕ, ◌+◌, ◌-◌, ◌*◌, ◌/◌, ◌%◌, ◌^◌, ◌<◌, ◌≡◌, refl, some, [], ◌++◌, length, take, replicate, ltb,
  arith, length-append, length-replicate, take_prefix,
}
use xelis_pool.Common.Bytes.{Bytes, be_bytes}
use xelis_pool.Pow.BlockMiner.{BigEndianWriter}
use xelis_pool.Protocol.Frames.{Aead}
use xelis_pool.Master.Float.{Float}

pub sample_size : (msg : Bytes) → length msg ≡ length (msg ++ replicate 16 0) - 16
sample_size msg = omega (arith, length-append msg (replicate 16 0), length-replicate {A = ℕ} 16 0)

pub unseal_sample :
    (msg : Bytes)
    → some (take (length (msg ++ replicate 16 0) - 16) (msg ++ replicate 16 0)) ≡ some msg
unseal_sample msg =
    rw (take_prefix (length (msg ++ replicate 16 0) - 16) msg (replicate 16 0) (sample_size msg))

-- A cipher that hides nothing: the tag is 16 zeros.
abbrev pub plain_aead : Aead
plain_aead = record {
  seal = λ nonce msg. msg ++ replicate 16 0;
  unseal = λ nonce sealed. some (take (length sealed - 16) sealed);
  length_seal = λ nonce msg. length-append msg (replicate 16 0);
  unseal_seal = λ nonce msg. unseal_sample msg;
}

-- A writer that is the bytes written.
abbrev pub bytes_writer : BigEndianWriter
bytes_writer = record {
  W = Bytes;
  fresh = [];
  add_fixed_byte_array = λ a n w. w ++ a;
  add_uint64 = λ v w. w ++ be_bytes 8 v;
  written = λ w. w;
  written_fresh = refl;
  written_array = λ a n w e. refl;
  written_uint64 = λ v w. refl;
}

pub below : (x : ℕ) → x % 2 ^ 64 < 2 ^ 64
below x = omega arith

-- Whole numbers in place of floating-point ones.
abbrev pub whole_numbers : Float
whole_numbers = record {
  F = ℕ;
  of_ℕ = λ x. x;
  to_ℕ = λ x. x % 2 ^ 64;
  add = λ x y. x + y;
  sub = λ x y. x - y;
  mul = λ x y. x * y;
  div = λ x y. x / y;
  lt = ltb;
  to_ℕ_lt = λ x. below x;
}
