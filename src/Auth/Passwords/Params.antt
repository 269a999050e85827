-- ===== src/Auth/Passwords/Params.antt =====
-- Argon2id cost parameters and `validateArgonParams`.
use gouterstellar_platform.Base.{
  ltb, ◌==◌, ℕ, ◌*◌, ◌%◌, ◌^◌, ◌≤◌, ◌<◌, ◌≡◌, ◌↔◌, Bool, true, false, ◌&&◌, ◌||◌, arith,
}
use native.Mathlib.Nat.{mod-eq_of_lt}

-- `argon2id.Params`, of unsigned fields.
pub record Params : Type 0 where
  pub memory : ℕ
  pub iterations : ℕ
  pub parallelism : ℕ
  pub salt_length : ℕ
  pub key_length : ℕ

abbrev pub max_argon_hash_bytes : ℕ
max_argon_hash_bytes = 256

abbrev pub max_argon_memory_kib : ℕ
max_argon_memory_kib = 256 * 1024

abbrev pub max_argon_iterations : ℕ
max_argon_iterations = 6

abbrev pub max_argon_parallelism : ℕ
max_argon_parallelism = 16

abbrev pub max_argon_work_kib : ℕ
max_argon_work_kib = 512 * 1024

abbrev pub max_argon_salt_bytes : ℕ
max_argon_salt_bytes = 64

abbrev pub max_argon_key_bytes : ℕ
max_argon_key_bytes = 64

-- `==` on the struct.
unfoldable pub params_eq : Params → Params → Bool
params_eq p q =
    p.memory == q.memory
    && p.iterations == q.iterations
    && p.parallelism == q.parallelism
    && p.salt_length == q.salt_length
    && p.key_length == q.key_length

abbrev pub zero_params : Params
zero_params = record {
  memory = 0;
  iterations = 0;
  parallelism = 0;
  salt_length = 0;
  key_length = 0;
}

abbrev pub default_params : Params
default_params = record {
  memory = 64 * 1024;
  iterations = 3;
  parallelism = 2;
  salt_length = 16;
  key_length = 32;
}

-- Whether `validateArgonParams` reports `ErrUnsafeHash`. The product is taken in uint64.
unfoldable pub unsafe_params : Params → Bool
unsafe_params p =
    p.memory == 0
    || ltb max_argon_memory_kib p.memory
    || p.iterations == 0
    || ltb max_argon_iterations p.iterations
    || p.parallelism == 0
    || ltb max_argon_parallelism p.parallelism
    || ltb max_argon_work_kib (p.memory * p.iterations % 2 ^ 64)
    || ltb p.salt_length 16
    || ltb max_argon_salt_bytes p.salt_length
    || ltb p.key_length 16
    || ltb max_argon_key_bytes p.key_length

-- The costs that verification may spend. The work is the true product.
pub record IsSafe (p : Params) : Type 0 where
  pub memory_pos : 0 < p.memory
  pub memory_bound : p.memory ≤ max_argon_memory_kib
  pub iterations_pos : 0 < p.iterations
  pub iterations_bound : p.iterations ≤ max_argon_iterations
  pub parallelism_pos : 0 < p.parallelism
  pub parallelism_bound : p.parallelism ≤ max_argon_parallelism
  pub work_bound : p.memory * p.iterations ≤ max_argon_work_kib
  pub salt_low : 16 ≤ p.salt_length
  pub salt_bound : p.salt_length ≤ max_argon_salt_bytes
  pub key_low : 16 ≤ p.key_length
  pub key_bound : p.key_length ≤ max_argon_key_bytes

work_fits : (m i : ℕ) → m ≤ max_argon_memory_kib → i ≤ 6 → m * i % 2 ^ 64 ≡ m * i
work_fits m i hm hi = mod-eq_of_lt (grind arith)

unsafe_params_sound : (p : Params) → unsafe_params p ≡ false → IsSafe p
unfolding unsafe_params
unsafe_params_sound p h = ground (arith, work_fits p.memory p.iterations)

unsafe_params_complete : (p : Params) → IsSafe p → unsafe_params p ≡ false
unfolding unsafe_params
unsafe_params_complete p v = ground (arith, work_fits p.memory p.iterations)

-- The test passes exactly the parameters whose every cost, and whose true work, is in its bounds.
pub unsafe_params_iff : (p : Params) → (unsafe_params p ≡ false) ↔ IsSafe p
unsafe_params_iff p = (unsafe_params_sound p, unsafe_params_complete p)

pub params_eq_iff : (p q : Params) → (params_eq p q ≡ true) ↔ (p ≡ q)
unfolding params_eq
params_eq_iff p q = (λ h. ground arith, λ h. ground arith)
